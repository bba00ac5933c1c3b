-- ===== src/Machine/Shutdown/Completes.antt =====
-- That a graceful shutdown ends in time: the loop of
-- internal/modules/color_game/gms/machine/state_machine.go sleeps for 22 seconds at most once it is to stop.
use native.Mathlib.Nat.{le_trans}
use game_production.Common.{
  ℕ, ◌+◌, ◌*◌, ◌≤◌, String, true, false, List, [], ◌∷◌, length, ok, ◌≡◌, refl, arith, Bool-cases,
  inl, inr,
}
use game_production.Clock.{Time, second}
use game_production.Machine.Defs.{
  Handler, StateMachine, Pc, at_top, in_wait, in_betting, in_drawing, in_result, in_rest, finished,
  segment, stop, emit_event, register_event_handler,
}
use game_production.Machine.System.{System, Action, wakes, cancels, stops, registers, takes, act}
use game_production.Machine.Stopping.{distance, wake_count, distance-act}
use game_production.Machine.Shutdown.{
  Draining, Step, does, returns, is_finished, is_drained, is_done, is_late, step, await_done,
  stopping, graceful_shutdown,
}

-- How long the loop sleeps where it is, and at most `slack` longer; after its end it does not wake.
abbrev pub sleep_of : ℕ → Pc → StateMachine → ℕ
sleep_of slack at_top m = slack
sleep_of slack in_wait m = m.wait_duration + slack
sleep_of slack in_betting m = m.betting_duration + slack
sleep_of slack in_drawing m = m.drawing_duration + slack
sleep_of slack in_result m = m.result_duration + slack
sleep_of slack in_rest m = m.rest_duration + slack
sleep_of slack finished m = 0

-- All sleeps up to the end of the loop.
abbrev pub sleeps_left : Pc → StateMachine → ℕ
sleeps_left finished m = 0
sleeps_left at_top m = 0
sleeps_left in_rest m = m.rest_duration
sleeps_left in_result m = m.result_duration + m.rest_duration
sleeps_left in_drawing m = m.drawing_duration + (m.result_duration + m.rest_duration)
sleeps_left in_betting m =
    m.betting_duration + (m.drawing_duration + (m.result_duration + m.rest_duration))
sleeps_left in_wait m =
    m.wait_duration
    + (m.betting_duration + (m.drawing_duration + (m.result_duration + m.rest_duration)))

-- The durations that NewStateMachine sets, which nothing changes.
abbrev pub HasDefaults : StateMachine → Type 0
HasDefaults m =
    (m.wait_duration ≡ 2 * second)
    × (m.betting_duration ≡ 10 * second)
    × (m.drawing_duration ≡ 2 * second)
    × (m.result_duration ≡ 5 * second)
    × (m.rest_duration ≡ 3 * second)

abbrev pub actions_of : List Step → List Action
actions_of [] = []
actions_of (does a ∷ rest) = a ∷ actions_of rest
actions_of (returns now ∷ rest) = actions_of rest

-- Each handler that returns has done so by the deadline.
abbrev pub ReturnsBy : Time → List Step → Type 0
ReturnsBy deadline [] = Unit
ReturnsBy deadline (does a ∷ rest) = ReturnsBy deadline rest
ReturnsBy deadline (returns now ∷ rest) = (now ≤ deadline) × ReturnsBy deadline rest

module _ (format : Time → String) where
  -- Each wake-up comes at most `slack` after the end of its sleep, counted from the wake-up before.
  abbrev pub OnTime : ℕ → Time → List Step → Draining → Type 0
  OnTime slack t [] s = Unit
  OnTime slack t (does (wakes now later pick) ∷ rest) s =
      (now ≤ t + sleep_of slack s.system.machine.pc s.system.machine)
      × OnTime slack now rest (step format (does (wakes now later pick)) s)
  OnTime slack t (does cancels ∷ rest) s = OnTime slack t rest (step format (does cancels) s)
  OnTime slack t (does stops ∷ rest) s = OnTime slack t rest (step format (does stops) s)
  OnTime slack t (does (registers h) ∷ rest) s =
      OnTime slack t rest (step format (does (registers h)) s)
  OnTime slack t (does takes ∷ rest) s = OnTime slack t rest (step format (does takes) s)
  OnTime slack t (returns now ∷ rest) s = OnTime slack t rest (step format (returns now) s)

  unfoldable pub run_steps : List Step → Draining → Draining
  unfolding step
  run_steps [] s = s
  run_steps (x ∷ rest) s = run_steps rest (step format x s)

  -- What stays as it is while the loop is to stop.
  abbrev Stopping : System → Type 0
  Stopping s = (s.machine.stopping ≡ true) × HasDefaults s.machine

  -- The time by which the loop ends at the latest.
  abbrev bound : ℕ → Time → System → ℕ
  bound slack t s = t + (sleeps_left s.machine.pc s.machine + distance s.machine.pc * slack)

  act-Stopping : (a : Action) (s : System) → Stopping s → Stopping (act format a s)
  unfolding act segment stop register_event_handler emit_event
  act-Stopping (wakes now later pick) s h = ground arith
  act-Stopping cancels s h = ground arith
  act-Stopping stops s h = ground arith
  act-Stopping (registers x) s h = ground arith
  act-Stopping takes s h = ground arith

  act-bound :
      (slack : ℕ) (t now later : Time) (pick : ℕ) (s : System)
      → Stopping s
      → now ≤ t + sleep_of slack s.machine.pc s.machine
      → (now ≤ bound slack t s)
        × (bound slack now (act format (wakes now later pick) s) ≤ bound slack t s)
  unfolding act segment emit_event
  act-bound slack t now later pick s h soon = ground arith

  -- A step that is not a wake-up leaves the latest end as it is.
  stops-bound :
      (slack : ℕ) (t : Time) (s : System) → bound slack t (act format stops s) ≡ bound slack t s
  unfolding act stop
  stops-bound slack t s = ground arith

  registers-bound :
      (slack : ℕ) (t : Time) (h : Handler) (s : System)
      → bound slack t (act format (registers h) s) ≡ bound slack t s
  unfolding act register_event_handler
  registers-bound slack t h s = ground arith

  takes-bound :
      (slack : ℕ) (t : Time) (s : System) → bound slack t (act format takes s) ≡ bound slack t s
  unfolding act
  takes-bound slack t s = ground arith

  -- The shutdown succeeds, with doneChan closed.
  abbrev Succeeds : List Step → Time → Draining → Type 0
  Succeeds steps deadline s =
      ((await_done format steps deadline s).0 ≡ ok tt)
      × (is_done (await_done format steps deadline s).1 ≡ true)

  -- A step that is not late, if doneChan is not closed already.
  step-Succeeds :
      (x : Step) (rest : List Step) (deadline : Time) (s : Draining)
      → is_late x deadline ≡ false
      → Succeeds rest deadline (step format x s)
      → Succeeds (x ∷ rest) deadline s
  unfolding await_done
  step-Succeeds x rest deadline s in_time later = elim (Bool-cases (is_done s)) [
    | inl done ↦ rw (done, await_done) (refl, done)
    | inr going ↦ rw (going, in_time, await_done) later
  ]

  -- What the steps that are left are to do from the state `s` at the time `t` on.
  record Leads (slack deadline : ℕ) (steps : List Step) (t : Time) (s : Draining) : Type 0 where
    stopping_now : Stopping s.system
    on_time : OnTime slack t steps s
    enough : distance s.system.machine.pc ≤ wake_count (actions_of steps)
    soon : bound slack t s.system ≤ deadline
    returns_by : ReturnsBy deadline steps
    drained : is_drained (run_steps steps s) ≡ true

  next-Leads :
      (slack deadline : ℕ) (a : Action) (rest : List Step) (t t' : Time) (s : Draining)
      → Leads slack deadline (does a ∷ rest) t s
      → OnTime slack t' rest (step format (does a) s)
      → bound slack t' (act format a s.system) ≤ bound slack t s.system
      → Leads slack deadline rest t' (step format (does a) s)
  unfolding run_steps step
  next-Leads slack deadline a rest t t' s h on_time less = record {
    stopping_now = act-Stopping a s.system h.stopping_now;
    on_time = on_time;
    enough = distance-act format a (actions_of rest) s.system (inl h.stopping_now.0) h.enough;
    soon = le_trans less h.soon;
    returns_by = h.returns_by;
    drained = h.drained;
  }

  ended : (s : Draining) → distance s.system.machine.pc ≤ 0 → is_drained s ≡ true → is_done s ≡ true
  unfolding is_done is_finished
  ended s d drained = ground (arith, drained)

  -- Until the deadline the loop is woken often enough, so it is done before, and so are the workers.
  run-Succeeds :
      (slack deadline : ℕ) (steps : List Step) (t : Time) (s : Draining)
      → Leads slack deadline steps t s
      → Succeeds steps deadline s
  unfolding await_done run_steps step
  run-Succeeds slack deadline [] t s h =
      let done = ended s h.enough h.drained in rw (done, await_done) (refl, done)
  run-Succeeds slack deadline (does (wakes now later pick) ∷ rest) t s h =
      let (early, less) = act-bound slack t now later pick s.system h.stopping_now h.on_time.0 in
      step-Succeeds (does (wakes now later pick)) rest deadline s (ground (arith, early, h.soon)) (
        run-Succeeds slack deadline rest now (step format (does (wakes now later pick)) s)
          (next-Leads slack deadline (wakes now later pick) rest t now s h h.on_time.1 less))
  run-Succeeds slack deadline (does cancels ∷ rest) t s h =
      step-Succeeds (does cancels) rest deadline s refl (
        run-Succeeds slack deadline rest t (step format (does cancels) s)
          (next-Leads slack deadline cancels rest t t s h h.on_time (omega arith)))
  run-Succeeds slack deadline (does stops ∷ rest) t s h =
      step-Succeeds (does stops) rest deadline s refl (
        run-Succeeds slack deadline rest t (step format (does stops) s) (
          next-Leads slack deadline stops rest t t s h h.on_time
            (omega (arith, stops-bound slack t s.system))))
  run-Succeeds slack deadline (does (registers x) ∷ rest) t s h =
      step-Succeeds (does (registers x)) rest deadline s refl (
        run-Succeeds slack deadline rest t (step format (does (registers x)) s) (
          next-Leads slack deadline (registers x) rest t t s h h.on_time
            (omega (arith, registers-bound slack t x s.system))))
  run-Succeeds slack deadline (does takes ∷ rest) t s h =
      step-Succeeds (does takes) rest deadline s refl (
        run-Succeeds slack deadline rest t (step format (does takes) s) (
          next-Leads slack deadline takes rest t t s h h.on_time
            (omega (arith, takes-bound slack t s.system))))
  run-Succeeds slack deadline (returns now ∷ rest) t s h =
      step-Succeeds (returns now) rest deadline s (ground (arith, h.returns_by.0)) (
        run-Succeeds slack deadline rest t (step format (returns now) s) (record {
          stopping_now = h.stopping_now;
          on_time = h.on_time;
          enough = h.enough;
          soon = h.soon;
          returns_by = h.returns_by.1;
          drained = h.drained;
        }))

  -- GracefulShutdown with a limit of 30 seconds, as all the programs call it, succeeds from every phase of a round if
  -- the loop is woken in time, each sleep ending at most a second late, and the workers take all the jobs of the queue and
  -- their handlers return within the 30 seconds, whatever else happens meanwhile. Then the loop has ended,
  -- no job is left in the queue and each handler that a worker ran has returned.
  pub shutdown_completes :
      (now : Time) (steps : List Step) (s : Draining)
      → HasDefaults s.system.machine
      → OnTime second now steps (stopping s)
      → distance s.system.machine.pc ≤ wake_count (actions_of steps)
      → ReturnsBy (now + 30 * second) steps
      → is_drained (run_steps steps (stopping s)) ≡ true
      → let (answer, t) = graceful_shutdown format (30 * second) now steps s in
        (answer ≡ ok tt)
        × (t.system.machine.pc ≡ finished)
        × (length t.system.machine.jobs.queue ≡ 0)
        × (length t.system.machine.jobs.taken ≡ t.returned)
  unfolding graceful_shutdown stopping stop is_done is_finished is_drained
  shutdown_completes now steps s defaults on_time enough returned drained =
      let done = run-Succeeds second (now + 30 * second) steps now (stopping s) (record {
        stopping_now = (refl, defaults);
        on_time = on_time;
        enough = enough;
        soon = ground arith;
        returns_by = returned;
        drained = drained;
      }) in
      (done.0, ground (arith, done.1), ground (arith, done.1), ground (arith, done.1))
