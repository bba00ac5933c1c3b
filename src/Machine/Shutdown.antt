-- ===== src/Machine/Shutdown.antt =====
-- GracefulShutdown of internal/modules/color_game/gms/machine/state_machine.go, which gives the game
-- loop and the workers a time to end. The loop runs among the other goroutines as in System; a step later
-- than the deadline stands for time.After.
pub mod Completes
use native.Mathlib.Nat.{le_trans}
use game_production.Common.{
  ℕ, zero, suc, ◌+◌, ◌*◌, ◌≤◌, ◌<◌, String, Bool, true, false, ◌&&◌, List, [], ◌∷◌, ltb, eqb,
  length, if◌then◌else◌, failure, Result, ok, err, ◌≡◌, refl, ◌∙◌, ap, arith, Bool-cases, inl, inr,
}
use game_production.Clock.{Time, second}
use game_production.Machine.Defs.{
  Handler, StateMachine, Pc, at_top, in_wait, in_betting, in_drawing, in_result, in_rest, finished,
  segment, stop, emit_event, register_event_handler, new_state_machine,
}
use game_production.Machine.System.{System, Action, wakes, cancels, stops, registers, takes, act}
use game_production.Machine.Stopping.{distance, wake_count, distance-act}

-- The system with the number of jobs, among those that workers have taken, whose handler has returned.
pub record Draining : Type 0 where
  pub system : System
  pub returned : ℕ

-- What happens next: a step of the system, or the handler of a job returns.
pub data Step : Type 0 where
  does : Action → Step
  returns : Time → Step

-- Start has returned from its loop.
unfoldable pub is_finished : Pc → Bool
is_finished finished = true
is_finished at_top = false
is_finished in_wait = false
is_finished in_betting = false
is_finished in_drawing = false
is_finished in_result = false
is_finished in_rest = false

-- shutdownWorkers is through: the closed queue is empty and each worker has ended.
unfoldable pub is_drained : Draining → Bool
is_drained s =
    eqb (length s.system.machine.jobs.queue) 0
    && eqb (length s.system.machine.jobs.taken) s.returned

-- doneChan is closed: by the deferred calls of Start, after shutdownWorkers.
unfoldable pub is_done : Draining → Bool
unfolding is_finished is_drained
is_done s = is_finished s.system.machine.pc && is_drained s

abbrev is_late : Step → Time → Bool
is_late (does (wakes now later pick)) deadline = ltb deadline now
is_late (does cancels) deadline = false
is_late (does stops) deadline = false
is_late (does (registers h)) deadline = false
is_late (does takes) deadline = false
is_late (returns now) deadline = ltb deadline now

unfoldable pub stopping : Draining → Draining
unfolding stop
stopping s = record s { system = record (s.system) { machine = stop s.system.machine } }

module _ (format : Time → String) where
  unfoldable pub step : Step → Draining → Draining
  unfolding act
  step (does a) s = record s { system = act format a s.system }
  step (returns now) s = record s {
    returned =
        if ltb s.returned (length s.system.machine.jobs.taken) then suc s.returned else s.returned;
  }

  -- The select over doneChan and the timer.
  unfoldable pub await_done : List Step → Time → Draining → Result (Unit {0}) × Draining
  unfolding is_done step
  await_done [] deadline s = elim (is_done s) [
    | true ↦ (ok tt, s)
    | false ↦ (err (failure "state machine shutdown timed out"), s)
  ]
  await_done (x ∷ rest) deadline s = elim (is_done s) [
    | true ↦ (ok tt, s)
    | false ↦ elim (is_late x deadline) [
      | true ↦ (err (failure "state machine shutdown timed out"), s)
      | false ↦ await_done rest deadline (step x s)
    ]
  ]

  -- Stop, and then the wait.
  unfoldable pub graceful_shutdown : ℕ → Time → List Step → Draining → Result (Unit {0}) × Draining
  unfolding await_done stopping
  graceful_shutdown timeout now steps s = await_done steps (now + timeout) (stopping s)
