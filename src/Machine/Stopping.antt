-- ===== src/Machine/Stopping.antt =====
-- The end of the game loop: `Stop`, `GracefulShutdown` and a cancelled context.
use game_production.Common.{ℕ, suc, ◌≤◌, ◌≡◌, String, ◌⊎◌, true, List, [], ◌∷◌, arith}
use game_production.Clock.{Time}
use game_production.Machine.Defs.{
  Pc, at_top, in_wait, in_betting, in_drawing, in_result, in_rest, finished, segment, stop,
  emit_event, register_event_handler,
}
use game_production.Machine.System.{
  System, Action, wakes, cancels, stops, registers, takes, act, run,
}

-- How many wake-ups the loop needs to end once it is to stop.
abbrev pub distance : Pc → ℕ
distance finished = 0
distance at_top = 1
distance in_rest = 2
distance in_result = 3
distance in_drawing = 4
distance in_betting = 5
distance in_wait = 6

abbrev pub wake_count : List Action → ℕ
wake_count [] = 0
wake_count (wakes _ _ _ ∷ acts) = suc (wake_count acts)
wake_count (_ ∷ acts) = wake_count acts

-- The loop is to stop: `stopping` is set, or the context is cancelled.
abbrev pub Ending : System → Type 0
Ending s = (s.machine.stopping ≡ true) ⊎ (s.cancelled ≡ true)

module _ (format : Time → String) where
  act-Ending : (a : Action) (s : System) → Ending s → Ending (act format a s)
  unfolding act segment stop register_event_handler emit_event
  act-Ending (wakes now later pick) s h = ground arith
  act-Ending cancels s h = ground arith
  act-Ending stops s h = ground arith
  act-Ending (registers x) s h = ground arith
  act-Ending takes s h = ground arith

  pub distance-act :
      (a : Action) (acts : List Action) (s : System)
      → Ending s
      → distance s.machine.pc ≤ wake_count (a ∷ acts)
      → distance (act format a s).machine.pc ≤ wake_count acts
  unfolding act segment stop register_event_handler emit_event
  distance-act (wakes now later pick) acts s h d = ground arith
  distance-act cancels acts s h d = d
  distance-act stops acts s h d = d
  distance-act (registers x) acts s h d = d
  distance-act takes acts s h d = d

  -- Once `Stop` was called or the context was cancelled, the game loop ends after at most as many
  -- wake-ups as phases are left (six from the waiting phase), whatever happens in between.
  pub run-finished :
      (acts : List Action) (s : System)
      → Ending s
      → distance s.machine.pc ≤ wake_count acts
      → (run format s acts).machine.pc ≡ finished
  unfolding run
  run-finished [] s h d = ground arith
  run-finished (a ∷ acts) s h d =
      run-finished acts (act format a s) (act-Ending a s h) (distance-act a acts s h d)
