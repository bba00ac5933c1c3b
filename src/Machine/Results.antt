-- ===== src/Machine/Results.antt =====
-- The colours that the game loop announces are drawn ones.
use game_production.Common.{
  ℕ, String, ◌≡◌, refl, Bool, true, false, Option, none, some, List, [], ◌∷◌, All, arith,
}
use game_production.Clock.{Time}
use game_production.Proto.{unspecified, result}
use game_production.Round.{Round, new_round, start_betting, draw, show_result}
use game_production.Machine.Defs.{
  EventData, reward, GameEvent, Pc, at_top, in_wait, in_betting, in_drawing, in_result, in_rest,
  finished, new_state_machine, register_event_handler, emit_event, stop, segment, draw_result,
}
use game_production.Machine.System.{
  System, Action, wakes, cancels, stops, registers, takes, start, act, run,
}

-- One of the four colours.
abbrev pub is_color : EventData → Bool
is_color (reward unspecified) = false
is_color (reward _) = true
is_color _ = false

-- A RESULT event carries one of the four colours.
abbrev pub CarriesColor : GameEvent → Type 0
CarriesColor e = e.kind ≡ result → is_color e.payload ≡ true

abbrev Drawn : Pc → Option Round → Type 0
Drawn in_drawing (some r) = is_color (reward r.outcome) ≡ true
Drawn in_wait none = ⊥
Drawn in_betting none = ⊥
Drawn in_drawing none = ⊥
Drawn _ _ = Unit

record Inv (s : System) : Type 0 where
  announced : All CarriesColor s.log
  drawn : Drawn s.machine.pc s.machine.current_round

draw_result-is_color : (n : ℕ) → is_color (reward (draw_result n)) ≡ true
unfolding draw_result
draw_result-is_color n = ground arith

module _ (format : Time → String) where
  wakes-Inv :
      (p : Pc) (now later : Time) (pick : ℕ) (s : System)
      → s.machine.pc ≡ p
      → Inv s
      → Inv (act format (wakes now later pick) s)
  unfolding act segment emit_event new_round start_betting draw show_result
  wakes-Inv at_top now later pick s e v = ground arith
  wakes-Inv in_wait now later pick s e v = ground arith
  wakes-Inv in_betting now later pick s e v = ground (arith, draw_result-is_color pick)
  wakes-Inv in_drawing now later pick s e v = ground arith
  wakes-Inv in_result now later pick s e v = ground arith
  wakes-Inv in_rest now later pick s e v = ground arith
  wakes-Inv finished now later pick s e v = ground arith

  act-Inv : (a : Action) (s : System) → Inv s → Inv (act format a s)
  unfolding act stop register_event_handler
  act-Inv (wakes now later pick) s v = wakes-Inv s.machine.pc now later pick s refl v
  act-Inv cancels s v = ground arith
  act-Inv stops s v = ground arith
  act-Inv (registers h) s v = ground arith
  act-Inv takes s v = ground arith

  run-Inv : (s : System) (acts : List Action) → Inv s → Inv (run format s acts)
  unfolding run
  run-Inv s [] v = v
  run-Inv s (a ∷ acts) v = run-Inv (act format a s) acts (act-Inv a s v)

  start-Inv : Inv start
  unfolding start new_state_machine
  start-Inv = ground arith

  -- Whatever the order of wake-ups, cancellations, stops, registrations and takes, and whatever the
  -- random numbers, each RESULT that a new state machine announces carries a reward, and that reward
  -- is red, green, blue or yellow.
  pub announced_results_drawn : (acts : List Action) → All CarriesColor (run format start acts).log
  announced_results_drawn acts = (run-Inv start acts start-Inv).announced
