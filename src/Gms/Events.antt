-- ===== src/Gms/Events.antt =====
-- What the GMS does with the events that its state machine emits: handleGameEvent of
-- internal/modules/color_game/gms/usecase/gms_uc.go behind the handlers of the state machine.
use game_production.Common.{
  String, ◌≡◌, ◌&&◌, some, List, [], ◌∷◌, All, arith, Option-cases, inl, inr, if◌then◌else◌,
}
use game_production.Clock.{Time}
use game_production.Float.{Float64}
use game_production.Proto.{Reward, unspecified, result, same_state}
use game_production.Machine.{EventData, reward, GameEvent}
use game_production.Machine.Results.{CarriesColor, announced_results_drawn}
use game_production.Machine.System.{Action, start, run}
use game_production.Gms.Defs.{Counts, Call, settles, Wiring, handle_game_event}

-- The rounds, with their colours, that the game servers are asked to settle.
abbrev pub asked : {F : Type 0} → List (Call F) → List (String × Reward)
asked [] = []
asked (settles round color ∷ calls) = (round, color) ∷ asked calls
asked (_ ∷ calls) = asked calls

abbrev pub color_of : EventData → Reward
color_of (reward c) = c
color_of _ = unspecified

-- The one settlement that a RESULT asks for.
abbrev pub to_settle : Wiring → GameEvent → List (String × Reward)
to_settle w e =
    if w.has_gs && same_state e.kind result then (e.round_id, color_of e.payload) ∷ [] else []

module _ {F : Type 0} (float : Float64 F) (w : Wiring) (now : Time) (c : Counts F) where
  -- The handler returns, and what it asks to be settled.
  abbrev pub Answers : GameEvent → Type 0
  Answers e =
      (calls : List (Call F)) × (handle_game_event float w now e c ≡ some calls)
      × (asked calls ≡ to_settle w e)

  carried-Answers : (e : GameEvent) → CarriesColor e → Answers e
  unfolding handle_game_event
  carried-Answers e h = elim (Option-cases (handle_game_event float w now e c)) [
    | inl panics ↦ absurd (ground (arith, h))
    | inr (calls, answer) ↦ (calls, answer, ground (arith, h))
  ]

  All-Answers : (log : List GameEvent) → All CarriesColor log → All Answers log
  All-Answers [] h = tt
  All-Answers (e ∷ log) h = (carried-Answers e h.0, All-Answers log h.1)

  -- However the goroutines around the state machine are interleaved and whatever of gateway, round
  -- table and game servers is wired, the handler never panics on an event that a new state machine
  -- emits, and it asks the game servers to settle exactly if the event is a RESULT and they are wired:
  -- once, for the event's round with the colour that the event carries.
  pub emitted_events_answered :
      (format : Time → String) (acts : List Action) → All Answers (run format start acts).log
  emitted_events_answered format acts = All-Answers _ (announced_results_drawn format acts)
