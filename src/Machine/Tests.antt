-- ===== src/Machine/Tests.antt =====
-- Runs of the state machine.
mod Shutdown
use game_production.Common.{
  ℕ, ◌*◌, inl, String, ◌≡◌, refl, ◌↔◌, ◌<◌, true, List, [], ◌∷◌, All, arith, map,
}
use game_production.Clock.{Time, second}
use game_production.Proto.{round_started, betting, drawing, result, round_ended, stopped}
use game_production.Machine.Defs.{
  GameEvent, in_betting, finished, can_accept, new_state_machine, segment, emit_event, stop,
  register_event_handler,
}
use game_production.Machine.System.{System, Action, wakes, stops, registers, takes, start, act, run}
use game_production.Machine.Phases.{
  InCycle, RoundOver, EndsStopped, announcements-InCycle, accepts_iff_betting,
  finished_whole_rounds,
}
use game_production.Machine.Stopping.{run-finished}
use game_production.Machine.Results.{CarriesColor, announced_results_drawn}

abbrev label : Time → String
label _ = "20240101000000"

-- A wake-up at a second.
abbrev at_second : ℕ → Action
at_second n = wakes (n * second) (n * second) 6

-- A round up to its betting phase.
abbrev to_betting : List Action
to_betting = registers 1 ∷ at_second 0 ∷ at_second 2 ∷ []

-- A whole round with a stop in it.
abbrev whole_round : List Action
whole_round =
    registers 1
    ∷ at_second 0
    ∷ at_second 2
    ∷ stops
    ∷ takes
    ∷ at_second 12
    ∷ at_second 14
    ∷ at_second 19
    ∷ at_second 22
    ∷ at_second 22
    ∷ []

abbrev after_stop : List Action
after_stop =
    takes
    ∷ at_second 2
    ∷ at_second 12
    ∷ registers 2
    ∷ at_second 14
    ∷ at_second 19
    ∷ at_second 22
    ∷ at_second 22
    ∷ []

whole_round_events :
    map (λ (e : GameEvent). e.kind) (run label start whole_round).log
    ≡ stopped ∷ round_ended ∷ result ∷ drawing ∷ betting ∷ round_started ∷ []
unfolding run act segment start new_state_machine emit_event stop register_event_handler
whole_round_events = refl

announcements-InCycle_example : InCycle (run label start whole_round).log
announcements-InCycle_example = announcements-InCycle label whole_round

announced_results_drawn_example : All CarriesColor (run label start whole_round).log
announced_results_drawn_example = announced_results_drawn label whole_round

accepts_iff_betting_example :
    (can_accept (5 * second) (run label start to_betting).machine ≡ true) ↔ (
      ((run label start to_betting).machine.pc ≡ in_betting)
      × (5 * second < (run label start to_betting).machine.phase_end_time))
unfolding run act segment start new_state_machine emit_event register_event_handler
accepts_iff_betting_example = accepts_iff_betting label to_betting (5 * second) refl

finished_whole_rounds_example :
    RoundOver (run label start whole_round).machine.current_round
    × EndsStopped (run label start whole_round).log
unfolding run act segment start new_state_machine emit_event stop register_event_handler
finished_whole_rounds_example = finished_whole_rounds label whole_round refl refl

-- A machine in the waiting phase that was told to stop.
abbrev stopping_system : System
stopping_system = run label start (at_second 0 ∷ stops ∷ [])

run-finished_example : (run label stopping_system after_stop).machine.pc ≡ finished
unfolding run act segment start new_state_machine emit_event stop register_event_handler
run-finished_example = run-finished label after_stop stopping_system (inl refl) (omega arith)
