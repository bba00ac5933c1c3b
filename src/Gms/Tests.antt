-- ===== src/Gms/Tests.antt =====
-- A GMS that counts two bets and hears a whole round.
use game_production.Common.{
  ℕ, String, string_key, ◌≡◌, ◌≢◌, ◌↔◌, refl, ok, true, some, List, [], ◌∷◌, ◌*◌, All, add64,
}
use game_production.Clock.{Time, second}
use game_production.Float.{Float64}
use game_production.Proto.{unspecified, betting}
use game_production.Round.{Round}
use game_production.Machine.{
  StateMachine, new_state_machine, in_betting, can_accept, get_current_round,
}
use game_production.Machine.System.{Action, wakes, registers, start, run}
use game_production.Gms.Defs.{
  Gms, Wiring, no_counts, increment_bet_count, players_of, count_of, amount_of, is_in,
}
use game_production.Gms.Counting.{
  Request, counted, increment_ok_iff, has_bet, NoRepeats, requests_counted,
}
use game_production.Gms.Events.{Answers, emitted_events_answered}

abbrev float : Float64 ℕ
float = record { of_int64 = λ n. n; to_int64 = λ x. x; add = add64; exact = λ n small. refl }

abbrev open_round : Round
open_round = record {
  round_id = "R1";
  state = betting;
  outcome = unspecified;
  start_time = 0;
  betting_end = 12 * second;
  total_bets = 0;
  left_time = 0;
}

abbrev machine : StateMachine
unfolding new_state_machine
machine = record new_state_machine {
  current_round = some open_round;
  phase_end_time = 12 * second;
  pc = in_betting;
}

abbrev game : Gms ℕ
game = record { machine = machine; counts = no_counts }

abbrev round_name : String
round_name = "R1"

increment_ok_iff_test : ((increment_bet_count float second "R1" 7 20 game).0 ≡ ok tt) ↔ (
    (can_accept second machine ≡ true)
    × (round_name ≢ "")
    × ((get_current_round second machine).round_id ≡ "R1"))
increment_ok_iff_test = increment_ok_iff float second "R1" 7 20 game

request : ℕ → ℕ → Request float
request user amount = record { now = second; round = "R1"; user = user; amount = amount }

abbrev requests : List (Request float × Gms ℕ)
requests = (request 7 20, game) ∷ (request 8 5, game) ∷ (request 7 1, game) ∷ []

requests_counted_example :
    (count_of float "R1" (counted float requests no_counts) ≡ 3)
    × (amount_of float "R1" (counted float requests no_counts) ≡ 26)
    × ((v : ℕ)
        → is_in v (players_of float "R1" (counted float requests no_counts))
          ≡ has_bet float v "R1" requests)
    × NoRepeats float (players_of float "R1" (counted float requests no_counts))
unfolding can_accept get_current_round machine request
requests_counted_example = requests_counted float requests "R1"

abbrev label : Time → String
label _ = "20240101000000"

abbrev whole_round : List Action
whole_round =
    registers 1
    ∷ wakes 0 0 6
    ∷ wakes (2 * second) 0 6
    ∷ wakes (12 * second) 0 6
    ∷ wakes (14 * second) 0 6
    ∷ wakes (19 * second) 0 6
    ∷ []

abbrev all_wired : Wiring
all_wired = record { has_gateway = true; has_repo = true; has_gs = true }

emitted_events_answered_example :
    All (Answers float all_wired second no_counts) (run label start whole_round).log
emitted_events_answered_example =
    emitted_events_answered float all_wired second no_counts label whole_round
