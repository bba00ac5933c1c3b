-- ===== src/World/Tests.antt =====
-- A small game server that takes bets and settles them.
mod Rounds
use game_production.Common.{
  err, ℕ, string_key, nat_key, ◌≡◌, refl, ◌↔◌, ◌≢◌, ◌+◌, ◌%◌, ◌*◌, ◌⊎◌, true, false, [], ◌∷◌, arith,
  some, two64, add64, sub64, ok, lookup, wrapped, failure,
}
use game_production.Clock.{second}
use game_production.Proto.{Reward, unspecified, red, green, blue, betting}
use game_production.Round.{Round}
use game_production.Float.{Float64}
use game_production.Bets.{Bet, BetPtr}
use game_production.MemoryRepo.{Store, get_user_bet}
use game_production.MemoryRepo.Stakes.{stake}
use game_production.MemoryRepo.Once.{won}
use game_production.Wallet.{get_balance, place_bet as wallet_place_bet}
use game_production.Machine.{
  StateMachine, new_state_machine, in_betting, can_accept, get_current_round,
}
use game_production.Gms.{no_counts, local_record_bet, local_current_round}
use game_production.Gs.{place_bet, settle_round, is_valid_color, calculate_win}
use game_production.World.{World, Outside, local, grpc, services}
use game_production.World.Outcomes.{round_of, accepting}
use game_production.World.Betting.{
  place_bet_books, place_bet_ok_iff, place_bet_refused, place_bet-grpc_ok,
}
use game_production.World.Settling.{bets_at}
use game_production.World.Batches.{advanced}
use game_production.World.Rounds.{popped, waiting, closed, settle_round-closed}
use game_production.World.Refusals.{settle_round-refused}
use game_production.World.Payout.{settle_round-balances}

abbrev float : Float64 ℕ
float = record { of_int64 = λ n. n; to_int64 = λ x. x; add = add64; exact = λ n small. refl }

abbrev out : Outside ℕ
out = record { insert_orders = λ old new. ok tt; id_text = λ n. "bet" }

abbrev open_round : Round
open_round = record {
  round_id = "R1";
  state = betting;
  outcome = unspecified;
  start_time = 0;
  betting_end = 12 * second;
  total_bets = 0;
  left_time = 0;
}

abbrev machine : StateMachine
unfolding new_state_machine
machine = record new_state_machine {
  current_round = some open_round;
  phase_end_time = 12 * second;
  pc = in_betting;
}

abbrev bet_of : ℕ → Reward → ℕ → Bet
bet_of user color amount = record {
  bet_id = "bet";
  round_id = "R1";
  user_id = user;
  color = color;
  amount = amount;
  time = second;
}

-- User 7 has 100 on red, user 8 has 50 on green.
abbrev store : Store
store = record {
  heap = bet_of 7 red 100 ∷ bet_of 8 green 50 ∷ [];
  bets = ("R1", 0 ∷ 1 ∷ []) ∷ [];
  settlement_queue = ("R1", 0 ∷ 1 ∷ []) ∷ [];
}

-- The world at a time.
abbrev world_at : ℕ → World ℕ
unfolding no_counts
world_at now = record {
  store = store;
  wallet = record { balances = (7, 900) ∷ (8, 500) ∷ [] };
  gms = record { machine = machine; counts = no_counts };
  orders = [];
  sent = [];
  clock = now;
  next_id = 0;
}

abbrev open_world : World ℕ
open_world = world_at (5 * second)

abbrev late_world : World ℕ
late_world = world_at (13 * second)

abbrev after_bet : World ℕ
after_bet = (place_bet float (services float out local) 7 red 20 open_world).1

place_bet_books_example :
    (stake "R1" 7 red after_bet.store ≡ add64 (stake "R1" 7 red store) 20)
    × (get_balance 7 after_bet.wallet ≡ sub64 (get_balance 7 open_world.wallet) 20)
unfolding place_bet local_current_round local_record_bet get_current_round lookup world_at machine
    wallet_place_bet get_user_bet
place_bet_books_example =
    place_bet_books float out local 7 red 20 open_world 0 after_bet 7 red (omega arith)
      (ground arith, (ground arith, tt)) refl

place_bet_ok_iff_example :
    ((pw : BetPtr × World ℕ) × (place_bet float (services float out local) 8 blue 5 open_world
        ≡ (ok pw.0, pw.1)))
    ↔ ((is_valid_color blue ≡ true)
        × (round_of float out open_world ≢ "")
        × (accepting float out open_world ≡ true))
place_bet_ok_iff_example = place_bet_ok_iff float out 8 blue 5 open_world

abbrev after_late_bet : World ℕ
after_late_bet = (place_bet float (services float out local) 7 red 20 late_world).1

place_bet_refused_example :
    (after_late_bet ≡ late_world)
    ⊎ ((accepting float out late_world ≡ false)
        × (after_late_bet ≡ record late_world {
          wallet = (wallet_place_bet 7 20 (round_of float out late_world) late_world.wallet).1;
        }))
unfolding place_bet local_current_round local_record_bet get_current_round can_accept world_at
    machine wallet_place_bet
place_bet_refused_example =
    place_bet_refused float out 7 red 20 late_world
      (wrapped "failed to record bet in GMS" (failure "betting not allowed in current state"))
      after_late_bet refl

place_bet-grpc_ok_example :
    (pw : BetPtr × World ℕ) × (place_bet float (services float out grpc) 7 red 20 late_world
      ≡ (ok pw.0, pw.1))
    × (stake "R1" 7 red pw.1.store ≡ add64 (stake "R1" 7 red store) 20)
    × (get_balance 7 pw.1.wallet ≡ sub64 (get_balance 7 late_world.wallet) 20)
unfolding is_valid_color get_current_round world_at machine lookup
place_bet-grpc_ok_example =
    place_bet-grpc_ok float out 7 red 20 late_world 7 red refl (omega arith)
      (ground arith, (ground arith, tt))

settle_round-closed_example :
    settle_round float (services float out local) 2 "R1" red late_world ≡ (
      ok (some (advanced float out local "R1" red (13 * second) store.heap [] (0 ∷ 1 ∷ []) [] 0 0)),
      closed float out local "R1" red late_world,
    )
unfolding calculate_win lookup world_at
settle_round-closed_example =
    settle_round-closed float out local 0 "R1" red late_world (λ old new. refl)
      (ground arith, (ground arith, tt))

settle_round-balances_example :
    get_balance 7 (settle_round float (services float out local) 2 "R1" red late_world).1.wallet
    ≡ (900 + won 7 red (bets_at float out local store.heap (0 ∷ 1 ∷ []))) % two64
unfolding calculate_win get_balance lookup world_at
settle_round-balances_example =
    settle_round-balances float out local 0 "R1" red late_world 7 (λ old new. refl)
      (ground arith, (ground arith, tt)) (ground arith, (ground arith, tt)) (omega arith)

-- A database that is down.
abbrev down : Outside ℕ
down = record { insert_orders = λ old new. err (failure "no connection"); id_text = λ n. "bet" }

settle_round-refused_example :
    (settle_round float (services float down local) 1 "R1" red late_world ≡ (
      err (wrapped "failed to persist bet orders batch" (failure "no connection")),
      popped float down local "R1" late_world,
    ))
    × (waiting float down local "R1" (popped float down local "R1" late_world) ≡ [])
unfolding lookup world_at
settle_round-refused_example =
    settle_round-refused float down local (failure "no connection") 0 "R1" red late_world 0 (1 ∷ [])
      (λ old new. refl) refl
