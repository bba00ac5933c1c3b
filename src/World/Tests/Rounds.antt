-- ===== src/World/Tests/Rounds.antt =====
-- A round of two bets that is played and settled.
use game_production.Common.{
  ℕ, ◌*◌, nat_key, string_key, refl, ◌∷◌, [], arith, lookup, insert, delete,
}
use game_production.Clock.{second}
use game_production.Proto.{red, green}
use game_production.MemoryRepo.{save_bet, new_store, get_user_bet, find_bet}
use game_production.MemoryRepo.Stakes.{stake}
use game_production.Wallet.{get_balance, place_bet as wallet_place_bet}
use game_production.Machine.{get_current_round}
use game_production.Gms.{local_current_round, local_record_bet}
use game_production.Gs.{is_valid_color, place_bet, settle_round}
use game_production.World.{World, local, services}
use game_production.World.Tests.{float, out, world_at, machine}
use game_production.World.Ledger.{Ledger, Wager, all_wagered, paid_out, Refines}
use game_production.World.Plays.{Plays, stops, bets, goes_on, played_round-Refines}

abbrev start : World ℕ
unfolding new_store
start = record (world_at (5 * second)) { store = new_store }

abbrev red_bet : Wager
red_bet = record { user = 7; color = red; amount = 20 }

abbrev green_bet : Wager
green_bet = record { user = 8; color = green; amount = 50 }

abbrev after_red : World ℕ
after_red = (place_bet float (services float out local) 7 red 20 start).1

-- A second later.
abbrev later : World ℕ
later = record after_red { clock = 6 * second }

abbrev after_green : World ℕ
after_green = (place_bet float (services float out local) 8 green 50 later).1

two_bets-Plays : Plays float out local "R1" start (red_bet ∷ green_bet ∷ []) after_green
unfolding place_bet local_current_round local_record_bet get_current_round lookup world_at machine
    wallet_place_bet start new_store is_valid_color get_user_bet save_bet find_bet insert delete
two_bets-Plays = bets {w' = after_red} red_bet 0 refl (omega arith) refl (
    goes_on {w' = later} refl refl
      (bets {w' = after_green} green_bet 1 refl (omega arith) refl stops))

abbrev ledger : Ledger
ledger = record { balance = λ v. get_balance v start.wallet; stakes = λ v d. 0 }

played_round-Refines_example :
    Refines "R1"
      (settle_round float (services float out local) 2 "R1" red after_green).1
      (paid_out red (all_wagered (red_bet ∷ green_bet ∷ []) ledger))
unfolding get_balance lookup world_at start all_wagered stake get_user_bet
played_round-Refines_example =
    played_round-Refines float out local "R1" 0 red start after_green (red_bet ∷ green_bet ∷ [])
      ledger refl refl (record { same_balance = λ v. refl; same_stakes = λ v d. refl })
      (λ v. ground arith) (λ old new. refl) two_bets-Plays (λ v. ground arith)
