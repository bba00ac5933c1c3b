-- ===== src/MemoryRepo/Tests.antt =====
-- A repository with two bets in one round.
use game_production.Common.{ℕ, nat_key, string_key, ◌≡◌, refl, add64, arith, [], ◌∷◌, lookup}
use game_production.Proto.{Reward, red, green, blue}
use game_production.Bets.{Bet}
use game_production.MemoryRepo.{Store, get_user_bet, save_bet, update_bet_amount}
use game_production.MemoryRepo.Stakes.{stake, add_to_heap, stake-update_bet_amount, stake-save_bet}

abbrev bet_of : ℕ → Reward → ℕ → Bet
bet_of user color amount = record {
  bet_id = "bet";
  round_id = "R1";
  user_id = user;
  color = color;
  amount = amount;
  time = 0;
}

abbrev two_bets : Store
two_bets = record {
  heap = bet_of 7 red 100 ∷ bet_of 8 green 50 ∷ [];
  bets = ("R1", 0 ∷ 1 ∷ []) ∷ [];
  settlement_queue = ("R1", 0 ∷ 1 ∷ []) ∷ [];
}

stake-update_bet_amount_test :
    stake "R1" 8 green (update_bet_amount 1 5 two_bets) ≡ add64 (stake "R1" 8 green two_bets) 5
unfolding lookup get_user_bet
stake-update_bet_amount_test =
    stake-update_bet_amount "R1" 8 8 green green 5 two_bets 1 (omega arith, (omega arith, tt)) refl

stake-save_bet_test : stake "R1" 8 blue (save_bet 2 (add_to_heap (bet_of 8 blue 30) two_bets)) ≡ 30
unfolding lookup get_user_bet
stake-save_bet_test =
    stake-save_bet 8 blue (bet_of 8 blue 30) two_bets (omega arith, (omega arith, tt)) refl
