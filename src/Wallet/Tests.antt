-- ===== src/Wallet/Tests.antt =====
-- A wallet with one known user.
use game_production.Common.{nat_key, ◌≡◌, refl, ok, add64, sub64, arith, [], ◌∷◌, lookup}
use game_production.Wallet.{Wallet, get_balance, add_balance, place_bet}
use game_production.Wallet.Balances.{
  get_balance-place_bet, get_balance-add_balance, add_balance_unknown,
}

abbrev one_user : Wallet
one_user = record { balances = (7, 900) ∷ [] }

get_balance-place_bet_test :
    ((place_bet 7 20 "R1" one_user).0 ≡ ok (sub64 (get_balance 7 one_user) 20))
    × (get_balance 7 (place_bet 7 20 "R1" one_user).1 ≡ sub64 (get_balance 7 one_user) 20)
get_balance-place_bet_test = get_balance-place_bet 7 7 20 "R1" one_user

get_balance-add_balance_test :
    get_balance 7 (add_balance 7 40 "win:R1" one_user).1 ≡ add64 (get_balance 7 one_user) 40
unfolding lookup
get_balance-add_balance_test =
    get_balance-add_balance 7 7 40 "win:R1" one_user (λ e. ground (arith, e))

add_balance_unknown_test :
    (get_balance 8 one_user ≡ 1000000) × (get_balance 8 (add_balance 8 40 "win:R1" one_user).1 ≡ 40)
unfolding lookup
add_balance_unknown_test = add_balance_unknown 8 40 "win:R1" one_user refl (omega arith)
