-- ===== src/Wallet.antt =====
-- The wallet: internal/modules/wallet/mock.go. Amounts and balances are int64 patterns.
pub mod Balances
mod Tests
use game_production.Common.{
  ℕ, nat_key, String, concat, or_else, Dict, lookup, insert, add64, sub64, Exec, ok, [],
}

pub record Wallet : Type 0 where
  pub balances : Dict ℕ ℕ

unfoldable pub new_wallet : Wallet
new_wallet = record { balances = [] }

unfoldable pub set_balance : ℕ → ℕ → Wallet → Wallet
set_balance user balance s = record { balances = insert user balance s.balances }

-- A user with no entry has the default balance for tests.
unfoldable pub get_balance : ℕ → Wallet → ℕ
get_balance user s = or_else (lookup user s.balances) 1000000

unfoldable pub deduct_balance : ℕ → ℕ → String → Exec Wallet ℕ
deduct_balance user amount reason s =
    let balance = or_else (lookup user s.balances) 1000000 in
    let rest = sub64 balance amount in (ok rest, record { balances = insert user rest s.balances })

unfoldable pub add_balance : ℕ → ℕ → String → Exec Wallet ℕ
add_balance user amount reason s =
    let balance = or_else (lookup user s.balances) 0 in
    let total = add64 balance amount in
    (ok total, record { balances = insert user total s.balances })

unfoldable pub place_bet : ℕ → ℕ → String → Exec Wallet ℕ
unfolding deduct_balance
place_bet user amount round s = deduct_balance user amount (concat "bet:" round) s
