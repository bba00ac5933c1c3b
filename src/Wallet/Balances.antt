-- ===== src/Wallet/Balances.antt =====
-- What each call of the wallet does to every user's balance.
use game_production.Common.{
  ◌≢◌, nat_key, ℕ, String, ◌≡◌, refl, none, or_else, lookup, lookup-insert, add64, sub64, two64,
  ◌<◌, eqb, ok, arith, if◌then◌else◌,
}
use game_production.Wallet.{Wallet, get_balance, add_balance, place_bet}

-- The user has an entry: somebody set, deducted or added something.
abbrev pub Known : ℕ → Wallet → Type 0
Known u s = lookup u s.balances ≢ none

-- A deduction takes the amount, modulo 2 ^ 64, from that user and from nobody else, also where the
-- balance does not cover it; it never fails and answers the new balance.
pub get_balance-place_bet :
    (u v a : ℕ) (round : String) (s : Wallet)
    → ((place_bet u a round s).0 ≡ ok (sub64 (get_balance u s) a))
      × (get_balance v (place_bet u a round s).1
          ≡ (if eqb u v then sub64 (get_balance u s) a else get_balance v s))
unfolding get_balance place_bet
get_balance-place_bet u v a round s = (
  refl,
  ground (arith, lookup-insert u v (sub64 (or_else (lookup u s.balances) 1000000) a) s.balances),
)

-- To a user with an entry a win adds the amount, modulo 2 ^ 64, and it changes no other balance.
pub get_balance-add_balance :
    (u v a : ℕ) (reason : String) (s : Wallet)
    → Known u s
    → get_balance v (add_balance u a reason s).1
      ≡ (if eqb u v then add64 (get_balance u s) a else get_balance v s)
unfolding get_balance add_balance
get_balance-add_balance u v a reason s k =
    ground (arith, lookup-insert u v (add64 (or_else (lookup u s.balances) 0) a) s.balances)

-- To a user with no entry, whose balance reads 1000000, a win leaves only the amount won.
pub add_balance_unknown :
    (u a : ℕ) (reason : String) (s : Wallet)
    → lookup u s.balances ≡ none
    → a < two64
    → (get_balance u s ≡ 1000000) × (get_balance u (add_balance u a reason s).1 ≡ a)
unfolding get_balance add_balance
add_balance_unknown u a reason s k h =
    ground (arith, lookup-insert u u (add64 (or_else (lookup u s.balances) 0) a) s.balances)

-- A win leaves every entry there.
pub add_balance-Known :
    (u v a : ℕ) (reason : String) (s : Wallet) → Known v s → Known v (add_balance u a reason s).1
unfolding add_balance
add_balance-Known u v a reason s k =
    let total = add64 (or_else (lookup u s.balances) 0) a in
    rw (lookup-insert u v total s.balances) (ground arith)
