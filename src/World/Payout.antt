-- ===== src/World/Payout.antt =====
-- What a settlement does to the balances.
use game_production.Common.{
  ℕ, suc, ◌+◌, ◌%◌, ◌<◌, ◌∷◌, [], List, String, nat_key, ◌≡◌, arith, All, two64, eqb, concat,
  if◌then◌else◌, is_positive, Bool-cases, inl, inr,
}
use game_production.Proto.{Reward}
use game_production.Float.{Float64}
use game_production.Bets.{Bet}
use game_production.MemoryRepo.Once.{won}
use game_production.Wallet.{Wallet, get_balance}
use game_production.Wallet.Balances.{Known, get_balance-add_balance, add_balance-Known}
use game_production.Gs.{calculate_win, settle_round}
use game_production.World.{World, Outside, Deployment, services}
use game_production.World.Settling.{Exact, paid, all_paid, TakesAll, bets_at}
use game_production.World.Rounds.{waiting, settle_round-closed}

-- Every bettor has an entry in the wallet.
abbrev pub AllKnown : List Bet → Wallet → Type 0
AllKnown bs s = All (λ b. Known b.user_id s) bs

get_balance-paid :
    (round : String) (winning : Reward) (b : Bet) (s : Wallet) (v : ℕ)
    → Exact winning b
    → Known b.user_id s
    → get_balance v s < two64
    → get_balance v (paid round winning b s)
      ≡ (get_balance v s + (if eqb b.user_id v then calculate_win b winning else 0)) % two64
unfolding paid
get_balance-paid round winning b s v x k small =
    ground (
      arith,
      get_balance-add_balance b.user_id v (calculate_win b winning) (concat "win:" round) s k,
    )

paid-Known :
    (round : String) (winning : Reward) (b : Bet) (s : Wallet) (v : ℕ)
    → Known v s
    → Known v (paid round winning b s)
unfolding paid
paid-Known round winning b s v k = elim (Bool-cases (is_positive (calculate_win b winning))) [
  | inl win ↦
      rw win (add_balance-Known b.user_id v (calculate_win b winning) (concat "win:" round) s k)
  | inr lost ↦ rw lost k
]

paid-AllKnown :
    (round : String) (winning : Reward) (b : Bet) (bs : List Bet) (s : Wallet)
    → AllKnown bs s
    → AllKnown bs (paid round winning b s)
paid-AllKnown round winning b [] s k = tt
paid-AllKnown round winning b (c ∷ bs) s k =
    (paid-Known round winning b s c.user_id k.0, paid-AllKnown round winning b bs s k.1)

get_balance-all_paid :
    (round : String) (winning : Reward) (bs : List Bet) (s : Wallet) (v : ℕ)
    → All (Exact winning) bs
    → AllKnown bs s
    → get_balance v s < two64
    → get_balance v (all_paid round winning bs s) ≡ (get_balance v s + won v winning bs) % two64
unfolding all_paid calculate_win
get_balance-all_paid round winning [] s v x k small = omega arith
get_balance-all_paid round winning (b ∷ bs) s v x k small =
    let once = get_balance-paid round winning b s v x.0 k.0 small in
    ground (
      arith,
      once,
      get_balance-all_paid round winning bs (paid round winning b s) v x.1
          (paid-AllKnown round winning b bs s k.1) (omega (arith, once)),
    )

module _ {F : Type 0} (float : Float64 F) (out : Outside F) (d : Deployment) where
  -- If the database takes the orders, every win is a whole number that a float64 holds and every
  -- bettor has an entry in the wallet, then a settlement raises the balance of each
  -- user with a balance below 2 ^ 64 by the sum of the
  -- wins of that user's waiting bets (twice the stake on the winning colour), modulo 2 ^ 64.
  pub settle_round-balances :
      (fuel : ℕ) (round : String) (winning : Reward) (w : World F) (v : ℕ)
      → TakesAll float out d
      → All (Exact winning) (bets_at float out d w.store.heap (waiting float out d round w))
      → AllKnown (bets_at float out d w.store.heap (waiting float out d round w)) w.wallet
      → get_balance v w.wallet < two64
      → get_balance v
          (settle_round float (services float out d) (suc (suc fuel)) round winning w).1.wallet
        ≡ (get_balance v w.wallet
            + won v winning (bets_at float out d w.store.heap (waiting float out d round w)))
          % two64
  settle_round-balances fuel round winning w v takes x k small =
      rw (settle_round-closed float out d fuel round winning w takes x)
        (get_balance-all_paid round winning _ w.wallet v x k small)
