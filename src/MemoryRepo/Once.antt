-- ===== src/MemoryRepo/Once.antt =====
-- The memory repository keeps at most one bet for each user and colour of a round, and what follows for
-- the bets that are settled.
use game_production.Common.{
  nat_key, ℕ, ◌<◌, ◌≤◌, ◌+◌, ◌++◌, ◌∷◌, [], List, string_key, ◌≡◌, refl, none, set, length, All,
  mul64, ◌&&◌, inl, inr, ◌⊎◌, if◌then◌else◌, arith, map, eqb,
}
use game_production.Proto.{Reward, same_reward, same_reward_iff}
use game_production.Bets.{Bet, BetPtr, Heap, deref}
use game_production.MemoryRepo.{find_bet}
use game_production.MemoryRepo.Stakes.{
  stake_in, find_bet-append, find_bet-set, deref-set, get_elem?-append_left,
}

-- No two of the pointers are to bets of one user on one colour.
abbrev pub Once : Heap → List BetPtr → Type 0
Once h [] = Unit
Once h (p ∷ ps) = (find_bet (deref h p).user_id (deref h p).color h ps ≡ none) × Once h ps

pub append-Once :
    (h : Heap) (b : Bet) (ps : List BetPtr)
    → All (λ p. p < length h) ps
    → find_bet b.user_id b.color h ps ≡ none
    → Once h ps
    → Once (h ++ b ∷ []) (ps ++ length h ∷ [])
unfolding find_bet
append-Once h b [] v new once = (refl, tt)
append-Once h b (p ∷ ps) v new once = (
  rw (get_elem?-append_left h (b ∷ []) p v.0) (
      ground (
        arith,
        find_bet-append (deref h p).user_id (deref h p).color h b ps v.1,
        once.0,
        new,
        same_reward_iff (deref h p).color b.color,
        same_reward_iff b.color (deref h p).color,
      )),
  append-Once h b ps v.1 (ground (arith, new)) once.1,
)

pub set-Once :
    (h : Heap) (p : BetPtr) (b : Bet) (ps : List BetPtr)
    → p < length h
    → b.user_id ≡ (deref h p).user_id
    → b.color ≡ (deref h p).color
    → Once h ps
    → Once (set h p b) ps
set-Once h p b [] l eu ec once = tt
set-Once h p b (q ∷ ps) l eu ec once =
    let same_user : (deref (set h p b) q).user_id ≡ (deref h q).user_id =
      rw (deref-set h p q b l) (ground (arith, eu)) in
    let same_color : (deref (set h p b) q).color ≡ (deref h q).color =
      rw (deref-set h p q b l) (ground (arith, ec)) in
    (
      rw
          (
            same_user,
            same_color,
            find_bet-set (deref h q).user_id (deref h q).color h p b ps l eu ec,
          )
          once.0,
      set-Once h p b ps l eu ec once.1,
    )

-- What a user has won with these bets: twice the stake of each on the winning colour.
abbrev pub won : ℕ → Reward → List Bet → ℕ
won v winning [] = 0
won v winning (b ∷ bs) =
    (if eqb b.user_id v && same_reward b.color winning then mul64 b.amount 2 else 0)
    + won v winning bs

pub won-Once :
    (v : ℕ) (winning : Reward) (h : Heap) (ps : List BetPtr)
    → Once h ps
    → won v winning (map (deref h) ps) ≡ mul64 (stake_in h (find_bet v winning h ps)) 2
unfolding find_bet stake_in
won-Once v winning h [] once = ground arith
won-Once v winning h (p ∷ ps) once =
    ground
      (arith, won-Once v winning h ps once.1, once.0, same_reward_iff (deref h p).color winning)

-- A bound on what each user has on a colour is one on every bet on it.
pub All-stake :
    (n : ℕ) (winning : Reward) (h : Heap) (ps : List BetPtr)
    → Once h ps
    → ((v : ℕ) → mul64 (stake_in h (find_bet v winning h ps)) 2 ≤ n)
    → All
        (λ b. (if same_reward b.color winning then mul64 b.amount 2 else 0) ≤ n)
        (map (deref h) ps)
unfolding find_bet stake_in
All-stake n winning h [] once small = tt
All-stake n winning h (p ∷ ps) once small = (
  ground (arith, small (deref h p).user_id),
  All-stake n winning h ps once.1
      (λ v. ground (arith, small v, once.0, same_reward_iff (deref h p).color winning)),
)

-- What holds of everybody who has a bet holds of the user of each bet.
pub All-bettors :
    (P : ℕ → Type 0) (h : Heap) (ps : List BetPtr)
    → ((v : ℕ) (c : Reward) → (find_bet v c h ps ≡ none) ⊎ P v)
    → All (λ b. P b.user_id) (map (deref h) ps)
unfolding find_bet
All-bettors P h [] has = tt
All-bettors P h (p ∷ ps) has = (
  elim (has (deref h p).user_id (deref h p).color) [
    | inl e ↦ absurd (ground (arith, e, same_reward_iff (deref h p).color (deref h p).color))
    | inr x ↦ x
  ],
  All-bettors P h ps (λ v c. elim (has v c) [ inl e ↦ inl (ground (arith, e)) | inr x ↦ inr x ]),
)
