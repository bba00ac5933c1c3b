-- ===== src/MemoryRepo/Stakes.antt =====
-- The memory repository read as a book of stakes: what each user has on each colour of a round.
use game_production.Common.{
  nat_key, ℕ, suc, zero, ◌<◌, ◌≤◌, ◌++◌, ◌∷◌, [], List, String, string_key, ◌==◌, ◌≡◌, refl, ap,
  true, Option, none, some, get_elem?, set, length, length-append, All, All-append, ◌+◌, insert,
  Dict, lookup-insert, same_self, add64, ◌&&◌, Bool-cases, inl, inr, Option-cases, if◌then◌else◌,
  arith,
}
use game_production.Proto.{Reward, same_reward, same_reward_iff}
use game_production.Bets.{Bet, BetPtr, Heap, deref}
use game_production.MemoryRepo.{
  Store, entries, is_bet_of, find_bet, get_user_bet, save_bet, update_bet_amount,
}

unfoldable pub stake_in : Heap → Option BetPtr → ℕ
stake_in h none = 0
stake_in h (some p) = (deref h p).amount

-- The stake of a user on a colour, 0 if there is no bet.
unfoldable pub stake : String → ℕ → Reward → Store → ℕ
unfolding stake_in
stake round user color s = stake_in s.heap (get_user_bet round user color s)

-- Every pointer filed under the round points into the heap.
abbrev pub InHeap : String → Store → Type 0
InHeap round s = All (λ p. p < length s.heap) (entries round s.bets)

pub get_elem?-append_left :
    (h : Heap) (g : Heap) (p : ℕ) → p < length h → get_elem? (h ++ g) p ≡ get_elem? h p
get_elem?-append_left [] g p l = absurd (omega arith)
get_elem?-append_left (b ∷ h) g zero l = refl
get_elem?-append_left (b ∷ h) g (suc p) l = get_elem?-append_left h g p (omega arith)

pub get_elem?-append_length : (h : Heap) (b : Bet) → get_elem? (h ++ b ∷ []) (length h) ≡ some b
get_elem?-append_length [] b = refl
get_elem?-append_length (x ∷ h) b = get_elem?-append_length h b

-- Appending a pointer that is not the one sought, or the first that is.
pub find_bet-append :
    (u : ℕ) (c : Reward) (h : Heap) (b : Bet) (ps : List BetPtr)
    → All (λ p. p < length h) ps
    → find_bet u c (h ++ b ∷ []) (ps ++ length h ∷ []) ≡ elim (find_bet u c h ps) [
      | some p ↦ some p
      | none ↦ if is_bet_of u c b then some (length h) else none
    ]
unfolding find_bet
find_bet-append u c h b [] v = rw (get_elem?-append_length h b)
find_bet-append u c h b (p ∷ ps) v =
    rw (get_elem?-append_left h (b ∷ []) p v.0) (ground (arith, find_bet-append u c h b ps v.1))

pub deref-set :
    (h : Heap) (p q : BetPtr) (b : Bet)
    → p < length h
    → deref (set h p b) q ≡ (if p == q then b else deref h q)
deref-set [] p q b l = absurd (omega arith)
deref-set (x ∷ h) zero zero b l = refl
deref-set (x ∷ h) zero (suc q) b l = ground arith
deref-set (x ∷ h) (suc p) zero b l = ground arith
deref-set (x ∷ h) (suc p) (suc q) b l = ground (arith, deref-set h p q b (omega arith))

-- A write that keeps the bet's user and colour does not change what is found.
pub find_bet-set :
    (u : ℕ) (c : Reward) (h : Heap) (p : BetPtr) (b : Bet) (ps : List BetPtr)
    → p < length h
    → b.user_id ≡ (deref h p).user_id
    → b.color ≡ (deref h p).color
    → find_bet u c (set h p b) ps ≡ find_bet u c h ps
unfolding find_bet
find_bet-set u c h p b [] l eu ec = refl
find_bet-set u c h p b (q ∷ ps) l eu ec =
    rw (deref-set h p q b l) (ground (arith, find_bet-set u c h p b ps l eu ec))

-- What is found is the user's bet on the colour, and one of the pointers.
pub find_bet-found :
    (u : ℕ) (c : Reward) (n : ℕ) (h : Heap) (ps : List BetPtr) (p : BetPtr)
    → All (λ q. q < n) ps
    → find_bet u c h ps ≡ some p
    → (is_bet_of u c (deref h p) ≡ true) × (p < n)
unfolding find_bet
find_bet-found u c n h [] p v e = cc
find_bet-found u c n h (q ∷ ps) p v e = ground (arith, find_bet-found u c n h ps p v.1)

-- Where the round's pointers lie in the heap, raising a bet that was found raises this stake, modulo 2 ^ 64, and no other of the round.
pub stake-update_bet_amount :
    (round : String) (u v : ℕ) (c d : Reward) (more : ℕ) (s : Store) (p : BetPtr)
    → InHeap round s
    → get_user_bet round u c s ≡ some p
    → stake round v d (update_bet_amount p more s)
      ≡ (if v == u && same_reward d c then add64 (stake round u c s) more else stake round v d s)
unfolding stake get_user_bet update_bet_amount
stake-update_bet_amount round u v c d more s p h e =
    let ps = entries round s.bets in
    let b = deref s.heap p in
    let b' : Bet = record b { amount = add64 b.amount more } in
    let (mine, valid) = find_bet-found u c (length s.heap) s.heap ps p h e in
    rw (find_bet-set v d s.heap p b' ps valid refl refl)
      (elim (Option-cases (find_bet v d s.heap ps)) [
        | inl none_there ↦ rw none_there (ground (arith, same_reward_iff d c))
        | inr (q, found) ↦ rw found (
            ground (
              arith,
              same_reward_iff d c,
              deref-set s.heap p q b' valid,
              find_bet-found v d (length s.heap) s.heap ps q h found,
            ))
      ])

pub entries-insert :
    (r : String) (l : List BetPtr) (m : Dict String (List BetPtr)) → entries r (insert r l m) ≡ l
entries-insert r l m = rw (lookup-insert r r l m, same_self r)

-- A new bet's place in the heap.
abbrev pub add_to_heap : Bet → Store → Store
add_to_heap b s = record s { heap = s.heap ++ b ∷ [] }

-- Where the round's pointers lie in the heap, filing a new bet of a user who has none on the colour
-- gives this stake, and changes no other of the
-- round.
pub stake-save_bet :
    (v : ℕ) (d : Reward) (b : Bet) (s : Store)
    → InHeap b.round_id s
    → get_user_bet b.round_id b.user_id b.color s ≡ none
    → stake b.round_id v d (save_bet (length s.heap) (add_to_heap b s))
      ≡ (if v == b.user_id && same_reward d b.color then b.amount else stake b.round_id v d s)
unfolding stake get_user_bet save_bet
stake-save_bet v d b s h e =
    let ps = entries b.round_id s.bets in
    rw
      (
        get_elem?-append_length s.heap b,
        entries-insert b.round_id (ps ++ length s.heap ∷ []) s.bets,
        find_bet-append v d s.heap b ps h,
      )
      (elim (Option-cases (find_bet v d s.heap ps)) [
        | inl none_there ↦ rw none_there (
            ground (
              arith,
              same_reward_iff d b.color,
              same_reward_iff b.color d,
              get_elem?-append_length s.heap b,
            ))
        | inr (q, found) ↦ rw found (
            ground (
              arith,
              same_reward_iff d b.color,
              get_elem?-append_left s.heap (b ∷ []) q,
              find_bet-found v d (length s.heap) s.heap ps q h found,
            ))
      ])

All-lt_mono : (n m : ℕ) (ps : List BetPtr) → n ≤ m → All (λ p. p < n) ps → All (λ p. p < m) ps
All-lt_mono n m [] l h = tt
All-lt_mono n m (p ∷ ps) l h = (omega arith, All-lt_mono n m ps l h.1)

length-set : (h : Heap) (p : BetPtr) (b : Bet) → length (set h p b) ≡ length h
length-set [] p b = refl
length-set (x ∷ h) zero b = refl
length-set (x ∷ h) (suc p) b = ap suc (length-set h p b)

-- Filing keeps the pointers of every round in the heap.
pub save_bet-InHeap :
    (round : String) (b : Bet) (s : Store)
    → InHeap round s
    → InHeap b.round_id s
    → InHeap round (save_bet (length s.heap) (add_to_heap b s))
unfolding save_bet
save_bet-InHeap round b s h k =
    let n = length s.heap in
    let ps = entries b.round_id s.bets in
    rw
      (
        get_elem?-append_length s.heap b,
        lookup-insert b.round_id round (ps ++ n ∷ []) s.bets,
        length-append s.heap (b ∷ []),
      )
      (elim (Bool-cases (b.round_id == round)) [
        | inl same ↦ rw same (
            All-append (λ p. p < n + 1) ps (n ∷ []) (All-lt_mono n (n + 1) ps (omega arith) k)
              (omega arith))
        | inr other ↦ rw other (All-lt_mono n (n + 1) (entries round s.bets) (omega arith) h)
      ])

pub update_bet_amount-InHeap :
    (round : String) (p : BetPtr) (more : ℕ) (s : Store)
    → InHeap round s
    → InHeap round (update_bet_amount p more s)
unfolding update_bet_amount
update_bet_amount-InHeap round p more s h =
    let b = deref s.heap p in rw (length-set s.heap p (record b { amount = add64 b.amount more })) h

pub stake-none :
    (round : String) (user : ℕ) (color : Reward) (s : Store)
    → get_user_bet round user color s ≡ none
    → stake round user color s ≡ 0
unfolding stake
stake-none round user color s e = rw e
