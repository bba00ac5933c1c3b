-- ===== src/RedisRepo/Taken.antt =====
-- What GetBetsForSettlement takes out of the queues in Redis.
use game_production.Common.{
  ℕ, suc, zero, ◌+◌, ◌-◌, ◌%◌, ◌<◌, ◌≤◌, String, string_key, List, [], ◌∷◌, ◌++◌, map, ◌≡◌, ◌≢◌,
  refl, ap, ◌∙◌, Result, ok, err, arith, All, length, ◌⊎◌, inl, inr, false, is_negative, same_self,
  Bool-cases, eqb, eqb_iff,
}
use game_production.Bets.{Bet}
use game_production.RedisRepo.{
  Redis, BetTexts, save_commands, save_bet, shard_of, data_key, queue_key, readable, present, scan,
  answer_popped, bets_of, get_bets_for_settlement,
}
use game_production.RedisRepo.Documented.{Answers}

-- The numbers below n, from n - 1 down.
abbrev pub below : ℕ → List ℕ
below zero = []
below (suc n) = n ∷ below n

All-below : (P : ℕ → Type 0) (n : ℕ) → ((i : ℕ) → i < n → P i) → All P (below n)
All-below P zero h = tt
All-below P (suc n) h = (h n (omega arith), All-below P n (λ i l. h i (omega (arith, l))))

List-cases : (xs : List String) → (xs ≡ []) ⊎ (xs ≢ [])
List-cases [] = inl refl
List-cases (x ∷ xs) = inr (λ e. ground (arith, e))

map-cong :
    {A B : Type 0} {f g : A → B} → ((x : A) → f x ≡ g x) → (xs : List A) → map f xs ≡ map g xs
map-cong h [] = refl
map-cong h (x ∷ xs) = rw (h x, map-cong h xs)

module _ {S : Type 0} (texts : BetTexts) (redis : Redis S) (answers : Answers redis)
    (round : String) where
  -- The IDs that wait in a shard.
  abbrev pub waiting : ℕ → S → List String
  waiting shard s = answers.list s (queue_key texts round shard)

  -- One shard's first IDs, at most 100 and at least one, are out of its queue, and their bets are the
  -- answer; nothing else has changed.
  pub record Batch (s : S) (bets : List Bet) (s' : S) : Type 0 where
    pub shard : ℕ
    pub in_range : shard < 16
    pub first : String
    pub others : List String
    pub at_most : length (first ∷ others) ≤ 100
    pub taken : waiting shard s ≡ first ∷ others ++ waiting shard s'
    pub same_lists :
        (j : String) → j ≢ queue_key texts round shard → answers.list s' j ≡ answers.list s j
    pub same_hashes : (j f : String) → answers.hash s' j f ≡ answers.hash s j f
    pub answer :
        bets
        ≡ readable texts (present texts (map (answers.hash s (data_key round)) (first ∷ others)))

  scan-nil :
      (start n i : ℕ) (s : S)
      → waiting ((start + i) % 16) s ≡ []
      → scan texts redis start round (suc n) i s ≡ scan texts redis start round n (suc i) s
  unfolding scan answer_popped
  scan-nil start n i s e =
      ap (answer_popped texts redis round (scan texts redis start round n (suc i)))
        (answers.popped_nil (queue_key texts round ((start + i) % 16)) 100 s e)

  later :
      (i j k : ℕ) (s : S) (start : ℕ)
      → waiting ((start + i) % 16) s ≡ []
      → ((m : ℕ) → suc i ≤ m → m < k → waiting ((start + m) % 16) s ≡ [])
      → i ≤ j
      → j < k
      → waiting ((start + j) % 16) s ≡ []
  later i j k s start e h l m = elim (Bool-cases (eqb i j)) [
    | inl same ↦ rw (← (eqb_iff i j).0 same) e
    | inr other ↦ h j (ground (arith, l, other, eqb_iff i j)) m
  ]

  bets_of_lem :
      (ids : List String) (s : S)
      → bets_of texts redis round ids s
        ≡ ok (readable texts (present texts (map (answers.hash s (data_key round)) ids)))
  unfolding bets_of
  bets_of_lem ids s = rw (answers.got_fields (data_key round) ids s, bets_of) refl

  scan-value :
      (start n i : ℕ) (s : S)
      → waiting ((start + i) % 16) s ≢ []
      → (bets : List Bet) × (s' : S) × (scan texts redis start round (suc n) i s ≡ (ok bets, s'))
        × Batch s bets s'
  unfolding scan answer_popped bets_of
  scan-value start n i s e =
      let (x, xs, s', pop, few, split, lists, hashes) =
        answers.popped (queue_key texts round ((start + i) % 16)) 99 s e in
      (
        readable texts (present texts (map (answers.hash s' (data_key round)) (x ∷ xs))),
        s',
        ap (answer_popped texts redis round (scan texts redis start round n (suc i))) pop
            ∙ ap (λ r. (r, s')) (bets_of_lem (x ∷ xs) s'),
        record {
          shard = (start + i) % 16;
          in_range = omega arith;
          first = x;
          others = xs;
          at_most = few;
          taken = split;
          same_lists = lists;
          same_hashes = hashes;
          answer =
              ap (λ ts. readable texts (present texts ts))
                (map-cong (λ f. hashes (data_key round) f) (x ∷ xs));
        },
      )

  scan-Batch :
      (start n i : ℕ) (s : S)
      → ((scan texts redis start round n i s ≡ (ok [], s))
          × ((j : ℕ) → i ≤ j → j < i + n → waiting ((start + j) % 16) s ≡ []))
        ⊎ ((bets : List Bet) × (s' : S) × (scan texts redis start round n i s ≡ (ok bets, s'))
            × Batch s bets s')
  unfolding scan
  scan-Batch start zero i s = inl (refl, λ j l h. absurd (omega (arith, l, h)))
  scan-Batch start (suc n) i s = elim (List-cases (waiting ((start + i) % 16) s)) [
    | inl e ↦ elim (scan-Batch start n (suc i) s) [
      | inl (same, h) ↦ inl (
        scan-nil start n i s e ∙ same,
        λ j l k. later i j (i + suc n) s start e (λ m low high. h m low (omega (arith, high))) l k,
      )
      | inr (bets, s', same, b) ↦ inr (bets, s', scan-nil start n i s e ∙ same, b)
    ]
    | inr e ↦ inr (scan-value start n i s e)
  ]

  -- Where Redis answers, a call for bets to settle, at whichever shard it starts, takes the first IDs of one
  -- shard's queue, at least one and at most 100, answers the readable bets that they name and changes
  -- nothing else; only if all 16 queues are empty it answers no bets and changes nothing.
  pub settlement_pops_shard :
      (start : ℕ) (s : S)
      → ((get_bets_for_settlement texts redis start round s ≡ (ok [], s))
          × All (λ shard. waiting shard s ≡ []) (below 16))
        ⊎ ((bets : List Bet) × (s' : S) × (get_bets_for_settlement texts redis start round s
              ≡ (ok bets, s'))
            × Batch s bets s')
  unfolding get_bets_for_settlement
  settlement_pops_shard start s = elim (scan-Batch start 16 0 s) [
    | inl (same, h) ↦ inl (
      same,
      All-below (λ shard. waiting shard s ≡ []) 16
          (λ shard small.
            let turn : (start + (shard + 16 - start % 16) % 16) % 16 ≡ shard =
              omega (arith, small) in
            rw (← turn) (h ((shard + 16 - start % 16) % 16) (omega arith) (omega arith))),
    )
    | inr taken ↦ inr taken
  ]

  -- Where Redis answers, a bet that was saved stands at the end of the queue of its user's shard, which is
  -- one of the 16. The user's ID is not negative, and the round is the bet's.
  pub save_bet_queued :
      (b : Bet) (s s' : S)
      → b.round_id ≡ round
      → is_negative b.user_id ≡ false
      → save_bet texts redis b s ≡ (ok tt, s')
      → (waiting (shard_of b.user_id) s' ≡ waiting (shard_of b.user_id) s ++ b.bet_id ∷ [])
        × (shard_of b.user_id < 16)
  unfolding save_bet shard_of
  save_bet_queued b s s' e positive saved = go (texts.marshal b) refl
    where
      go :
          (r : Result String)
          → texts.marshal b ≡ r
          → (waiting (shard_of b.user_id) s' ≡ waiting (shard_of b.user_id) s ++ b.bet_id ∷ [])
            × (shard_of b.user_id < 16)
      go (err x) m = absurd (ground (arith, saved, m))
      go (ok t) m = (
        answers.written_list (save_commands texts b t) s s'
              (queue_key texts round (shard_of b.user_id)) (ground (arith, saved, m))
            ∙ rw (e, same_self (queue_key texts round (shard_of b.user_id))),
        ground (arith, positive),
      )
