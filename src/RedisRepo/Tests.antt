-- ===== src/RedisRepo/Tests.antt =====
-- A Redis that keeps everything in memory, and bets of one player that are written as tallies.
use Prim.Native.String.{len}
use text.Mathlib.TextPositions.{len-append}
use game_production.Common.{
  ℕ, suc, zero, ◌<◌, ◌≤◌, ◌&&◌, ◌==◌, eq_iff, same_self, nat_key, string_key, if◌then◌else◌, String,
  concat, List, [], ◌∷◌, ◌++◌, map, Option, none, some, ◌≡◌, ◌≢◌, ◌⊎◌, refl, ap, sym, ◌∙◌, ok, err,
  failure, arith, length, All,
}
use game_production.Proto.{red, same_reward, same_reward_iff}
use game_production.Bets.{Bet}
use game_production.RedisRepo.{
  Redis, BetTexts, Reply, value, nil, save_bet, get_user_bet, update_bet_amount,
  get_bets_for_settlement, shard_of,
}
use game_production.RedisRepo.Documented.{Answers, Writes, after_hash, after_list, reply_of}
use game_production.RedisRepo.Saved.{save_bet_read, last_raise_stays}
use game_production.RedisRepo.Taken.{below, waiting, Batch, settlement_pops_shard, save_bet_queued}

record Memory : Type 0 where
  pub hash : String → String → Option String
  pub list : String → List String

abbrev first_of : ℕ → List String → List String
first_of zero xs = []
first_of (suc n) [] = []
first_of (suc n) (x ∷ xs) = x ∷ first_of n xs

abbrev rest_of : ℕ → List String → List String
rest_of zero xs = xs
rest_of (suc n) [] = []
rest_of (suc n) (x ∷ xs) = rest_of n xs

first_of-rest_of : (n : ℕ) (xs : List String) → xs ≡ first_of n xs ++ rest_of n xs
first_of-rest_of zero xs = refl
first_of-rest_of (suc n) [] = refl
first_of-rest_of (suc n) (x ∷ xs) = ap (λ r. x ∷ r) (first_of-rest_of n xs)

length-first_of : (n : ℕ) (xs : List String) → length (first_of n xs) ≤ n
length-first_of zero xs = omega arith
length-first_of (suc n) [] = omega arith
length-first_of (suc n) (x ∷ xs) = omega (arith, length-first_of n xs)

abbrev popped_from : String → ℕ → List String → Memory → Reply (List String) × Memory
popped_from k n [] s = (nil, s)
popped_from k n (x ∷ xs) s = (
  value (first_of n (x ∷ xs)),
  record s { list = λ j. if j == k then rest_of n (x ∷ xs) else s.list j },
)

abbrev redis : Redis Memory
redis = record {
  exec = λ cs s. (ok tt, record { hash = after_hash cs s.hash; list = after_list cs s.list });
  h_set = λ k f v s.
      (ok tt, record s { hash = λ j g. if k == j && f == g then some v else s.hash j g });
  h_get_all = λ k s. ok [];
  h_vals = λ k s. ok [];
  h_get = λ k f s. reply_of (s.hash k f);
  hm_get = λ k fs s. ok (map (s.hash k) fs);
  l_pop_count = λ k n s. popped_from k n (s.list k) s;
}

pops :
    (k : String) (n : ℕ) (s : Memory)
    → s.list k ≢ []
    → (x : String) × (xs : List String) × (s' : Memory) × (redis.l_pop_count k (suc n) s
        ≡ (value (x ∷ xs), s'))
      × (length (x ∷ xs) ≤ suc n)
      × (s.list k ≡ x ∷ xs ++ s'.list k)
      × ((j : String) → j ≢ k → s'.list j ≡ s.list j)
      × ((j f : String) → s'.hash j f ≡ s.hash j f)
pops k n s some_there = go (s.list k) refl
  where
    go :
        (l : List String)
        → s.list k ≡ l
        → (x : String) × (xs : List String) × (s' : Memory) × (redis.l_pop_count k (suc n) s
            ≡ (value (x ∷ xs), s'))
          × (length (x ∷ xs) ≤ suc n)
          × (s.list k ≡ x ∷ xs ++ s'.list k)
          × ((j : String) → j ≢ k → s'.list j ≡ s.list j)
          × ((j f : String) → s'.hash j f ≡ s.hash j f)
    go [] e = absurd (some_there e)
    go (x ∷ xs) e = (
      x,
      first_of n xs,
      record s { list = λ j. if j == k then rest_of n xs else s.list j },
      ap (λ l. popped_from k (suc n) l s) e,
      omega (arith, length-first_of n xs),
      rw (e, same_self k) (ap (λ r. x ∷ r) (first_of-rest_of n xs)),
      λ j other. ground (arith, other, eq_iff j k),
      λ j f. refl,
    )

redis-Answers : Answers redis
redis-Answers = record {
  hash = λ s. s.hash;
  list = λ s. s.list;
  written_hash = λ cs s s' k f e. ap (λ r. r.1.hash k f) (sym e);
  written_list = λ cs s s' k e. ap (λ r. r.1.list k) (sym e);
  set_hash = λ j g v s s' k f e. ap (λ r. r.1.hash k f) (sym e);
  set_list = λ j g v s s' k e. ap (λ r. r.1.list k) (sym e);
  got = λ k f s. refl;
  got_fields = λ k fs s. refl;
  popped_nil = λ k n s e. ap (λ l. popped_from k n l s) e;
  popped = pops;
}

tally : ℕ → String
tally zero = ""
tally (suc n) = concat "i" (tally n)

len-tally : (n : ℕ) → len (tally n) ≡ n
unfolding tally
len-tally zero = refl
len-tally (suc n) = rw (len-append "i" (tally n)) (omega (arith, len-tally n))

abbrev bet_of : ℕ → Bet
bet_of amount = record {
  bet_id = "bet";
  round_id = "R1";
  user_id = 7;
  color = red;
  amount = amount;
  time = 5;
}

abbrev texts : BetTexts
texts = record {
  marshal = λ b.
      if b.bet_id == "bet"
        && b.round_id == "R1"
        && b.user_id == 7
        && same_reward b.color red
        && b.time == 5
      then ok (tally b.amount)
      else err (failure "another bet");
  unmarshal = λ t. ok (bet_of (len t));
  decimal = tally;
}

texts-Writes : Writes texts
texts-Writes = record {
  read_back = λ b t e. ground (
    arith,
    e,
    len-tally b.amount,
    eq_iff b.bet_id "bet",
    eq_iff b.round_id "R1",
    same_reward_iff b.color red,
  );
  decimal_differs = λ m n e. sym (len-tally m) ∙ ap len e ∙ len-tally n;
}

abbrev empty : Memory
empty = record { hash = λ k f. none; list = λ k. [] }

abbrev saved : Memory
unfolding save_bet
saved = (save_bet texts redis (bet_of 2) empty).1

save_bet_read_example : get_user_bet texts redis "R1" 7 red saved ≡ ok (some (bet_of 2))
unfolding save_bet
save_bet_read_example =
    save_bet_read texts redis redis-Answers texts-Writes (bet_of 2) empty saved refl

abbrev raised_by : ℕ → Memory → Memory
unfolding update_bet_amount
raised_by more s = (update_bet_amount texts redis (bet_of 2) more s).1.1

last_raise_stays_example :
    get_user_bet texts redis "R1" 7 red (raised_by 4 (raised_by 3 saved)) ≡ ok (some (bet_of 6))
unfolding save_bet update_bet_amount saved raised_by
last_raise_stays_example =
    last_raise_stays texts redis redis-Answers texts-Writes (bet_of 2) (bet_of 5) (bet_of 6) 3 4
      empty saved (raised_by 3 saved) (raised_by 4 (raised_by 3 saved)) refl refl refl

settlement_pops_shard_example :
    ((get_bets_for_settlement texts redis 5 "R1" saved ≡ (ok [], saved))
      × All (λ shard. waiting texts redis redis-Answers "R1" shard saved ≡ []) (below 16))
    ⊎ ((bets : List Bet) × (s' : Memory) × (get_bets_for_settlement texts redis 5 "R1" saved
          ≡ (ok bets, s'))
        × Batch texts redis redis-Answers "R1" saved bets s')
settlement_pops_shard_example = settlement_pops_shard texts redis redis-Answers "R1" 5 saved

save_bet_queued_test :
    (waiting texts redis redis-Answers "R1" (shard_of 7) saved
      ≡ waiting texts redis redis-Answers "R1" (shard_of 7) empty ++ "bet" ∷ [])
    × (shard_of 7 < 16)
unfolding save_bet saved
save_bet_queued_test =
    save_bet_queued texts redis redis-Answers "R1" (bet_of 2) empty saved refl refl refl
