-- ===== src/RedisRepo/Saved.antt =====
-- What is read of a bet after it was saved or raised in Redis.
use Prim.Native.String.{slice}
use text.Mathlib.TextPositions.{slice-append_left}
use text.Mathlib.TextLemmas.{append_assoc}
use game_production.Common.{
  ℕ, String, concat, string_key, some, ◌≡◌, ◌≢◌, refl, sym, ◌∙◌, ap, Result, ok, err, arith, eq_iff,
  same_self,
}
use game_production.Proto.{reward_name}
use game_production.Bets.{Bet}
use game_production.RedisRepo.{
  Redis, BetTexts, data_key, index_key, save_commands, save_bet, get_user_bet, raised,
  update_bet_amount,
}
use game_production.RedisRepo.Documented.{Answers, Writes}

-- A key of the index is no key of the data.
data_key-index_key :
    (texts : BetTexts) (r round : String) (user : ℕ) → data_key r ≢ index_key texts round user
unfolding data_key index_key
data_key-index_key texts r round user e =
    let rest = concat round (concat ":" (texts.decimal user)) in
    let b : slice (data_key r) 0 1 ≡ "b" =
      ap (λ t. slice t 0 1) (append_assoc "b" "et_data:" r)
      ∙ slice-append_left "b" (concat "et_data:" r) in
    let u : slice (index_key texts round user) 0 1 ≡ "u" =
      ap (λ t. slice t 0 1) (append_assoc "u" "ser_index:" rest)
      ∙ slice-append_left "u" (concat "ser_index:" rest) in
    let same : "b" ≡ "u" = sym b ∙ ap (λ t. slice t 0 1) e ∙ u in
    ground (arith, same, eq_iff "b" "u")

module _ {S : Type 0} (texts : BetTexts) (redis : Redis S) (answers : Answers redis)
    (writes : Writes texts) where
  -- The index names the bet, and its data is the bet's text.
  pub record Stored (b : Bet) (s : S) : Type 0 where
    pub index_has :
        answers.hash s (index_key texts b.round_id b.user_id) (reward_name b.color) ≡ some b.bet_id
    pub text : String
    pub data_has : answers.hash s (data_key b.round_id) b.bet_id ≡ some text
    pub read : texts.unmarshal text ≡ ok b

  pub get_user_bet-Stored :
      (b : Bet) (s : S)
      → Stored b s
      → get_user_bet texts redis b.round_id b.user_id b.color s ≡ ok (some b)
  unfolding get_user_bet
  get_user_bet-Stored b s h =
      rw
        (
          answers.got (index_key texts b.round_id b.user_id) (reward_name b.color) s,
          h.index_has,
          answers.got (data_key b.round_id) b.bet_id s,
          h.data_has,
          h.read,
        )
        refl

  pub save_bet-Stored : (b : Bet) (s s' : S) → save_bet texts redis b s ≡ (ok tt, s') → Stored b s'
  unfolding save_bet
  save_bet-Stored b s s' e = go (texts.marshal b) refl
    where
      go : (r : Result String) → texts.marshal b ≡ r → Stored b s'
      go (err x) m = absurd (ground (arith, e, m))
      go (ok t) m =
          let index = index_key texts b.round_id b.user_id in
          let differ = data_key-index_key texts b.round_id b.round_id b.user_id in
          record {
            index_has =
                answers.written_hash (save_commands texts b t) s s' index (reward_name b.color)
                  (ground (arith, e, m))
                ∙ ground (arith, same_self index, same_self (reward_name b.color));
            text = t;
            data_has =
                answers.written_hash (save_commands texts b t) s s' (data_key b.round_id) b.bet_id
                  (ground (arith, e, m))
                ∙ ground (
                  arith,
                  same_self (data_key b.round_id),
                  same_self b.bet_id,
                  differ,
                  eq_iff index (data_key b.round_id),
                );
            read = writes.read_back b t m;
          }

  -- A copy of the bet, with whatever amount, is written back raised.
  pub update_bet_amount-Stored :
      (c b : Bet) (a more : ℕ) (s s' : S)
      → Stored c s
      → update_bet_amount texts redis (record c { amount = a }) more s ≡ (b, (ok tt, s'))
      → Stored (raised (record c { amount = a }) more) s'
  unfolding update_bet_amount
  update_bet_amount-Stored c b a more s s' h e = go (texts.marshal r) refl
    where
      r : Bet
      r = raised (record c { amount = a }) more

      go : (q : Result String) → texts.marshal r ≡ q → Stored r s'
      go (err x) m = absurd (ground (arith, e, m))
      go (ok t) m =
          let index = index_key texts c.round_id c.user_id in
          let key = data_key c.round_id in
          let differ = data_key-index_key texts c.round_id c.round_id c.user_id in
          let done : redis.h_set key c.bet_id t s ≡ (ok tt, s') = ground (arith, e, m) in
          record {
            index_has =
                answers.set_hash key c.bet_id t s s' index (reward_name c.color) done
                ∙ ground (arith, differ, eq_iff key index, h.index_has);
            text = t;
            data_has =
                answers.set_hash key c.bet_id t s s' key c.bet_id done
                ∙ ground (arith, same_self key, same_self c.bet_id);
            read = writes.read_back r t m;
          }

  -- Where Redis answers and JSON reads back what it wrote, a bet that was saved is what is read for its
  -- round, user and colour.
  pub save_bet_read :
      (b : Bet) (s s' : S)
      → save_bet texts redis b s ≡ (ok tt, s')
      → get_user_bet texts redis b.round_id b.user_id b.color s' ≡ ok (some b)
  save_bet_read b s s' e = get_user_bet-Stored b s' (save_bet-Stored b s s' e)

  -- Where Redis answers and JSON reads back what it wrote, of two raises of a bet
  -- that was just saved, which both start from the bet as it was saved and give no error, the first
  -- one's amount is lost.
  pub last_raise_stays :
      (b c d : Bet) (x y : ℕ) (s s₀ s₁ s₂ : S)
      → save_bet texts redis b s ≡ (ok tt, s₀)
      → update_bet_amount texts redis b x s₀ ≡ (c, (ok tt, s₁))
      → update_bet_amount texts redis b y s₁ ≡ (d, (ok tt, s₂))
      → get_user_bet texts redis b.round_id b.user_id b.color s₂ ≡ ok (some (raised b y))
  last_raise_stays b c d x y s s₀ s₁ s₂ saved once twice =
      let h = update_bet_amount-Stored b c b.amount x s₀ s₁ (save_bet-Stored b s s₀ saved) once in
      get_user_bet-Stored (raised b y) s₂
        (update_bet_amount-Stored (raised b x) d b.amount y s₁ s₂ h twice)
