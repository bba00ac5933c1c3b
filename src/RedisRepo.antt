-- ===== src/RedisRepo.antt =====
-- The bet repository in Redis: internal/modules/color_game/gs/repository/redis/bet_repo.go. Redis, JSON
-- and the decimal text of an int64 are parameters. What is read is a copy of the bet, unlike in
-- MemoryRepo.
pub mod Documented
pub mod Saved
pub mod Taken
mod Tests
use game_production.Common.{
  ℕ, suc, zero, ◌+◌, ◌-◌, ◌%◌, String, concat, string_key, Bool, List, [], ◌∷◌, ◌++◌, map, Option,
  none, some, Error, failure, Result, ok, err, Exec, is_negative, neg64, add64, if◌then◌else◌,
}
use game_production.Proto.{Reward, reward_name}
use game_production.Bets.{Bet}

-- A command of a pipeline: HSet, Expire, RPush and Del.
pub data Command : Type 0 where
  hset : String → String → String → Command
  expire : String → Command
  rpush : String → String → Command
  del : String → Command

-- What HGet and LPopCount answer: a value, redis.Nil, or another error.
pub data Reply (A : Type 0) : Type 0 where
  value : A → Reply A
  nil : Reply A
  failed : Error → Reply A

-- The calls of go-redis: Exec of a pipeline, HSet, HGetAll (the values, in the order of the map), HVals,
-- HGet, HMGet and LPopCount.
pub record Redis (S : Type 0) : Type 0 where
  pub exec : List Command → Exec S (Unit {0})
  pub h_set : String → String → String → Exec S (Unit {0})
  pub h_get_all : String → S → Result (List String)
  pub h_vals : String → S → Result (List String)
  pub h_get : String → String → S → Reply String
  pub hm_get : String → List String → S → Result (List (Option String))
  pub l_pop_count : String → ℕ → S → Reply (List String) × S

-- json.Marshal, json.Unmarshal and %d.
pub record BetTexts : Type 0 where
  pub marshal : Bet → Result String
  pub unmarshal : String → Result Bet
  pub decimal : ℕ → String

abbrev pub shard_count : ℕ
shard_count = 16

-- userID % ShardCount, which is not positive for a negative number.
unfoldable pub shard_of : ℕ → ℕ
shard_of user = if is_negative user then neg64 (neg64 user % shard_count) else user % shard_count

unfoldable pub data_key : String → String
data_key round = concat "bet_data:" round

-- bet.Amount += additionalAmount
abbrev pub raised : Bet → ℕ → Bet
raised b more = record b { amount = add64 b.amount more }

module _ (texts : BetTexts) where
  unfoldable pub queue_key : String → ℕ → String
  queue_key round shard =
      concat "settlement_queue:" (concat round (concat ":" (texts.decimal shard)))

  unfoldable pub index_key : String → ℕ → String
  index_key round user = concat "user_index:" (concat round (concat ":" (texts.decimal user)))

  abbrev pub save_commands : Bet → String → List Command
  save_commands b text =
      hset (data_key b.round_id) b.bet_id text
      ∷ expire (data_key b.round_id)
      ∷ rpush (queue_key b.round_id (shard_of b.user_id)) b.bet_id
      ∷ expire (queue_key b.round_id (shard_of b.user_id))
      ∷ hset (index_key b.round_id b.user_id) (reward_name b.color) b.bet_id
      ∷ expire (index_key b.round_id b.user_id)
      ∷ []

  -- The texts that are read as bets; the others are left out.
  unfoldable pub readable : List String → List Bet
  readable [] = []
  readable (t ∷ ts) =
      let rest = readable ts in elim (texts.unmarshal t) [ ok b ↦ b ∷ rest | err _ ↦ rest ]

  -- The fields that are there.
  abbrev pub present : List (Option String) → List String
  present [] = []
  present (none ∷ ts) = present ts
  present (some t ∷ ts) = t ∷ present ts

  delete_queues : String → ℕ → List Command
  unfolding queue_key
  delete_queues round zero = []
  delete_queues round (suc n) = del (queue_key round (shard_count - suc n)) ∷ delete_queues round n

  module _ {S : Type 0} (redis : Redis S) where
    unfoldable pub save_bet : Bet → Exec S (Unit {0})
    unfolding queue_key index_key
    save_bet b s = elim (texts.marshal b) [
      | err e ↦ (err e, s)
      | ok text ↦ redis.exec (save_commands b text) s
    ]

    unfoldable pub get_bets : String → S → Result (List Bet)
    unfolding readable
    get_bets round s = elim (redis.h_get_all (data_key round) s) [
      | err e ↦ err e
      | ok ts ↦ ok (readable ts)
    ]

    bets_of : String → List String → S → Result (List Bet)
    unfolding readable
    bets_of round ids s = elim (redis.hm_get (data_key round) ids s) [
      | err e ↦ err e
      | ok ts ↦ ok (readable (present ts))
    ]

    bets_of_ids : String → S → List String → Result (List Bet)
    unfolding bets_of
    bets_of_ids round s [] = ok []
    bets_of_ids round s (id ∷ ids) = bets_of round (id ∷ ids) s

    unfoldable pub get_user_bets : String → ℕ → S → Result (List Bet)
    unfolding index_key bets_of_ids
    get_user_bets round user s = elim (redis.h_vals (index_key round user) s) [
      | err e ↦ err e
      | ok ids ↦ bets_of_ids round s ids
    ]

    read_bet : Result Bet → Result (Option Bet)
    read_bet (ok b) = ok (some b)
    read_bet (err e) = err e

    -- A missing entry of the index is no bet; missing data is an error.
    indexed_bet : String → S → Reply String → Result (Option Bet)
    unfolding read_bet
    indexed_bet round s nil = ok none
    indexed_bet round s (failed e) = err e
    indexed_bet round s (value id) = elim (redis.h_get (data_key round) id s) [
      | nil ↦ err (failure "redis: nil")
      | failed e ↦ err e
      | value t ↦ read_bet (texts.unmarshal t)
    ]

    unfoldable pub get_user_bet : String → ℕ → Reward → S → Result (Option Bet)
    unfolding index_key indexed_bet
    get_user_bet round user color s =
        indexed_bet round s (redis.h_get (index_key round user) (reward_name color) s)

    -- The caller's bet is raised, and then its text replaces what is stored.
    unfoldable pub update_bet_amount : Bet → ℕ → S → Bet × (Result (Unit {0}) × S)
    update_bet_amount b more s = (
      raised b more,
      elim (texts.marshal (raised b more)) [
        | err e ↦ (err e, s)
        | ok text ↦ redis.h_set (data_key b.round_id) b.bet_id text s
      ],
    )

    unfoldable pub clear_bets : String → Exec S (Unit {0})
    unfolding delete_queues
    clear_bets round s = redis.exec (del (data_key round) ∷ delete_queues round shard_count) s

    -- What was popped of a shard is answered; of an empty one, `rest` goes on.
    answer_popped : String → Exec S (List Bet) → Reply (List String) × S → Result (List Bet) × S
    unfolding bets_of
    answer_popped round rest (nil, s) = rest s
    answer_popped round rest (failed e, s) = (err e, s)
    answer_popped round rest (value [], s) = rest s
    answer_popped round rest (value (id ∷ ids), s) = (bets_of round (id ∷ ids) s, s)

    -- The shards from (start + i) % ShardCount on, `n` of them.
    scan : ℕ → String → ℕ → ℕ → Exec S (List Bet)
    unfolding queue_key answer_popped
    scan start round zero i s = (ok [], s)
    scan start round (suc n) i s =
        answer_popped round (scan start round n (suc i))
          (redis.l_pop_count (queue_key round ((start + i) % shard_count)) 100 s)

    -- `start` is rand.Intn(ShardCount).
    unfoldable pub get_bets_for_settlement : ℕ → String → Exec S (List Bet)
    unfolding scan
    get_bets_for_settlement start round s = scan start round shard_count 0 s
