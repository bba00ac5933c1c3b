-- ===== src/Gms/Defs.antt =====
-- The use case of the GMS, internal/modules/color_game/gms/usecase/gms_uc.go, with its records of
-- gms/domain/game_round.go, and the adapters gms/adapter/local/handler.go and
-- gms/adapter/grpc/handler.go. `F` is float64. `counts` are the maps betCount, betPlayers and
-- betAmount. Log lines are left out.
use game_production.Common.{
  ℕ, suc, String, string_key, nat_key, Bool, true, false, not, ◌||◌, ◌==◌, Option, none, some, List,
  [], ◌∷◌, ◌++◌, Dict, lookup, insert, or_else, failure, Result, ok, err, Exec, length,
  if◌then◌else◌,
}
use game_production.Clock.{Time, unix}
use game_production.Float.{Float64}
use game_production.Proto.{
  Reward, reward_name, GameState, no_state, round_started, result, success, internal_error,
}
use game_production.Machine.{
  EventData, reward, GameEvent, StateMachine, can_accept, get_current_round,
}
use game_production.Gs.Services.{RoundRsp, RecordBetReq, RecordBetRsp}

pub record Counts (F : Type 0) : Type 0 where
  pub bet_count : Dict String ℕ
  pub bet_players : Dict String (List ℕ)
  pub bet_amount : Dict String F

pub record Gms (F : Type 0) : Type 0 where
  pub machine : StateMachine
  pub counts : Counts F

unfoldable pub no_counts : {F : Type 0} → Counts F
no_counts = record { bet_count = []; bet_players = []; bet_amount = [] }

-- ColorGameRoundStateBRC
pub record RoundStateBrc : Type 0 where
  pub round_id : String
  pub state : GameState
  pub betting_end_timestamp : ℕ
  pub left_time : ℕ

pub data RoundStatus : Type 0 where
  in_progress ended : RoundStatus

-- The calls of other services that `handleGameEvent` makes, in order: Broadcast, Create, UpdateResult
-- and RoundResult.
pub data Call (F : Type 0) : Type 0 where
  broadcasts : RoundStateBrc → Call F
  creates : String → String → RoundStatus → Time → Call F
  updates : String → String → Time → ℕ → ℕ → F → Call F
  settles : String → Reward → Call F

-- Which of gatewayBroadcaster, gameRoundRepo and gsBroadcaster are not nil.
pub record Wiring : Type 0 where
  pub has_gateway : Bool
  pub has_repo : Bool
  pub has_gs : Bool

-- GetCurrentRound's `domain.Round`, whose other fields it leaves at their zero values.
pub record RoundInfo : Type 0 where
  pub round_id : String
  pub state : GameState
  pub betting_end : Time
  pub left_time : ℕ

is_announced : GameState → Bool
is_announced no_state = false
is_announced _ = true

when {ℓ} : {A : Type ℓ} → Bool → A → List A
when true a = a ∷ []
when false a = []

unfoldable pub is_in : ℕ → List ℕ → Bool
is_in u [] = false
is_in u (v ∷ l) = v == u || is_in u l

-- A set of user IDs as a map to struct{}.
add_player : ℕ → List ℕ → List ℕ
unfolding is_in
add_player u l = if is_in u l then l else u ∷ l

module _ {F : Type 0} (float : Float64 F) where
  unfoldable pub count_of : String → Counts F → ℕ
  count_of round c = or_else (lookup round c.bet_count) 0

  unfoldable pub players_of : String → Counts F → List ℕ
  players_of round c = or_else (lookup round c.bet_players) []

  unfoldable pub amount_of : String → Counts F → F
  amount_of round c = or_else (lookup round c.bet_amount) (float.of_int64 0)

  unfoldable pub add_bet : String → ℕ → F → Counts F → Counts F
  unfolding count_of players_of amount_of add_player
  add_bet round user amount c = record {
    bet_count = insert round (suc (count_of round c)) c.bet_count;
    bet_players = insert round (add_player user (players_of round c)) c.bet_players;
    bet_amount = insert round (float.add (amount_of round c) amount) c.bet_amount;
  }

  -- `event.Data.(ColorGameReward)`; `none` is the panic of a failed assertion.
  asserted_reward : EventData → Option Reward
  asserted_reward (reward c) = some c
  asserted_reward _ = none

  brc_of : GameEvent → RoundStateBrc
  brc_of e = record {
    round_id = e.round_id;
    state = e.kind;
    betting_end_timestamp = e.betting_end_timestamp;
    left_time = e.left_time;
  }

  -- The part that only a RESULT event reaches: the totals are stored and settlement is asked for.
  result_calls : Wiring → Time → GameEvent → Counts F → Reward → List (Call F)
  unfolding count_of players_of amount_of
  result_calls w now e c color =
      when w.has_repo (
        updates e.round_id (reward_name color) now (count_of e.round_id c)
          (length (players_of e.round_id c)) (amount_of e.round_id c))
      ++ when w.has_gs (settles e.round_id color)

  result_part : Wiring → Time → GameEvent → Counts F → Option (List (Call F))
  unfolding asserted_reward result_calls
  result_part w now e c =
      if w.has_repo || w.has_gs
      then elim (asserted_reward e.payload) [
        | none ↦ none
        | some color ↦ some (result_calls w now e c color)
      ]
      else some []

  state_part : GameState → Wiring → Time → GameEvent → Counts F → Option (List (Call F))
  unfolding result_part
  state_part round_started w now e c =
      some (when w.has_repo (creates e.round_id "color_game" in_progress now))
  state_part result w now e c = result_part w now e c
  state_part _ w now e c = some []

  after_broadcast : List (Call F) → Option (List (Call F)) → Option (List (Call F))
  after_broadcast l none = none
  after_broadcast l (some m) = some (l ++ m)

  -- The calls that an event leads to; `none` is a panic.
  unfoldable pub handle_game_event : Wiring → Time → GameEvent → Counts F → Option (List (Call F))
  unfolding is_announced when brc_of state_part after_broadcast
  handle_game_event w now e c =
      after_broadcast
        (if is_announced e.kind then when w.has_gateway (broadcasts (brc_of e)) else [])
        (state_part e.kind w now e c)

  is_other_round : String → String → Bool
  is_other_round current round = current == "" || not (current == round)

  -- `now` is the time at which CanAcceptBet looks.
  unfoldable pub increment_bet_count : Time → String → ℕ → F → Exec (Gms F) (Unit {0})
  unfolding is_other_round add_bet can_accept get_current_round
  increment_bet_count now round user amount g =
      if not (can_accept now g.machine)
      then (err (failure "betting not allowed in current state"), g)
      else if is_other_round (get_current_round now g.machine).round_id round
      then (err (failure "invalid round ID"), g)
      else (ok tt, record g { counts = add_bet round user amount g.counts })

  unfoldable pub gms_current_round : Time → Gms F → Result RoundInfo
  unfolding get_current_round
  gms_current_round now g =
      let v = get_current_round now g.machine in
      if v.round_id == ""
      then err (failure "no active round")
      else ok (record {
        round_id = v.round_id;
        state = v.state;
        betting_end = v.betting_end;
        left_time = v.left_time;
      })

  unfoldable pub record_bet : Time → String → ℕ → Reward → ℕ → Exec (Gms F) (Unit {0})
  unfolding increment_bet_count
  record_bet now round user color amount =
      increment_bet_count now round user (float.of_int64 amount)

  -- The adapter of the monolith.
  unfoldable pub local_record_bet : Time → RecordBetReq → Exec (Gms F) RecordBetRsp
  unfolding increment_bet_count
  local_record_bet now req g =
      let (r, g') =
        increment_bet_count now req.round_id req.user_id (float.of_int64 req.amount) g in
      elim r [ ok _ ↦ (ok (record { error_code = success }), g') | err e ↦ (err e, g') ]

  -- The gRPC adapter answers a failure in the response, and no error.
  unfoldable pub grpc_record_bet : Time → RecordBetReq → Exec (Gms F) RecordBetRsp
  unfolding record_bet
  grpc_record_bet now req g =
      let (r, g') = record_bet now req.round_id req.user_id req.color req.amount g in
      elim r [
        | ok _ ↦ (ok (record { error_code = success }), g')
        | err _ ↦ (ok (record { error_code = internal_error }), g')
      ]

  -- The local adapter leaves out the time that is left.
  unfoldable pub local_current_round : Time → Exec (Gms F) RoundRsp
  unfolding gms_current_round
  local_current_round now g = elim (gms_current_round now g) [
    | ok i ↦ (
      ok (record {
        error_code = success;
        round_id = i.round_id;
        state = i.state;
        betting_end_timestamp = unix i.betting_end;
        left_time = 0;
      }),
      g,
    )
    | err e ↦ (err e, g)
  ]

  unfoldable pub grpc_current_round : Time → Exec (Gms F) RoundRsp
  unfolding gms_current_round
  grpc_current_round now g = elim (gms_current_round now g) [
    | ok i ↦ (
      ok (record {
        error_code = success;
        round_id = i.round_id;
        state = i.state;
        betting_end_timestamp = unix i.betting_end;
        left_time = i.left_time;
      }),
      g,
    )
    | err _ ↦ (
      ok (record {
        error_code = internal_error;
        round_id = "";
        state = no_state;
        betting_end_timestamp = 0;
        left_time = 0;
      }),
      g,
    )
  ]
