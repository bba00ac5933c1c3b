-- ===== src/Gs/Adapters.antt =====
-- The adapters of the game server: internal/modules/color_game/gs/adapter/local/handler.go and
-- gs/adapter/grpc/handler.go. A text of an error is the error itself. `pending` are the settlements
-- that RoundResult has started in goroutines.
use game_production.Common.{
  ℕ, String, Bool, true, false, List, [], ◌∷◌, ◌++◌, Option, none, some, Error, Result, ok, err,
  Exec,
}
use game_production.Proto.{Reward, ErrorCode, success, internal_error}
use game_production.Float.{Float64}
use game_production.Bets.{BetPtr}
use game_production.Gs.Services.{Services}
use game_production.Gs.Defs.{StateView, place_bet}
use game_production.Gs.Settle.{get_current_round}

-- ColorGamePlaceBetRsp
pub record PlaceBetRsp : Type 0 where
  pub error_code : ErrorCode
  pub bet_id : String
  pub error : Option Error

-- ColorGameGetStateRsp; StateJson is empty where `state` is `none`, and `has_type` says whether its
-- key "type" is "state" or missing.
pub record GetStateRsp : Type 0 where
  pub error_code : ErrorCode
  pub state : Option StateView
  pub has_type : Bool

module _ {F S : Type 0} (float : Float64 F) (svc : Services F S) where
  bet_answer : Result BetPtr × S → Result PlaceBetRsp × S
  bet_answer (ok p, s) =
      (ok (record { error_code = success; bet_id = (svc.read p s).bet_id; error = none }), s)
  bet_answer (err e, s) =
      (ok (record { error_code = internal_error; bet_id = ""; error = some e }), s)

  -- PlaceBet is the same in both adapters.
  unfoldable pub handle_place_bet : ℕ → Reward → ℕ → Exec S PlaceBetRsp
  unfolding bet_answer
  handle_place_bet user color amount s = bet_answer (place_bet float svc user color amount s)

  state_answer : Bool → Result StateView × S → Result GetStateRsp × S
  state_answer has_type (ok v, s) =
      (ok (record { error_code = success; state = some v; has_type = has_type }), s)
  state_answer has_type (err e, s) =
      (ok (record { error_code = internal_error; state = none; has_type = false }), s)

  unfoldable pub local_get_state : ℕ → Exec S GetStateRsp
  unfolding state_answer
  local_get_state user s = state_answer true (get_current_round float svc user s)

  unfoldable pub grpc_get_state : ℕ → Exec S GetStateRsp
  unfolding state_answer
  grpc_get_state user s = state_answer false (get_current_round float svc user s)

-- RoundResult, of either adapter, answers at once.
unfoldable pub round_result : String → Reward → Exec (List (String × Reward)) ErrorCode
round_result round color pending = (ok success, pending ++ (round, color) ∷ [])
