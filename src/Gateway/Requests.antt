-- ===== src/Gateway/Requests.antt =====
-- The requests of the players: internal/modules/gateway/usecase/gateway_uc.go and
-- gateway_color_game_uc.go. Reading JSON and strings.ToUpper are parameters; the answers are the
-- values that json.Marshal prints.
use game_production.Common.{
  ℕ, nat_key, Bool, String, string_key, ◌==◌, ◌||◌, concat, Option, none, some, Error, failure,
  about, wrapped, Result, ok, err, Exec, if◌then◌else◌,
}
use game_production.Proto.{
  Reward, unspecified, red, green, blue, yellow, ErrorCode, success, internal_error,
  invalid_bet_option, code_number, reward_name,
}
use game_production.Gs.{PlaceBetRsp, GetStateRsp}

pub record RequestEnvelope : Type 0 where
  pub game : String
  pub command : String
  pub body : String  -- the field Data

pub record BetPayload : Type 0 where
  pub color : String
  pub amount : ℕ

-- json.Unmarshal into the two structs, and strings.ToUpper.
pub record Texts : Type 0 where
  pub parse_envelope : String → Result RequestEnvelope
  pub parse_bet : String → Result BetPayload
  pub to_upper : String → String

-- The texts of a failure: the service's, or one of the gateway's own.
pub data Reply : Type 0 where
  bet_reply : ErrorCode → String → Option Error → Reply
  state_reply : GetStateRsp → Reply
  error_reply : Error → Reply

-- ColorGameReward_value
unfoldable pub reward_of_name : String → Option Reward
reward_of_name name =
    if name == reward_name unspecified
    then some unspecified
    else if name == reward_name red
    then some red
    else if name == reward_name green
    then some green
    else if name == reward_name blue
    then some blue
    else if name == reward_name yellow
    then some yellow
    else none

-- ColorGameGSService, without RoundResult, which the gateway does not call.
pub record GsService (S : Type 0) : Type 0 where
  pub place_bet : ℕ → Reward → ℕ → Exec S PlaceBetRsp
  pub get_state : ℕ → Exec S GetStateRsp

is_success : ErrorCode → Bool
is_success c = code_number c == code_number success

module _ {S : Type 0} (texts : Texts) (svc : GsService S) where
  unfoldable pub answer_bet : Result PlaceBetRsp × S → Result Reply × S
  unfolding is_success
  answer_bet (err e, s) = (ok (bet_reply internal_error "" (some e)), s)
  answer_bet (ok rsp, s) =
      if is_success rsp.error_code
      then (ok (bet_reply success rsp.bet_id none), s)
      else (ok (bet_reply rsp.error_code "" rsp.error), s)

  place_named : ℕ → Option Reward → BetPayload → Exec S Reply
  unfolding answer_bet
  place_named user none payload s =
      (ok (bet_reply invalid_bet_option "" (some (about "invalid color" payload.color))), s)
  place_named user (some color) payload s = answer_bet (svc.place_bet user color payload.amount s)

  place_parsed : ℕ → Result BetPayload → Exec S Reply
  unfolding place_named reward_of_name
  place_parsed user (err e) s = (err (wrapped "invalid place_bet payload" e), s)
  place_parsed user (ok payload) s =
      place_named user (reward_of_name (concat "REWARD_" (texts.to_upper payload.color))) payload s

  answer_state : Result GetStateRsp × S → Result Reply × S
  answer_state (err e, s) = (ok (error_reply e), s)
  answer_state (ok rsp, s) = (ok (state_reply rsp), s)

  unfoldable pub handle_color_game : ℕ → String → String → Exec S Reply
  unfolding place_parsed answer_state
  handle_color_game user command body s =
      if command == "ColorGamePlaceBetREQ"
      then place_parsed user (texts.parse_bet body) s
      else if command == "ColorGameGetStateREQ"
      then answer_state (svc.get_state user s)
      else (err (about "unknown command for color_game" command), s)

  dispatch : ℕ → Result RequestEnvelope → Exec S Reply
  unfolding handle_color_game
  dispatch user (err e) s = (err (wrapped "invalid message format" e), s)
  dispatch user (ok req) s =
      if req.game == "" || req.command == ""
      then (err (failure "missing game or command"), s)
      else if req.game == "color_game"
      then handle_color_game user req.command req.body s
      else (err (about "unknown game" req.game), s)

  unfoldable pub handle_message : ℕ → String → Exec S Reply
  unfolding dispatch
  handle_message user message s = dispatch user (texts.parse_envelope message) s
