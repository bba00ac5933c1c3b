-- ===== src/Gateway/Adapters.antt =====
-- The adapters of the gateway: internal/modules/gateway/adapter/local/handler.go,
-- adapter/grpc/handler.go and adapter/http/handler.go. Printing as JSON, the checking of tokens and the
-- upgrade to a WebSocket are parameters.
use game_production.Common.{
  ℕ, String, string_key, ◌==◌, Bool, true, false, Option, none, some, List, [], ◌∷◌, Error, Result,
  ok, err, Exec, if◌then◌else◌,
}
use game_production.Proto.{ErrorCode, success, state_name, reward_name}
use game_production.Gms.{RoundStateBrc}
use game_production.Gs.Services.{SettlementBrc}
use game_production.Gateway.Connections.{Manager, register, broadcast, send_to_user}
use game_production.Gateway.Requests.{Texts, Reply, GsService, handle_message}

-- The messages of the services, by their types.
pub data Event : Type 0 where
  round_state : RoundStateBrc → Event
  settlement : SettlementBrc → Event
  other_event : Event

-- The values of the maps that convertEvent builds: a number is the pattern of an int64.
pub data Value : Type 0 where
  text : String → Value
  number : ℕ → Value
  flag : Bool → Value

-- The outer map holds texts and, under one key, a map of values.
pub data Member : Type 0 where
  plain : Value → Member
  object : List (String × Value) → Member

-- json.Marshal of the maps of convertEvent, of a reply and of an error; `none` is an error.
pub record Printer : Type 0 where
  pub print_members : List (String × Member) → Option String
  pub print_reply : Reply → Option String
  pub print_error : Error → Option String

-- BroadcastRsp and SendToUserRsp
pub record Delivered : Type 0 where
  pub error_code : ErrorCode
  pub success : Bool

-- anyEvent.UnmarshalTo for the two types that are known: an error for a message of another type.
abbrev as_round_state : Event → Option RoundStateBrc
as_round_state (round_state b) = some b
as_round_state _ = none

abbrev as_settlement : Event → Option SettlementBrc
as_settlement (settlement b) = some b
as_settlement _ = none

abbrev with_text : Option String → (String → Manager → Manager) → Manager → Manager
with_text none f m = m
with_text (some t) f m = f t m

module _ (printer : Printer) where
  unfoldable pub local_convert_event : String → Event → Option String
  local_convert_event game (round_state e) =
      let final_data =
        (("round_id", text e.round_id)
          ∷ ("state", text (state_name e.state))
          ∷ ("betting_end_timestamp", number e.betting_end_timestamp)
          ∷ ("left_time", number e.left_time)
          ∷ []) in
      printer.print_members (
        ("game_code", plain (text game))
        ∷ ("command", plain (text "ColorGameRoundStateBRC"))
        ∷ ("data", object final_data)
        ∷ [])
  local_convert_event game (settlement e) =
      let final_data =
        (("round_id", text e.round_id)
          ∷ ("winning_color", text (reward_name e.winning_color))
          ∷ ("bet_id", text e.bet_id)
          ∷ ("bet_color", text (reward_name e.bet_color))
          ∷ ("bet_amount", number e.bet_amount)
          ∷ ("win_amount", number e.win_amount)
          ∷ ("is_winner", flag e.is_winner)
          ∷ []) in
      printer.print_members (
        ("game_code", plain (text game))
        ∷ ("command", plain (text "ColorGameSettlementBRC"))
        ∷ ("data", object final_data)
        ∷ [])
  local_convert_event game other_event = none

  unfoldable pub local_broadcast : String → Event → Manager → Manager
  unfolding local_convert_event broadcast
  local_broadcast game e m = with_text (local_convert_event game e) broadcast m

  unfoldable pub local_send_to_user : ℕ → String → Event → Manager → Manager
  unfolding local_convert_event send_to_user
  local_send_to_user user game e m = with_text (local_convert_event game e) (send_to_user user) m

  convert_settlement : String → Option SettlementBrc → Option String
  convert_settlement game (some brc) =
      let final_data =
        (("round_id", text brc.round_id)
          ∷ ("winning_color", text (reward_name brc.winning_color))
          ∷ ("bet_id", text brc.bet_id)
          ∷ ("bet_color", text (reward_name brc.bet_color))
          ∷ ("bet_amount", number brc.bet_amount)
          ∷ ("win_amount", number brc.win_amount)
          ∷ ("is_winner", flag brc.is_winner)
          ∷ []) in
      printer.print_members (
        ("game_code", plain (text game))
        ∷ ("command", plain (text "ColorGameSettlementBRC"))
        ∷ ("data", object final_data)
        ∷ [])
  convert_settlement game none = none

  convert_state : String → RoundStateBrc → Option String
  convert_state game brc =
      let final_data =
        (("round_id", text brc.round_id)
          ∷ ("state", text (state_name brc.state))
          ∷ ("betting_end_timestamp", number brc.betting_end_timestamp)
          ∷ ("left_time", number brc.left_time)
          ∷ []) in
      printer.print_members (
        ("game_code", plain (text game))
        ∷ ("command", plain (text "ColorGameRoundStateBRC"))
        ∷ ("data", object final_data)
        ∷ [])

  -- Each type is tried in turn.
  unfoldable pub grpc_convert_event : String → Event → Option String
  unfolding convert_state convert_settlement
  grpc_convert_event game e = elim (as_round_state e) [
    | some brc ↦ convert_state game brc
    | none ↦ convert_settlement game (as_settlement e)
  ]

  abbrev delivered : Delivered
  delivered = record { error_code = success; success = true }

  -- `none` is a request with no event.
  unfoldable pub grpc_broadcast : String → Option Event → Manager → Delivered × Manager
  unfolding grpc_convert_event broadcast
  grpc_broadcast game none m = (delivered, m)
  grpc_broadcast game (some e) m = (delivered, with_text (grpc_convert_event game e) broadcast m)

  unfoldable pub grpc_send_to_user : ℕ → String → Option Event → Manager → Delivered × Manager
  unfolding grpc_convert_event send_to_user
  grpc_send_to_user user game none m = (delivered, m)
  grpc_send_to_user user game (some e) m =
      (delivered, with_text (grpc_convert_event game e) (send_to_user user) m)

-- What HandleWebSocket answers: 401, nothing after a failed upgrade, or a connection.
pub data Upgrade : Type 0 where
  refused_401 : Upgrade
  not_upgraded : Upgrade
  connected : ℕ → Upgrade

module _ {S : Type 0} (validate : String → Exec S ℕ) where
  upgraded : Bool → ℕ → Manager → Upgrade × Manager
  unfolding register
  upgraded true user m = (connected user, register user m)
  upgraded false user m = (not_upgraded, m)

  validated : Bool → Result ℕ × S → Manager → Upgrade × (S × Manager)
  unfolding upgraded
  validated upgrades (err e, s) m = (refused_401, (s, m))
  validated upgrades (ok user, s) m = let (u, m') = upgraded upgrades user m in (u, (s, m'))

  -- `validate` answers the user's ID, `upgrades` is whether the upgrade succeeds.
  unfoldable pub handle_web_socket : String → Bool → S × Manager → Upgrade × (S × Manager)
  unfolding validated
  handle_web_socket token upgrades (s, m) =
      if token == "" then (refused_401, (s, m)) else validated upgrades (validate token s) m

module _ {S : Type 0} (texts : Texts) (svc : GsService S) (printer : Printer) where
  unfoldable pub print_answer : Result Reply → Option String
  print_answer (ok r) = printer.print_reply r
  print_answer (err e) = printer.print_error e

  -- What ReadPump is given to do with a message of a user.
  unfoldable pub handle_frame : ℕ → String → S × Manager → S × Manager
  unfolding print_answer handle_message send_to_user
  handle_frame user message (s, m) =
      let (r, s') = handle_message texts svc user message s in
      (s', with_text (print_answer r) (send_to_user user) m)
