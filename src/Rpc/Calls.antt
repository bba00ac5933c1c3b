-- ===== src/Rpc/Calls.antt =====
-- The clients of the services: pkg/grpc_client/base/wallet.go, pkg/grpc_client/base/user.go and
-- pkg/grpc_client/color_game/client.go. What a service answers at a connection is a parameter, as are
-- the clock and the decimal text of an int64.
use game_production.Common.{
  ℕ, String, concat, Bool, Option, none, some, failure, about, Exec, ◌>>=◌, pure, fail, or_wrap,
  if◌then◌else◌,
}
use game_production.Proto.{Reward, ErrorCode}
use game_production.Gs.{PlaceBetRsp, GetStateRsp}
use game_production.Gs.Services.{RecordBetReq, RecordBetRsp, RoundRsp}
use game_production.User.Accounts.{TokenAnswer}
use game_production.User.Handlers.{ValidateTokenRsp}
use game_production.Rpc.Client.{Conn, Registry, Net, get_lb_conn, on_outside}

-- WithdrawReq and DepositReq
pub record TransferReq : Type 0 where
  pub player_id : ℕ
  pub amount : ℕ
  pub tx_id : String
  pub metadata : String

pub record WalletBetReq : Type 0 where
  pub player_id : ℕ
  pub amount : ℕ
  pub game_round_id : String
  pub tx_id : String

-- GetBalanceRsp, WithdrawRsp, DepositRsp and PlaceBetRsp of the wallet.
pub record WalletRsp : Type 0 where
  pub new_balance : ℕ
  pub success : Bool
  pub message : String

pub record Remote (S : Type 0) : Type 0 where
  pub get_balance : Conn → ℕ → Exec S WalletRsp
  pub withdraw : Conn → TransferReq → Exec S WalletRsp
  pub deposit : Conn → TransferReq → Exec S WalletRsp
  pub wallet_bet : Conn → WalletBetReq → Exec S WalletRsp
  pub validate_token : Conn → String → Exec S ValidateTokenRsp
  pub record_bet : Conn → RecordBetReq → Exec S RecordBetRsp
  pub get_current_round : Conn → ℕ → Exec S RoundRsp
  pub place_bet : Conn → ℕ → Reward → ℕ → Exec S PlaceBetRsp
  pub get_state : Conn → ℕ → Exec S GetStateRsp
  pub round_result : Conn → String → Reward → Exec S ErrorCode
  pub unix_nano : S → ℕ
  pub decimal : ℕ → String

-- A message with no fields set reads as zeros.
unfoldable pub token_answer : Option TokenAnswer → TokenAnswer
token_answer (some a) = a
token_answer none = record { user_id = 0; username = ""; exp = 0 }

module _ {S : Type 0} (remote : Remote S) where
  tx_now : String → ℕ → S → String
  tx_now kind user s =
      concat kind (concat (remote.decimal user) (concat "-" (remote.decimal (remote.unix_nano s))))

  transfer_req : String → ℕ → ℕ → String → S → TransferReq
  unfolding tx_now
  transfer_req kind user amount reason s = record {
    player_id = user;
    amount = amount;
    tx_id = tx_now kind user s;
    metadata = concat "{\"reason\": \"" (concat reason "\"}");
  }

  unfoldable pub wallet_bet_req : ℕ → ℕ → String → WalletBetReq
  wallet_bet_req user amount round = record {
    player_id = user;
    amount = amount;
    game_round_id = round;
    tx_id = concat "bet-" (concat (remote.decimal user) (concat "-" round));
  }

module _ {S T : Type 0} (registry : Registry S) (remote : Remote S) where
  -- One call of a service, through a connection to one of its instances. `pick` is the random number.
  unfoldable pub call : {A : Type 0} → ℕ → String → (Conn → Exec S A) → Exec (Net S T) A
  unfolding get_lb_conn
  call pick service rpc = do
    conn ← get_lb_conn registry pick service
    on_outside registry (rpc conn)

  -- The call of an RPC whose own error is wrapped: the client is found first.
  unfoldable pub call_wrapped :
      {A : Type 0} → ℕ → String → String → (Conn → Exec S A) → Exec (Net S T) A
  unfolding get_lb_conn
  call_wrapped pick service text rpc = do
    conn ← get_lb_conn registry pick service
    or_wrap text (on_outside registry (rpc conn))

  answered : WalletRsp → Exec (Net S T) ℕ
  answered rsp =
      if rsp.success then pure rsp.new_balance else fail (about "wallet error" rsp.message)

  unfoldable pub wallet_get_balance : ℕ → ℕ → Exec (Net S T) ℕ
  unfolding call_wrapped answered
  wallet_get_balance pick user = do
    rsp ←
        call_wrapped pick "wallet-service" "rpc GetBalance failed" (λ c. remote.get_balance c user)
    answered rsp

  unfoldable pub wallet_deduct_balance : ℕ → ℕ → ℕ → String → Exec (Net S T) ℕ
  unfolding call_wrapped answered transfer_req
  wallet_deduct_balance pick user amount reason = do
    rsp ←
        call_wrapped pick "wallet-service" "rpc Withdraw failed"
          (λ c s. remote.withdraw c (transfer_req remote "deduct-" user amount reason s) s)
    answered rsp

  unfoldable pub wallet_add_balance : ℕ → ℕ → ℕ → String → Exec (Net S T) ℕ
  unfolding call_wrapped answered transfer_req
  wallet_add_balance pick user amount reason = do
    rsp ←
        call_wrapped pick "wallet-service" "rpc Deposit failed"
          (λ c s. remote.deposit c (transfer_req remote "add-" user amount reason s) s)
    answered rsp

  unfoldable pub wallet_place_bet : ℕ → ℕ → ℕ → String → Exec (Net S T) ℕ
  unfolding call_wrapped answered wallet_bet_req
  wallet_place_bet pick user amount round = do
    rsp ←
        call_wrapped pick "wallet-service" "rpc PlaceBet failed"
          (λ c. remote.wallet_bet c (wallet_bet_req remote user amount round))
    answered rsp

  if_valid : ValidateTokenRsp → Exec (Net S T) TokenAnswer
  unfolding token_answer
  if_valid rsp =
      if rsp.valid then pure (token_answer rsp.answer) else fail (failure "token invalid")

  unfoldable pub user_validate_token : ℕ → String → Exec (Net S T) TokenAnswer
  unfolding call_wrapped if_valid
  user_validate_token pick token = do
    rsp ←
        call_wrapped pick "user-service" "rpc ValidateToken failed"
          (λ c. remote.validate_token c token)
    if_valid rsp

  -- The GMS and the game server.
  unfoldable pub gms_record_bet : ℕ → RecordBetReq → Exec (Net S T) RecordBetRsp
  unfolding call
  gms_record_bet pick req = call pick "gms-service" (λ c. remote.record_bet c req)

  unfoldable pub gms_get_current_round : ℕ → ℕ → Exec (Net S T) RoundRsp
  unfolding call
  gms_get_current_round pick user = call pick "gms-service" (λ c. remote.get_current_round c user)

  unfoldable pub gs_place_bet : ℕ → ℕ → Reward → ℕ → Exec (Net S T) PlaceBetRsp
  unfolding call
  gs_place_bet pick user color amount =
      call pick "gs-service" (λ c. remote.place_bet c user color amount)

  unfoldable pub gs_get_state : ℕ → ℕ → Exec (Net S T) GetStateRsp
  unfolding call
  gs_get_state pick user = call pick "gs-service" (λ c. remote.get_state c user)

  unfoldable pub gs_round_result : ℕ → String → Reward → Exec (Net S T) ErrorCode
  unfolding call
  gs_round_result pick round color = call pick "gs-service" (λ c. remote.round_result c round color)
