-- ===== src/Gs/Services.antt =====
-- The messages of shared/proto/colorgame/colorgame.proto and the services that a game server calls:
-- pkg/service/*.go, pkg/service/color_game/*.go and gs/domain/bet_repository.go. `S` is the state of
-- all that it reaches, `F` is float64.
use game_production.Common.{ℕ, List, String, Bool, Option, Exec}
use game_production.Clock.{Time}
use game_production.Proto.{Reward, GameState, ErrorCode}
use game_production.Bets.{Bet, BetPtr, BetOrder}

-- ColorGameGetCurrentRoundRsp
pub record RoundRsp : Type 0 where
  pub error_code : ErrorCode
  pub round_id : String
  pub state : GameState
  pub betting_end_timestamp : ℕ
  pub left_time : ℕ

-- ColorGameRecordBetReq
pub record RecordBetReq : Type 0 where
  pub round_id : String
  pub user_id : ℕ
  pub color : Reward
  pub amount : ℕ

-- ColorGameRecordBetRsp, without its text
pub record RecordBetRsp : Type 0 where
  pub error_code : ErrorCode

-- ColorGameSettlementBRC
pub record SettlementBrc : Type 0 where
  pub round_id : String
  pub winning_color : Reward
  pub bet_id : String
  pub bet_color : Reward
  pub bet_amount : ℕ
  pub win_amount : ℕ
  pub is_winner : Bool

-- pkg/service/gateway.go, for the messages of a game server.
pub record Gateway (S : Type 0) : Type 0 where
  pub broadcast : SettlementBrc → S → S
  pub send_to_user : ℕ → SettlementBrc → S → S

pub record Services (F S : Type 0) : Type 0 where
  pub get_current_round : ℕ → Exec S RoundRsp
  pub record_bet : RecordBetReq → Exec S RecordBetRsp
  pub wallet_place_bet : ℕ → ℕ → String → Exec S ℕ
  pub wallet_add_balance : ℕ → ℕ → String → Exec S ℕ
  pub save_bet : BetPtr → Exec S (Unit {0})
  pub get_user_bets : String → ℕ → Exec S (List BetPtr)
  pub clear_bets : String → Exec S (Unit {0})
  pub get_bets_for_settlement : String → Exec S (List BetPtr)
  pub get_user_bet : String → ℕ → Reward → Exec S (Option BetPtr)
  pub update_bet_amount : BetPtr → ℕ → Exec S (Unit {0})
  pub batch_create : Option (List (BetOrder F) → Exec S (Unit {0}))  -- nil in tests
  pub gateway : Option (Gateway S)  -- nil in tests
  pub alloc : Bet → Exec S BetPtr  -- &Bet{...}
  pub read : BetPtr → S → Bet  -- *bet
  pub generate_bet_id : Exec S String
  pub now : S → Time
