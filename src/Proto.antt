-- ===== src/Proto.antt =====
-- Enumerations of shared/proto/colorgame/colorgame.proto and shared/proto/common/common.proto, by
-- their declared values.
use game_production.Common.{ℕ, String, ◌≡◌, ◌↔◌, Bool, true, arith, Key, eqb}

pub data Reward : Type 0 where
  unspecified red green blue yellow : Reward

pub data GameState : Type 0 where
  no_state round_started betting drawing result round_ended stopped : GameState

pub data ErrorCode : Type 0 where
  success unknown_error invalid_params unauthorized not_found internal_error invalid_credentials
        token_expired user_already_exists user_banned user_suspended insufficient_balance
        transaction_failed game_closed round_not_active invalid_bet_amount invalid_bet_option
        already_bet room_full maintenance_mode rate_limit_exceeded :
      ErrorCode

-- The number that stands for a colour on the wire and in comparisons.
abbrev pub reward_number : Reward → ℕ
reward_number unspecified = 0
reward_number red = 1
reward_number green = 2
reward_number blue = 3
reward_number yellow = 4

abbrev pub state_number : GameState → ℕ
state_number no_state = 0
state_number round_started = 1
state_number betting = 2
state_number drawing = 3
state_number result = 4
state_number round_ended = 5
state_number stopped = 6

abbrev pub code_number : ErrorCode → ℕ
code_number success = 0
code_number unknown_error = 1
code_number invalid_params = 2
code_number unauthorized = 3
code_number not_found = 4
code_number internal_error = 5
code_number invalid_credentials = 100
code_number token_expired = 101
code_number user_already_exists = 102
code_number user_banned = 103
code_number user_suspended = 104
code_number insufficient_balance = 200
code_number transaction_failed = 201
code_number game_closed = 300
code_number round_not_active = 301
code_number invalid_bet_amount = 302
code_number invalid_bet_option = 303
code_number already_bet = 304
code_number room_full = 305
code_number maintenance_mode = 400
code_number rate_limit_exceeded = 401

abbrev pub same_reward : Reward → Reward → Bool
same_reward a b = eqb (reward_number a) (reward_number b)

pub same_reward_iff : (a b : Reward) → (same_reward a b ≡ true) ↔ (a ≡ b)
same_reward_iff a b = ground arith

instance abbrev pub reward_key : Key Reward
reward_key = record { same = same_reward; same_iff = same_reward_iff }

abbrev pub same_state : GameState → GameState → Bool
same_state a b = eqb (state_number a) (state_number b)

pub same_state_iff : (a b : GameState) → (same_state a b ≡ true) ↔ (a ≡ b)
same_state_iff a b = ground arith

-- ColorGameReward.String
unfoldable pub reward_name : Reward → String
reward_name unspecified = "REWARD_UNSPECIFIED"
reward_name red = "REWARD_RED"
reward_name green = "REWARD_GREEN"
reward_name blue = "REWARD_BLUE"
reward_name yellow = "REWARD_YELLOW"

-- ColorGameState.String
pub state_name : GameState → String
state_name no_state = "GAME_STATE_UNSPECIFIED"
state_name round_started = "GAME_STATE_ROUND_STARTED"
state_name betting = "GAME_STATE_BETTING"
state_name drawing = "GAME_STATE_DRAWING"
state_name result = "GAME_STATE_RESULT"
state_name round_ended = "GAME_STATE_ROUND_ENDED"
state_name stopped = "GAME_STATE_STOPPED"
