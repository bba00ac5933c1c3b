-- ===== src/Bets.antt =====
-- Bets and bet orders: internal/modules/color_game/gs/domain/bet.go and bet_order.go. Bets are shared
-- by pointers: a pointer is a position in the heap of bets, which only grows.
use game_production.Common.{ℕ, String, List, Option, get_elem?, or_else}
use game_production.Clock.{Time, zero_time}
use game_production.Proto.{Reward, unspecified}

pub record Bet : Type 0 where
  pub bet_id : String
  pub round_id : String
  pub user_id : ℕ
  pub color : Reward
  pub amount : ℕ
  pub time : Time

abbrev pub BetPtr : Type 0
BetPtr = ℕ

abbrev pub Heap : Type 0
Heap = List Bet

-- Every pointer that the program holds lies in the heap; elsewhere this is the zero bet.
abbrev pub zero_bet : Bet
zero_bet = record {
  bet_id = "";
  round_id = "";
  user_id = 0;
  color = unspecified;
  amount = 0;
  time = zero_time;
}

abbrev pub deref : Heap → BetPtr → Bet
deref h p = or_else (get_elem? h p) zero_bet

-- &Bet{...} of NewBet: `id` is what `generateBetID` answered.
unfoldable pub new_bet : String → String → ℕ → Reward → ℕ → Time → Bet
new_bet id round user color amount now = record {
  bet_id = id;
  round_id = round;
  user_id = user;
  color = color;
  amount = amount;
  time = now;
}

pub data BetOrderStatus : Type 0 where
  pending settled : BetOrderStatus

pub record BetOrder (F : Type 0) : Type 0 where
  pub order_id : String
  pub user_id : ℕ
  pub round_id : String
  pub game_code : String
  pub bet_area : String
  pub amount : F
  pub payout : F
  pub status : BetOrderStatus
  pub created_at : Time
  pub settled_at : Option Time
