-- ===== src/Round.antt =====
-- A round of the game: internal/modules/color_game/gms/domain/round.go. `now` is `time.Now()`.
use game_production.Common.{ℕ, ◌+◌, String, Bool, ◌&&◌, ltb}
use game_production.Clock.{Time, zero_time}
use game_production.Proto.{
  Reward, unspecified, GameState, round_started, betting, drawing, result, same_state,
}

pub record Round : Type 0 where
  pub round_id : String
  pub state : GameState
  pub outcome : Reward  -- the field Result
  pub start_time : Time
  pub betting_end : Time
  pub total_bets : ℕ
  pub left_time : ℕ

unfoldable pub new_round : String → Time → Round
new_round id now = record {
  round_id = id;
  state = round_started;
  outcome = unspecified;
  start_time = now;
  betting_end = zero_time;
  total_bets = 0;
  left_time = 0;
}

unfoldable pub start_betting : ℕ → Time → Round → Round
start_betting duration now r = record r { state = betting; betting_end = now + duration }

unfoldable pub can_accept_bet : Time → Round → Bool
can_accept_bet now r = same_state r.state betting && ltb now r.betting_end

unfoldable pub draw : Reward → Round → Round
draw c r = record r { state = drawing; outcome = c }

unfoldable pub show_result : Round → Round
show_result r = record r { state = result }

unfoldable pub is_finished : Round → Bool
is_finished r = same_state r.state result
