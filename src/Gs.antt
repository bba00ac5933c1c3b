-- ===== src/Gs.antt =====
-- The game server (GS) of the colour game: `PlaceBet` in Defs, `SettleRound` in Settle, over the
-- services of Services.
pub mod Services
mod Defs
mod Settle
mod Adapters
pub use Defs.{Progress, StateView, batch_size}
pub use Adapters.{PlaceBetRsp, GetStateRsp}
unfoldable pub use Adapters.{handle_place_bet, local_get_state, grpc_get_state, round_result}
unfoldable pub use Defs.{is_valid_color, calculate_win, place_bet}
unfoldable pub use Settle.{
  round_notice, finish_round, settle_bet, settle_bets, process_batch, make_order, flush, take_bet,
  batch_loop, settle_loop, settle_round, get_current_round,
}
