-- ===== src/Gms.antt =====
-- The game management service.
mod Defs
pub mod Counting
pub mod Events
pub mod Rounds
mod Tests
pub use Defs.{
  Counts, Gms, RoundStateBrc, RoundStatus, in_progress, ended, Call, broadcasts, creates, updates,
  settles, Wiring, RoundInfo,
}
unfoldable pub use Defs.{
  no_counts, count_of, players_of, amount_of, add_bet, handle_game_event, increment_bet_count,
  gms_current_round, record_bet, local_record_bet, grpc_record_bet, local_current_round,
  grpc_current_round,
}
