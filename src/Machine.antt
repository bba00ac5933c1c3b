-- ===== src/Machine.antt =====
-- The state machine of the GMS: internal/modules/color_game/gms/machine/state_machine.go.
-- `Start` and `runRound` are one goroutine that sleeps between phases: `Pc` says where it sleeps, and
-- `resume` runs it from there to the next sleep. In between other goroutines call the methods, and
-- workers take jobs. `runRound` holds a pointer to `currentRound`, which nothing else replaces, so
-- its writes are writes to that field.
mod Defs
pub mod System
pub mod Phases
pub mod Stopping
pub mod Results
pub mod Shutdown
mod Tests
pub use Defs.{
  EventData, nothing, at_time, reward, GameEvent, Pc, at_top, in_wait, in_betting, in_drawing,
  in_result, in_rest, finished, Handler, StateMachine, Wake, RoundView,
}
unfoldable pub use Defs.{
  new_state_machine, register_event_handler, emit_event, stop, segment, resume, get_current_round,
  can_accept, draw_result,
}
