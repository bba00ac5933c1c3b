-- ===== src/Pool.antt =====
-- The bounded job queue of the state machine (emitEvent, startWorkers in
-- internal/modules/color_game/gms/machine/state_machine.go) and of the gRPC client (SubmitTask,
-- StartWorker in pkg/grpc_client/base/client.go).
mod Defs
pub mod Jobs
mod Tests
pub use Defs.{Pool}
unfoldable pub use Defs.{new_pool, submit, submit_all, worker_take}
