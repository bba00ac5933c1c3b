-- ===== src/Machine/Tests/Shutdown.antt =====
-- A graceful shutdown at the start of a round, with a handler that hears the rest of it.
use game_production.Common.{ℕ, ◌*◌, ◌≡◌, refl, ok, List, [], ◌∷◌, length, arith}
use game_production.Clock.{second}
use game_production.Pool.{worker_take, submit_all, submit, new_pool}
use game_production.Machine.Defs.{
  finished, new_state_machine, segment, emit_event, stop, register_event_handler,
}
use game_production.Machine.System.{registers, takes, start, act, run}
use game_production.Machine.Tests.{label, at_second}
use game_production.Machine.Shutdown.{
  Draining, Step, does, returns, graceful_shutdown, stopping, step, is_drained,
}
use game_production.Machine.Shutdown.Completes.{OnTime, run_steps, shutdown_completes}

abbrev round_begun : Draining
unfolding run
round_begun = record { system = run label start (at_second 0 ∷ []); returned = 0 }

-- A job is taken, and its handler returns in the second given.
abbrev handled : ℕ → List Step → List Step
handled n rest = does takes ∷ returns (n * second) ∷ rest

abbrev to_end : List Step
to_end =
    does (registers 2)
    ∷ does (at_second 2)
    ∷ handled 3 (
        does (at_second 12)
        ∷ handled 12 (
            does (at_second 14)
            ∷ handled 15 (
                does (at_second 19)
                ∷ does (at_second 22)
                ∷ does (at_second 22)
                ∷ handled 23 (handled 25 []))))

to_end-OnTime : OnTime label second 0 to_end (stopping round_begun)
unfolding run act segment start new_state_machine emit_event stop register_event_handler stopping
    step
to_end-OnTime = omega arith

shutdown_completes_example :
    let (answer, t) = graceful_shutdown label (30 * second) 0 to_end round_begun in
    (answer ≡ ok tt)
    × (t.system.machine.pc ≡ finished)
    × (length t.system.machine.jobs.queue ≡ 0)
    × (length t.system.machine.jobs.taken ≡ t.returned)
unfolding run act segment start new_state_machine emit_event stop register_event_handler stopping
    step run_steps is_drained worker_take submit_all submit new_pool
shutdown_completes_example =
    shutdown_completes label 0 to_end round_begun (refl, refl, refl, refl, refl) to_end-OnTime
      (omega arith) (omega arith) refl
