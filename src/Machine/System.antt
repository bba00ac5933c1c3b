-- ===== src/Machine/System.antt =====
-- The state machine among the goroutines that share it: the game loop wakes, somebody cancels the
-- context of `Start`, calls `Stop` or `RegisterEventHandler`, or a worker takes a job. A run is a list
-- of such actions, in any order. `log` is a history variable: the events emitted, newest first.
use game_production.Common.{ℕ, String, Bool, true, false, Option, none, some, List, [], ◌∷◌}
use game_production.Clock.{Time}
use game_production.Pool.{worker_take}
use game_production.Machine.Defs.{
  GameEvent, Handler, StateMachine, Wake, new_state_machine, register_event_handler, emit_event,
  stop, segment,
}

pub record System : Type 0 where
  pub machine : StateMachine
  pub cancelled : Bool
  pub log : List GameEvent

pub data Action : Type 0 where
  wakes : Time → Time → ℕ → Action
  cancels : Action
  stops : Action
  registers : Handler → Action
  takes : Action

unfoldable pub start : System
start = record { machine = new_state_machine; cancelled = false; log = [] }

logged : Option GameEvent → List GameEvent → List GameEvent
logged none l = l
logged (some e) l = e ∷ l

emitted : Option GameEvent → StateMachine → StateMachine
emitted none m = m
emitted (some e) m = emit_event e m

module _ (format : Time → String) where
  unfoldable pub act : Action → System → System
  unfolding emitted logged
  act (wakes now later pick) s =
      let w : Wake = record { now = now; later = later; cancelled = s.cancelled; pick = pick } in
      let (m, e) = segment format w s.machine in
      record s { machine = emitted e m; log = logged e s.log }
  act cancels s = record s { cancelled = true }
  act stops s = record s { machine = stop s.machine }
  act (registers h) s = record s { machine = register_event_handler h s.machine }
  act takes s = record s { machine = record (s.machine) { jobs = worker_take s.machine.jobs } }

  unfoldable pub run : System → List Action → System
  run s [] = s
  run s (a ∷ rest) = run (act a s) rest
