-- ===== src/Logs.antt =====
-- The buffered writer of log lines: pkg/logger/smart_writer.go. bufio.Writer and bytes.Contains are
-- parameters; a method holds the mutex and is one step.
pub mod Delivered
pub mod Requests
mod Tests
use game_production.Common.{
  ℕ, String, Bool, true, false, ◌||◌, List, [], ◌∷◌, Option, none, some, Error, Result, ok, err,
  Exec, if◌then◌else◌,
}

abbrev pub Bytes : Type 0
Bytes = List ℕ

-- Write answers the number of bytes and an error; Flush an error.
pub record BufWriter (B : Type 0) : Type 0 where
  pub write : Bytes → B → (ℕ × Option Error) × B
  pub flush : Exec B (Unit {0})
  pub contains : Bytes → String → Bool

-- `stopped` is whether stopChan is closed, and the background flusher at its end.
pub record SmartWriter (B : Type 0) : Type 0 where
  pub buffer : B
  pub stopped : Bool

unfoldable pub new_smart_writer : {B : Type 0} → B → SmartWriter B
new_smart_writer b = record { buffer = b; stopped = false }

-- What happens to an open writer: a log line, a tick of the flusher or a call of Sync.
pub data Action : Type 0 where
  logs : Bytes → Action
  ticks syncs : Action

module _ {B : Type 0} (bufio : BufWriter B) where
  unfoldable pub is_error : Bytes → Bool
  is_error p = bufio.contains p "\"level\":\"error\"" || bufio.contains p "\"level\":\"fatal\""

  -- The flush's error is dropped.
  unfoldable pub write_log : Bytes → SmartWriter B → (ℕ × Option Error) × SmartWriter B
  unfolding is_error
  write_log p w =
      let (answer, b) = bufio.write p w.buffer in
      (answer, record w { buffer = if is_error p then (bufio.flush b).1 else b })

  unfoldable pub sync : Exec (SmartWriter B) (Unit {0})
  sync w = let (r, b) = bufio.flush w.buffer in (r, record w { buffer = b })

  unfoldable pub close_writer : Exec (SmartWriter B) (Unit {0})
  unfolding sync
  close_writer w = sync (record w { stopped = true })

  -- A tick of the flusher, which goes on until the writer is closed.
  unfoldable pub tick : SmartWriter B → SmartWriter B
  unfolding sync
  tick w = if w.stopped then w else (sync w).1

  unfoldable pub act : Action → SmartWriter B → SmartWriter B
  unfolding write_log tick sync
  act (logs p) w = (write_log p w).1
  act ticks w = tick w
  act syncs w = (sync w).1

  unfoldable pub run : List Action → SmartWriter B → SmartWriter B
  unfolding act
  run [] w = w
  run (a ∷ rest) w = run rest (act a w)
