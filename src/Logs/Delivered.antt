-- ===== src/Logs/Delivered.antt =====
-- That log lines reach the underlying writer in their order.
use mathlib.Core.List.{append-nil, append_assoc}
use game_production.Common.{List, [], ◌∷◌, ◌++◌, ◌≡◌, refl, sym, ◌∙◌, Bool-cases, inl, inr}
use game_production.Logs.{
  Bytes, BufWriter, SmartWriter, Action, logs, ticks, syncs, act, run, write_log, sync, tick,
  close_writer, is_error,
}

-- A bufio.Writer over a writer that takes everything: `out` has reached it and `pending` waits.
pub record TakesAll {B : Type 0} (bufio : BufWriter B) : Type 0 where
  pub out : B → Bytes
  pub pending : B → Bytes
  pub written :
      (p : Bytes) (b : B)
      → out (bufio.write p b).1 ++ pending (bufio.write p b).1 ≡ out b ++ (pending b ++ p)
  pub flushed_out : (b : B) → out (bufio.flush b).1 ≡ out b ++ pending b
  pub flushed_pending : (b : B) → pending (bufio.flush b).1 ≡ []

abbrev pub all_logged : List Action → Bytes
all_logged [] = []
all_logged (logs p ∷ rest) = p ++ all_logged rest
all_logged (ticks ∷ rest) = all_logged rest
all_logged (syncs ∷ rest) = all_logged rest

module _ {B : Type 0} (bufio : BufWriter B) (takes : TakesAll bufio) where
  abbrev pub total : B → Bytes
  total b = takes.out b ++ takes.pending b

  flush-total : (b : B) → total (bufio.flush b).1 ≡ total b
  flush-total b = rw (takes.flushed_out b, takes.flushed_pending b) (append-nil (total b))

  write_log-total :
      (p : Bytes) (w : SmartWriter B) → total (write_log bufio p w).1.buffer ≡ total w.buffer ++ p
  unfolding write_log
  write_log-total p w =
      let b = (bufio.write p w.buffer).1 in
      let there : total b ≡ total w.buffer ++ p =
        takes.written p w.buffer
        ∙ sym (append_assoc (takes.out w.buffer) (takes.pending w.buffer) p) in
      elim (Bool-cases (is_error bufio p)) [
        | inl e ↦ rw e (flush-total b ∙ there)
        | inr e ↦ rw e there
      ]

  tick-total : (w : SmartWriter B) → total (tick bufio w).buffer ≡ total w.buffer
  unfolding tick
  tick-total w = elim (Bool-cases w.stopped) [
    | inl e ↦ rw e refl
    | inr e ↦ rw e (flush-total w.buffer)
  ]

  run-total :
      (actions : List Action) (w : SmartWriter B)
      → total (run bufio actions w).buffer ≡ total w.buffer ++ all_logged actions
  unfolding run act
  run-total [] w = sym (append-nil (total w.buffer))
  run-total (logs p ∷ rest) w =
      run-total rest (write_log bufio p w).1
      ∙ rw (write_log-total p w) (append_assoc (total w.buffer) p (all_logged rest))
  run-total (ticks ∷ rest) w = run-total rest (tick bufio w) ∙ rw (tick-total w)
  run-total (syncs ∷ rest) w = run-total rest (sync bufio w).1 ∙ rw (flush-total w.buffer)

  -- Over a writer that takes everything, once a log writer is closed all lines that were logged have
  -- reached the underlying writer, in their order and behind what was there, however log lines, ticks of
  -- the flusher and calls of Sync alternated.
  pub closed_writer_complete :
      (actions : List Action) (w : SmartWriter B)
      → takes.out (close_writer bufio (run bufio actions w)).1.buffer
        ≡ (takes.out w.buffer ++ takes.pending w.buffer) ++ all_logged actions
  unfolding close_writer sync
  closed_writer_complete actions w =
      takes.flushed_out (run bufio actions w).buffer ∙ run-total actions w
