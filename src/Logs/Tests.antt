-- ===== src/Logs/Tests.antt =====
-- A buffer that is flushed by hand only.
mod Requests
use game_production.Common.{false, List, [], ◌∷◌, ◌++◌, none, ok, ◌≡◌, refl, length}
use game_production.Logs.{
  Bytes, BufWriter, SmartWriter, Action, logs, ticks, new_smart_writer, run, close_writer,
}
use game_production.Logs.Delivered.{TakesAll, closed_writer_complete}

record Buffer : Type 0 where
  pub out : Bytes
  pub pending : Bytes

abbrev bufio : BufWriter Buffer
bufio = record {
  write = λ p b. ((length p, none), record b { pending = b.pending ++ p });
  flush = λ b. (ok tt, record { out = b.out ++ b.pending; pending = [] });
  contains = λ p word. false;
}

bufio-TakesAll : TakesAll bufio
bufio-TakesAll = record {
  out = λ b. b.out;
  pending = λ b. b.pending;
  written = λ p b. refl;
  flushed_out = λ b. refl;
  flushed_pending = λ b. refl;
}

abbrev lines : List Action
lines = logs (1 ∷ []) ∷ ticks ∷ logs (2 ∷ 3 ∷ []) ∷ []

abbrev opened : SmartWriter Buffer
unfolding new_smart_writer
opened = new_smart_writer (record { out = 9 ∷ []; pending = [] })

closed_writer_complete_example :
    (close_writer bufio (run bufio lines opened)).1.buffer.out ≡ 9 ∷ 1 ∷ 2 ∷ 3 ∷ []
unfolding opened close_writer bufio-TakesAll
closed_writer_complete_example = closed_writer_complete bufio bufio-TakesAll lines opened
