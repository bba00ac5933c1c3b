-- ===== src/Admin.antt =====
-- The admin server that each service runs: pkg/admin/server.go. The profilers of Go's runtime, the
-- stream and the wait are parameters over the state `S`; a profile's buffer is what its profiler
-- answers when it stops.
mod Chunks
pub mod Released
pub mod Delivered
pub mod Sized
mod Tests
use game_production.Common.{
  ℕ, zero, suc, ◌+◌, ◌-◌, ◌*◌, String, Option, none, some, List, [], ◌∷◌, ltb, length, is_positive,
  Error, wrapped, Result, ok, err, Exec, ◌>>=◌, ◌>>◌, pure, fail, or_wrap, or_else, if◌then◌else◌,
}
use game_production.Rpc.Profiles.{
  DataType, cpu_profile, trace_data, heap_snapshot, goroutine_dump, block_profile, mutex_profile,
  Chunk,
}

abbrev pub Bytes : Type 0
Bytes = List ℕ

-- `lookup` is pprof.Lookup with WriteTo, whose error is dropped; `wait` is the select on time.After and
-- the context, and fails if the client has cancelled.
pub record Runtime (S : Type 0) : Type 0 where
  pub set_block_rate : ℕ → S → S
  pub set_mutex_fraction : ℕ → S → S
  pub start_cpu : Exec S (Unit {0})
  pub stop_cpu : S → Bytes × S
  pub start_trace : Exec S (Unit {0})
  pub stop_trace : S → Bytes × S
  pub wait : ℕ → Exec S (Unit {0})
  pub write_heap : Exec S Bytes
  pub lookup : String → S → Option Bytes × S
  pub hostname : S → String × S
  pub now : S → ℕ × S
  pub send : Chunk → Exec S (Unit {0})

-- The six buffers, with the time and the name that each chunk carries.
pub record Buffers : Type 0 where
  pub timestamp : ℕ
  pub hostname : String
  pub cpu : Bytes
  pub trace : Bytes
  pub heap : Bytes
  pub goroutine : Bytes
  pub block : Bytes
  pub mutex : Bytes

abbrev pub chunk_size : ℕ
chunk_size = 32768

-- time.Second
abbrev pub second : ℕ
second = 1000000000

-- `seconds` is the pattern of an int64: 30 seconds if it is not positive.
unfoldable pub wait_time : ℕ → ℕ
wait_time seconds = if is_positive seconds then seconds * second else 30 * second

-- A slice data[i:end], and the end of the slice that starts at i.
unfoldable pub slice : ℕ → ℕ → Bytes → Bytes
slice i end [] = []
slice zero zero (b ∷ bs) = []
slice zero (suc end) (b ∷ bs) = b ∷ slice zero end bs
slice (suc i) zero (b ∷ bs) = []
slice (suc i) (suc end) (b ∷ bs) = slice i end bs

unfoldable pub end_of : ℕ → ℕ → ℕ
end_of i n = if ltb n (i + chunk_size) then n else i + chunk_size

module _ {S : Type 0} (r : Runtime S) where
  -- A call that cannot fail.
  abbrev always : {A : Type 0} → (S → A × S) → Exec S A
  always m s = let (a, s') = m s in (ok a, s')

  abbrev calls : (S → S) → Exec S (Unit {0})
  calls f s = (ok tt, f s)

  -- The loop of sendData from the index i on, for `rounds` turns at most.
  unfoldable pub send_from : ℕ → ℕ → DataType → Buffers → Bytes → Exec S (Unit {0})
  unfolding slice end_of
  send_from zero i d b bs = pure tt
  send_from (suc rounds) i d b bs =
      let rest = do
        r.send (record {
          timestamp = b.timestamp;
          service_name = b.hostname;
          data_type = d;
          bytes = slice i (end_of i (length bs)) bs;
        })
        send_from rounds (i + chunk_size) d b bs
      in if ltb i (length bs) then rest else pure tt

  -- One turn more than bytes, of which each turn but the last sends at least one.
  unfoldable pub send_bytes : DataType → Buffers → Bytes → Exec S (Unit {0})
  unfolding send_from
  send_bytes d b bs = send_from (suc (length bs)) 0 d b bs

  unfoldable pub send_buffers : Buffers → Exec S (Unit {0})
  unfolding send_bytes
  send_buffers b = do
    send_bytes cpu_profile b b.cpu
    send_bytes trace_data b b.trace
    send_bytes heap_snapshot b b.heap
    send_bytes goroutine_dump b b.goroutine
    send_bytes block_profile b b.block
    send_bytes mutex_profile b b.mutex

  -- The snapshots, after both profilers have stopped.
  unfoldable pub snapshots : Bytes → Bytes → Exec S Buffers
  snapshots cpu trace = do
    heap ← or_wrap "could not write heap profile" r.write_heap
    goroutine ← always (r.lookup "goroutine")
    block ← always (r.lookup "block")
    mutex ← always (r.lookup "mutex")
    hostname ← always r.hostname
    timestamp ← always r.now
    pure (record {
      timestamp = timestamp;
      hostname = hostname;
      cpu = cpu;
      trace = trace;
      heap = heap;
      goroutine = or_else goroutine [];
      block = or_else block [];
      mutex = or_else mutex [];
    })

  -- Both ends of the select stop both profilers; only the first goes on.
  after_wait : Result (Unit {0}) → Exec S Buffers
  unfolding snapshots
  after_wait (ok _) = do cpu ← always r.stop_cpu; trace ← always r.stop_trace; snapshots cpu trace
  after_wait (err e) = do always r.stop_cpu; always r.stop_trace; fail e

  unfoldable pub waited : ℕ → Exec S Buffers
  unfolding after_wait wait_time
  waited seconds s = let (answer, s') = r.wait (wait_time seconds) s in after_wait answer s'

  after_trace : ℕ → Result (Unit {0}) → Exec S Buffers
  unfolding waited
  after_trace seconds (ok _) = waited seconds
  after_trace seconds (err e) = do always r.stop_cpu; fail (wrapped "could not start trace" e)

  unfoldable pub traced : ℕ → Exec S Buffers
  unfolding after_trace
  traced seconds s = let (answer, s') = r.start_trace s in after_trace seconds answer s'

  -- From the start of the CPU profile to the last buffer.
  unfoldable pub capture : ℕ → Exec S Buffers
  unfolding traced
  capture seconds = do or_wrap "could not start CPU profile" r.start_cpu; traced seconds

  unfoldable pub enable_rates : S → S
  enable_rates s = r.set_mutex_fraction 1 (r.set_block_rate 1 s)

  -- The deferred function.
  unfoldable pub restore_rates : S → S
  restore_rates s = r.set_mutex_fraction 0 (r.set_block_rate 0 s)

  unfoldable pub body : ℕ → Exec S (Unit {0})
  unfolding capture send_buffers
  body seconds = do b ← capture seconds; send_buffers b

  unfoldable pub collect_performance_data : ℕ → Exec S (Unit {0})
  unfolding body enable_rates restore_rates
  collect_performance_data seconds s =
      let (answer, s') = body seconds (enable_rates s) in (answer, restore_rates s')
