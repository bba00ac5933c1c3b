-- ===== src/Admin/Released.antt =====
-- What a collection of pkg/admin/server.go leaves behind in the profilers of the process.
use game_production.Common.{
  ℕ, String, Bool, true, false, Result, ok, err, Error, Exec, ◌>>=◌, ◌>>◌, ◌≡◌, refl, ◌∙◌, ap,
  arith, Bool-cases, inl, inr, zero, suc, ◌+◌, length,
}
use game_production.Rpc.Profiles.{
  DataType, Chunk, cpu_profile, trace_data, heap_snapshot, goroutine_dump, block_profile,
  mutex_profile,
}
use game_production.Admin.{
  Runtime, Buffers, Bytes, send_from, send_bytes, send_buffers, snapshots, waited, traced, capture,
  body, collect_performance_data, enable_rates, restore_rates, wait_time, slice, end_of, chunk_size,
}

pub record Status : Type 0 where
  pub cpu : Bool
  pub trace : Bool
  pub block_rate : ℕ
  pub mutex_fraction : ℕ

abbrev pub cpu_after : Result (Unit {0}) → Status → Status
cpu_after (ok _) st = record st { cpu = true }
cpu_after (err _) st = st

abbrev pub trace_after : Result (Unit {0}) → Status → Status
trace_after (ok _) st = record st { trace = true }
trace_after (err _) st = st

-- What the documentation says of the profilers: one that is on is not started again, and stopping one
-- that is on turns it off. Nobody else uses them during the wait.
pub record Profilers {S : Type 0} (r : Runtime S) : Type 0 where
  pub status : S → Status
  pub block_rate_set :
      (n : ℕ) (s : S) → status (r.set_block_rate n s) ≡ record (status s) { block_rate = n }
  pub mutex_fraction_set :
      (n : ℕ) (s : S) → status (r.set_mutex_fraction n s) ≡ record (status s) { mutex_fraction = n }
  pub cpu_started : (s : S) → status (r.start_cpu s).1 ≡ cpu_after (r.start_cpu s).0 (status s)
  pub cpu_refused : (s : S) → (status s).cpu ≡ true → (e : Error) × ((r.start_cpu s).0 ≡ err e)
  pub cpu_stopped : (s : S) → status (r.stop_cpu s).1 ≡ record (status s) { cpu = false }
  pub trace_started :
      (s : S) → status (r.start_trace s).1 ≡ trace_after (r.start_trace s).0 (status s)
  pub trace_refused :
      (s : S) → (status s).trace ≡ true → (e : Error) × ((r.start_trace s).0 ≡ err e)
  pub trace_stopped : (s : S) → status (r.stop_trace s).1 ≡ record (status s) { trace = false }
  pub waiting : (n : ℕ) (s : S) → status (r.wait n s).1 ≡ status s
  pub heap_written : (s : S) → status (r.write_heap s).1 ≡ status s
  pub looked_up : (name : String) (s : S) → status (r.lookup name s).1 ≡ status s
  pub hostname_read : (s : S) → status (r.hostname s).1 ≡ status s
  pub now_read : (s : S) → status (r.now s).1 ≡ status s
  pub sent : (c : Chunk) (s : S) → status (r.send c s).1 ≡ status s

module _ {S : Type 0} (r : Runtime S) (p : Profilers r) where
  open p use {status}

  -- A call that changes nothing in the profilers.
  abbrev Keeps : {A : Type 0} → Exec S A → Type 0
  Keeps m = (s : S) → status (m s).1 ≡ status s

  Keeps->>= :
      {A B : Type 0} (m : Exec S A) (f : A → Exec S B)
      → Keeps m
      → ((a : A) → Keeps (f a))
      → Keeps (m >>= f)
  Keeps->>= {A} {B} m f k l s = go (m s) refl
    where
      go : (q : Result A × S) → m s ≡ q → status ((m >>= f) s).1 ≡ status s
      go (ok a, t) e = ground (arith, e, k s, l a t)
      go (err x, t) e = ground (arith, e, k s)

  send_from-Keeps :
      (n i : ℕ) (d : DataType) (b : Buffers) (bs : Bytes) → Keeps (send_from r n i d b bs)
  unfolding send_from
  send_from-Keeps zero i d b bs s = refl
  send_from-Keeps (suc n) i d b bs s =
      let c : Chunk = record {
        timestamp = b.timestamp;
        service_name = b.hostname;
        data_type = d;
        bytes = slice i (end_of i (length bs)) bs;
      } in
      ground (arith, p.sent c s, send_from-Keeps n (i + chunk_size) d b bs (r.send c s).1)

  then-Keeps : (m n : Exec S (Unit {0})) → Keeps m → Keeps n → Keeps (m >> n)
  then-Keeps m n k l = Keeps->>= m (λ _. n) k (λ _. l)

  send_buffers-Keeps : (b : Buffers) → Keeps (send_buffers r b)
  unfolding send_buffers send_bytes
  send_buffers-Keeps b =
      let last = sends block_profile b.block >> sends mutex_profile b.mutex in
      let later = sends goroutine_dump b.goroutine >> last in
      let rest = sends heap_snapshot b.heap >> later in
      let most = sends trace_data b.trace >> rest in
      then-Keeps (sends cpu_profile b.cpu) most (kept cpu_profile b.cpu) (
        then-Keeps (sends trace_data b.trace) rest (kept trace_data b.trace) (
          then-Keeps (sends heap_snapshot b.heap) later (kept heap_snapshot b.heap) (
            then-Keeps (sends goroutine_dump b.goroutine) last (kept goroutine_dump b.goroutine) (
              then-Keeps (sends block_profile b.block) (sends mutex_profile b.mutex)
                (kept block_profile b.block) (kept mutex_profile b.mutex)))))
    where
      sends : DataType → Bytes → Exec S (Unit {0})
      sends d bs = send_bytes r d b bs

      kept : (d : DataType) (bs : Bytes) → Keeps (sends d bs)
      kept d bs = send_from-Keeps (suc (length bs)) 0 d b bs

  snapshots-Keeps : (cpu trace : Bytes) → Keeps (snapshots r cpu trace)
  unfolding snapshots
  snapshots-Keeps cpu trace s =
      let s1 : S = (r.write_heap s).1 in
      let s2 : S = (r.lookup "goroutine" s1).1 in
      let s3 : S = (r.lookup "block" s2).1 in
      let s4 : S = (r.lookup "mutex" s3).1 in
      let s5 : S = (r.hostname s4).1 in
      ground (
        arith,
        p.heap_written s,
        p.looked_up "goroutine" s1,
        p.looked_up "block" s2,
        p.looked_up "mutex" s3,
        p.hostname_read s4,
        p.now_read s5,
      )

  abbrev off : Status → Status
  off st = record st { cpu = false; trace = false }

  -- Both profilers are on when the wait begins, and off when it is over.
  off_after_wait : (seconds : ℕ) (s : S) → status (waited r seconds s).1 ≡ off (status s)
  unfolding waited
  off_after_wait seconds s = go (r.wait (wait_time seconds) s) refl
    where
      go :
          (q : Result (Unit {0}) × S)
          → r.wait (wait_time seconds) s ≡ q
          → status (waited r seconds s).1 ≡ off (status s)
      go (ok _, t) e =
          let cpu : Bytes = (r.stop_cpu t).0 in
          let t1 : S = (r.stop_cpu t).1 in
          let trace : Bytes = (r.stop_trace t1).0 in
          let t2 : S = (r.stop_trace t1).1 in
          ground (
            arith,
            e,
            p.waiting (wait_time seconds) s,
            p.cpu_stopped t,
            p.trace_stopped t1,
            snapshots-Keeps cpu trace t2,
          )
      go (err x, t) e =
          let t1 : S = (r.stop_cpu t).1 in
          ground (arith, e, p.waiting (wait_time seconds) s, p.cpu_stopped t, p.trace_stopped t1)

  traced_ok :
      (seconds : ℕ) (s t : S) (u : Unit {0})
      → r.start_trace s ≡ (ok u, t)
      → traced r seconds s ≡ waited r seconds t
  unfolding traced
  traced_ok seconds s t u e = rw (e, traced) refl

  traced_err :
      (seconds : ℕ) (s t : S) (x : Error)
      → r.start_trace s ≡ (err x, t)
      → (traced r seconds s).1 ≡ (r.stop_cpu t).1
  unfolding traced
  traced_err seconds s t x e = rw (e, traced) refl

  traced_off :
      (seconds : ℕ) (s : S) → status (traced r seconds s).1 ≡ record (status s) { cpu = false }
  traced_off seconds s = go (r.start_trace s) refl
    where
      go :
          (q : Result (Unit {0}) × S)
          → r.start_trace s ≡ q
          → status (traced r seconds s).1 ≡ record (status s) { cpu = false }
      go (ok u, t) e = elim (Bool-cases (status s).trace) [
        | inl on ↦ absurd (let (x, refused) = p.trace_refused s on in ground (arith, e, refused))
        | inr free ↦
            ap (λ a. status a.1) (traced_ok seconds s t u e)
            ∙ off_after_wait seconds t
            ∙ ground (arith, e, free, p.trace_started s)
      ]
      go (err x, t) e =
          ap status (traced_err seconds s t x e)
          ∙ p.cpu_stopped t
          ∙ ground (arith, e, p.trace_started s)

  capture-Keeps : (seconds : ℕ) → Keeps (capture r seconds)
  unfolding capture
  capture-Keeps seconds s = go (r.start_cpu s) refl
    where
      go :
          (q : Result (Unit {0}) × S)
          → r.start_cpu s ≡ q
          → status (capture r seconds s).1 ≡ status s
      go (ok _, t) e = elim (Bool-cases (status s).cpu) [
        | inl on ↦ absurd (let (x, refused) = p.cpu_refused s on in ground (arith, e, refused))
        | inr free ↦ ground (arith, e, free, p.cpu_started s, traced_off seconds t)
      ]
      go (err x, t) e = ground (arith, e, p.cpu_started s)

  -- However a collection ends, with all data sent, with an error or with a client that has gone, the CPU
  -- profile and the trace run afterwards exactly if they ran before, and the rates of the block and
  -- mutex profiles are 0, also if another collection is running.
  pub collection_leaves_profilers :
      (seconds : ℕ) (s : S)
      → status (collect_performance_data r seconds s).1
        ≡ record (status s) { block_rate = 0; mutex_fraction = 0 }
  unfolding collect_performance_data body enable_rates restore_rates
  collection_leaves_profilers seconds s =
      let s1 : S = r.set_block_rate 1 s in
      let s2 : S = r.set_mutex_fraction 1 s1 in
      let s3 : S = (body r seconds s2).1 in
      let s4 : S = r.set_block_rate 0 s3 in
      ground (
        arith,
        p.block_rate_set 1 s,
        p.mutex_fraction_set 1 s1,
        Keeps->>= (capture r seconds) (send_buffers r) (capture-Keeps seconds) send_buffers-Keeps
            s2,
        p.block_rate_set 0 s3,
        p.mutex_fraction_set 0 s4,
      )
