-- ===== src/Admin/Delivered.antt =====
-- What the client of a collection receives: CollectPerformanceData of pkg/admin/server.go with
-- CollectPerformance of pkg/grpc_client/base/client.go at the other end of the stream.
use mathlib.Core.List.{append-nil, append_assoc}
use game_production.Common.{
  ℕ, zero, suc, ◌+◌, String, none, List, [], ◌∷◌, ◌++◌, length, Result, ok, err, Exec, ◌>>◌, ◌≡◌,
  refl, sym, ap, ◌∙◌, arith, if◌then◌else◌,
}
use game_production.Rpc.Profiles.{
  DataType, cpu_profile, trace_data, heap_snapshot, goroutine_dump, block_profile, mutex_profile,
  unknown, Chunk, Stream, CollectResp, received, received-ending, part, joined, is_of,
  profiles_joined,
}
use game_production.Admin.{
  Bytes, Buffers, Runtime, chunk_size, slice, end_of, send_from, send_bytes, send_buffers, capture,
  body, collect_performance_data, enable_rates, restore_rates, wait_time, traced, waited, snapshots,
}
use game_production.Admin.Chunks
use game_production.Admin.Chunks.{IsSized, chunks_from, chunks_of, joined-append}

abbrev pub handed_after : Result (Unit {0}) → Chunk → List Chunk → List Chunk
handed_after (ok _) c cs = cs ++ c ∷ []
handed_after (err _) c cs = cs

-- The history of the messages handed to the stream, which are those for which Send answers no error; that they
-- arrive is not said.
pub record SendHistory {S : Type 0} (r : Runtime S) : Type 0 where
  pub handed : S → List Chunk
  pub sent : (c : Chunk) (s : S) → handed (r.send c s).1 ≡ handed_after (r.send c s).0 c (handed s)
  pub block_rate_set : (n : ℕ) (s : S) → handed (r.set_block_rate n s) ≡ handed s
  pub mutex_fraction_set : (n : ℕ) (s : S) → handed (r.set_mutex_fraction n s) ≡ handed s
  pub cpu_started : (s : S) → handed (r.start_cpu s).1 ≡ handed s
  pub cpu_stopped : (s : S) → handed (r.stop_cpu s).1 ≡ handed s
  pub trace_started : (s : S) → handed (r.start_trace s).1 ≡ handed s
  pub trace_stopped : (s : S) → handed (r.stop_trace s).1 ≡ handed s
  pub waiting : (n : ℕ) (s : S) → handed (r.wait n s).1 ≡ handed s
  pub heap_written : (s : S) → handed (r.write_heap s).1 ≡ handed s
  pub looked_up : (name : String) (s : S) → handed (r.lookup name s).1 ≡ handed s
  pub hostname_read : (s : S) → handed (r.hostname s).1 ≡ handed s
  pub now_read : (s : S) → handed (r.now s).1 ≡ handed s

-- All chunks of a collection, in their order.
abbrev pub all_chunks : Buffers → List Chunk
all_chunks b =
    chunks_of cpu_profile b b.cpu
    ++ (chunks_of trace_data b b.trace
        ++ (chunks_of heap_snapshot b b.heap
            ++ (chunks_of goroutine_dump b b.goroutine
                ++ (chunks_of block_profile b b.block ++ chunks_of mutex_profile b b.mutex))))

-- The buffer with the data of one type.
abbrev pub buffer : DataType → Buffers → Bytes
buffer cpu_profile b = b.cpu
buffer trace_data b = b.trace
buffer heap_snapshot b = b.heap
buffer goroutine_dump b = b.goroutine
buffer block_profile b = b.block
buffer mutex_profile b = b.mutex
buffer unknown b = []

joined-all_chunks : (k : DataType) (b : Buffers) → joined k (all_chunks b) ≡ buffer k b
joined-all_chunks k b =
    rw
      (
        joined-append k (chunks_of cpu_profile b b.cpu),
        joined-append k (chunks_of trace_data b b.trace),
        joined-append k (chunks_of heap_snapshot b b.heap),
        joined-append k (chunks_of goroutine_dump b b.goroutine),
        joined-append k (chunks_of block_profile b b.block),
        Chunks.joined-chunks_of k cpu_profile b b.cpu,
        Chunks.joined-chunks_of k trace_data b b.trace,
        Chunks.joined-chunks_of k heap_snapshot b b.heap,
        Chunks.joined-chunks_of k goroutine_dump b b.goroutine,
        Chunks.joined-chunks_of k block_profile b b.block,
        Chunks.joined-chunks_of k mutex_profile b b.mutex,
      )
      (pick k)
  where
    pick :
        (k : DataType)
        → (if is_of k cpu_profile then b.cpu else [])
            ++ ((if is_of k trace_data then b.trace else [])
                ++ ((if is_of k heap_snapshot then b.heap else [])
                    ++ ((if is_of k goroutine_dump then b.goroutine else [])
                        ++ ((if is_of k block_profile then b.block else [])
                            ++ (if is_of k mutex_profile then b.mutex else [])))))
          ≡ buffer k b
    pick cpu_profile = append-nil b.cpu
    pick trace_data = append-nil b.trace
    pick heap_snapshot = append-nil b.heap
    pick goroutine_dump = append-nil b.goroutine
    pick block_profile = append-nil b.block
    pick mutex_profile = refl
    pick unknown = refl

module _ {S : Type 0} (r : Runtime S) (d : SendHistory r) where
  open d use {handed}

  pub capture-handed : (seconds : ℕ) (s : S) → handed (capture r seconds s).1 ≡ handed s
  unfolding capture traced waited snapshots
  capture-handed seconds s =
      let s1 : S = (r.start_cpu s).1 in
      let s2 : S = (r.start_trace s1).1 in
      let s3 : S = (r.wait (wait_time seconds) s2).1 in
      let s4 : S = (r.stop_cpu s3).1 in
      let s5 : S = (r.stop_trace s4).1 in
      let s6 : S = (r.write_heap s5).1 in
      let s7 : S = (r.lookup "goroutine" s6).1 in
      let s8 : S = (r.lookup "block" s7).1 in
      let s9 : S = (r.lookup "mutex" s8).1 in
      let s10 : S = (r.hostname s9).1 in
      ground (
        arith,
        d.cpu_started s,
        d.trace_started s1,
        d.cpu_stopped s2,
        d.waiting (wait_time seconds) s2,
        d.cpu_stopped s3,
        d.trace_stopped s4,
        d.heap_written s5,
        d.looked_up "goroutine" s6,
        d.looked_up "block" s7,
        d.looked_up "mutex" s8,
        d.hostname_read s9,
        d.now_read s10,
      )

  send_from-handed :
      (n i : ℕ) (k : DataType) (b : Buffers) (bs : Bytes) (s t : S) (u : Unit {0})
      → send_from r n i k b bs s ≡ (ok u, t)
      → handed t ≡ handed s ++ chunks_from n i k b bs
  unfolding send_from chunks_from
  send_from-handed zero i k b bs s t u e = ground (arith, e, append-nil (handed s))
  send_from-handed (suc n) i k b bs s t u e =
      let c : Chunk = record {
        timestamp = b.timestamp;
        service_name = b.hostname;
        data_type = k;
        bytes = slice i (end_of i (length bs)) bs;
      } in
      ground (
        arith,
        e,
        d.sent c s,
        append-nil (handed s),
        append_assoc (handed s) (c ∷ []) (chunks_from n (i + chunk_size) k b bs),
        send_from-handed n (i + chunk_size) k b bs (r.send c s).1 t u,
      )

  -- A call that, if it succeeds, has handed these chunks.
  abbrev Sends : Exec S (Unit {0}) → List Chunk → Type 0
  Sends m cs = (s t : S) (u : Unit {0}) → m s ≡ (ok u, t) → handed t ≡ handed s ++ cs

  then-Sends :
      (m n : Exec S (Unit {0})) (xs ys : List Chunk)
      → Sends m xs
      → Sends n ys
      → Sends (m >> n) (xs ++ ys)
  then-Sends m n xs ys k l s t u e = go (m s) refl
    where
      go : (q : Result (Unit {0}) × S) → m s ≡ q → handed t ≡ handed s ++ (xs ++ ys)
      go (ok v, s') f =
          l s' t u (ground (arith, e, f))
          ∙ ap (λ cs. cs ++ ys) (k s s' v f)
          ∙ append_assoc (handed s) xs ys
      go (err x, s') f = absurd (ground (arith, e, f))

  send_buffers-Sends : (b : Buffers) → Sends (send_buffers r b) (all_chunks b)
  unfolding send_buffers send_bytes
  send_buffers-Sends b =
      let last = sends block_profile b.block >> sends mutex_profile b.mutex in
      let later = sends goroutine_dump b.goroutine >> last in
      let rest = sends heap_snapshot b.heap >> later in
      let most = sends trace_data b.trace >> rest in
      then-Sends (sends cpu_profile b.cpu) most _ _ (each cpu_profile b.cpu) (
        then-Sends (sends trace_data b.trace) rest _ _ (each trace_data b.trace) (
          then-Sends (sends heap_snapshot b.heap) later _ _ (each heap_snapshot b.heap) (
            then-Sends (sends goroutine_dump b.goroutine) last _ _ (each goroutine_dump b.goroutine)
              (then-Sends (sends block_profile b.block) (sends mutex_profile b.mutex) _ _
                (each block_profile b.block) (each mutex_profile b.mutex)))))
    where
      sends : DataType → Bytes → Exec S (Unit {0})
      sends k bs = send_bytes r k b bs

      each : (k : DataType) (bs : Bytes) → Sends (sends k bs) (chunks_of k b bs)
      each k bs = send_from-handed (suc (length bs)) 0 k b bs

  pub enabled_none : (s : S) → handed (enable_rates r s) ≡ handed s
  unfolding enable_rates
  enabled_none s = d.mutex_fraction_set 1 (r.set_block_rate 1 s) ∙ d.block_rate_set 1 s

  pub restored_none : (s : S) → handed (restore_rates r s) ≡ handed s
  unfolding restore_rates
  restored_none s = d.mutex_fraction_set 0 (r.set_block_rate 0 s) ∙ d.block_rate_set 0 s

  -- A collection that succeeds has captured the buffers and sent all of their chunks.
  collected_chunks :
      (seconds : ℕ) (s t : S) (u : Unit {0})
      → collect_performance_data r seconds s ≡ (ok u, t)
      → (b : Buffers) × ((capture r seconds (enable_rates r s)).0 ≡ ok b)
        × (handed t ≡ handed s ++ all_chunks b)
  unfolding collect_performance_data body
  collected_chunks seconds s t u e = go (capture r seconds (enable_rates r s)) refl
    where
      Answer : Type 0
      Answer =
          (b : Buffers) × ((capture r seconds (enable_rates r s)).0 ≡ ok b)
          × (handed t ≡ handed s ++ all_chunks b)

      sent :
          (b : Buffers) (s1 : S) (q : Result (Unit {0}) × S)
          → capture r seconds (enable_rates r s) ≡ (ok b, s1)
          → send_buffers r b s1 ≡ q
          → Answer
      sent b s1 (ok v, s2) f g = (
        b,
        ground (arith, f),
        (let h : t ≡ restore_rates r s2 = ground (arith, e, f, g) in
            ap handed h
            ∙ restored_none s2
            ∙ send_buffers-Sends b s1 s2 v g
            ∙ ap (λ cs. cs ++ all_chunks b)
                (ap (λ q. handed q.1) (sym f)
                  ∙ capture-handed seconds (enable_rates r s)
                  ∙ enabled_none s)),
      )
      sent b s1 (err x, s2) f g = absurd (ground (arith, e, f, g))

      go : (q : Result Buffers × S) → capture r seconds (enable_rates r s) ≡ q → Answer
      go (ok b, s1) f = sent b s1 (send_buffers r b s1) f refl
      go (err x, s1) f = absurd (ground (arith, e, f))

  -- When a collection succeeds, over a stream to which nothing was handed before, and its client's loop succeeds
  -- too, then for each type of data the client has exactly the bytes of the server's buffer, however many
  -- chunks they took. That is so if a stream that ends with io.EOF has brought the client all that was
  -- handed to it, as gRPC promises of a handler that returns no error; a message may be lost otherwise.
  pub collected_profiles :
      (k : DataType) (seconds : ℕ) (s t : S) (u : Unit {0}) (stream : Stream) (a : CollectResp)
      → handed s ≡ []
      → collect_performance_data r seconds s ≡ (ok u, t)
      → (stream.ending ≡ none → stream.chunks ≡ handed t)
      → received stream ≡ ok a
      → (b : Buffers) × ((capture r seconds (enable_rates r s)).0 ≡ ok b) × (part k a ≡ buffer k b)
  collected_profiles k seconds s t u stream a fresh e complete whole =
      let (b, captured, chunks) = collected_chunks seconds s t u e in
      (
        b,
        captured,
        profiles_joined k stream a whole
            ∙ ap (joined k) (
                complete (received-ending stream a whole)
                ∙ chunks
                ∙ ap (λ cs. cs ++ all_chunks b) fresh)
            ∙ joined-all_chunks k b,
      )
