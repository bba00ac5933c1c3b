-- ===== src/Admin/Sized.antt =====
-- The size of the messages that CollectPerformanceData of pkg/admin/server.go sends.
use game_production.Common.{
  ℕ, zero, suc, ◌+◌, [], ◌∷◌, ltb, length, Result, ok, err, Exec, ◌>>=◌, ◌>>◌, ◌≡◌, refl, arith,
  Bool-cases, inl, inr, All, All-append, >>=-ok, >>=-err,
}
use game_production.Rpc.Profiles.{
  DataType, cpu_profile, trace_data, heap_snapshot, goroutine_dump, block_profile, mutex_profile,
  Chunk,
}
use game_production.Admin.{
  Bytes, Buffers, Runtime, chunk_size, slice, end_of, send_from, send_bytes, send_buffers, capture,
  body, collect_performance_data, enable_rates,
}
use game_production.Admin.Chunks.{IsSized, slice_short}
use game_production.Admin.Delivered.{
  SendHistory, handed_after, capture-handed, enabled_none, restored_none,
}

module _ {S : Type 0} (r : Runtime S) (d : SendHistory r) where
  open d use {handed}

  abbrev Small : S → Type 0
  Small s = All IsSized (handed s)

  abbrev Preserves : {A : Type 0} → Exec S A → Type 0
  Preserves m = (s : S) → Small s → Small (m s).1

  >>=-Preserves :
      {A B : Type 0} (m : Exec S A) (f : A → Exec S B)
      → Preserves m
      → ((a : A) → Preserves (f a))
      → Preserves (m >>= f)
  >>=-Preserves {A} {B} m f k l s v = go (m s) refl
    where
      go : (q : Result A × S) → m s ≡ q → Small ((m >>= f) s).1
      go (ok a, t) e = rw (>>=-ok m f s e) (l a t (rw e at (k s v)))
      go (err x, t) e = rw (>>=-err m f s e) (rw e at (k s v))

  send-Preserves : (c : Chunk) → IsSized c → Preserves (r.send c)
  send-Preserves c sized s v = rw (d.sent c s) (go (r.send c s).0)
    where
      go : (a : Result (Unit {0})) → All IsSized (handed_after a c (handed s))
      go (ok u) = All-append IsSized (handed s) (c ∷ []) v (sized, tt)
      go (err x) = v

  send_from-Preserves :
      (n i : ℕ) (k : DataType) (b : Buffers) (bs : Bytes) → Preserves (send_from r n i k b bs)
  unfolding send_from
  send_from-Preserves zero i k b bs s v = v
  send_from-Preserves (suc n) i k b bs s v = elim (Bool-cases (ltb i (length bs))) [
    | inr out ↦ rw out v
    | inl more ↦
        let c : Chunk = record {
          timestamp = b.timestamp;
          service_name = b.hostname;
          data_type = k;
          bytes = slice i (end_of i (length bs)) bs;
        } in
        rw more (
          >>=-Preserves (r.send c) (λ _. send_from r n (i + chunk_size) k b bs)
            (send-Preserves c (slice_short i bs (ground arith)))
            (λ _. send_from-Preserves n (i + chunk_size) k b bs) s v)
  ]

  send_buffers-Preserves : (b : Buffers) → Preserves (send_buffers r b)
  unfolding send_buffers send_bytes
  send_buffers-Preserves b =
      let last = sends block_profile b.block >> sends mutex_profile b.mutex in
      let later = sends goroutine_dump b.goroutine >> last in
      let rest = sends heap_snapshot b.heap >> later in
      let most = sends trace_data b.trace >> rest in
      after (sends cpu_profile b.cpu) most (each cpu_profile b.cpu) (
        after (sends trace_data b.trace) rest (each trace_data b.trace) (
          after (sends heap_snapshot b.heap) later (each heap_snapshot b.heap) (
            after (sends goroutine_dump b.goroutine) last (each goroutine_dump b.goroutine) (
              after (sends block_profile b.block) (sends mutex_profile b.mutex)
                (each block_profile b.block) (each mutex_profile b.mutex)))))
    where
      sends : DataType → Bytes → Exec S (Unit {0})
      sends k bs = send_bytes r k b bs

      each : (k : DataType) (bs : Bytes) → Preserves (sends k bs)
      each k bs = send_from-Preserves (suc (length bs)) 0 k b bs

      after : (m n : Exec S (Unit {0})) → Preserves m → Preserves n → Preserves (m >> n)
      after m n k l = >>=-Preserves m (λ _. n) k (λ _. l)

  -- However a collection over a fresh stream ends, each message that it has sent carries at least one
  -- byte and at most 32 * 1024.
  pub sent_chunks_short :
      (seconds : ℕ) (s : S)
      → handed s ≡ []
      → All IsSized (handed (collect_performance_data r seconds s).1)
  unfolding collect_performance_data body
  sent_chunks_short seconds s fresh = rw (restored_none r d (body r seconds (enable_rates r s)).1) (
      >>=-Preserves (capture r seconds) (send_buffers r)
        (λ t v. rw (capture-handed r d seconds t) v) send_buffers-Preserves (enable_rates r s)
        (rw (enabled_none r d s, fresh) tt))
