-- ===== src/Admin/Chunks.antt =====
-- How sendData of pkg/admin/server.go cuts a buffer into chunks.
use mathlib.Core.List.{append_assoc}
use game_production.Common.{
  ℕ, zero, suc, ◌+◌, ◌-◌, ◌≤◌, ◌<◌, Bool, true, false, List, [], ◌∷◌, ◌++◌, ltb, length, ◌≡◌, refl,
  sym, ap, ◌∙◌, arith, if◌then◌else◌, Bool-cases, inl, inr,
}
use game_production.Rpc.Profiles.{DataType, Chunk, is_of, joined}
use game_production.Admin.{Bytes, Buffers, chunk_size, slice, end_of}

abbrev pub drop : ℕ → Bytes → Bytes
drop zero bs = bs
drop (suc n) [] = []
drop (suc n) (b ∷ bs) = drop n bs

drop_past : (n : ℕ) (bs : Bytes) → length bs ≤ n → drop n bs ≡ []
drop_past zero [] l = refl
drop_past zero (b ∷ bs) l = absurd (omega arith)
drop_past (suc n) [] l = refl
drop_past (suc n) (b ∷ bs) l = drop_past n bs (omega arith)

slice-append-drop :
    (i e : ℕ) (bs : Bytes) → i ≤ e → e ≤ length bs → slice i e bs ++ drop e bs ≡ drop i bs
unfolding slice
slice-append-drop zero zero [] l k = refl
slice-append-drop zero (suc e) [] l k = absurd (omega arith)
slice-append-drop (suc i) e [] l k = absurd (omega arith)
slice-append-drop zero zero (b ∷ bs) l k = refl
slice-append-drop (suc i) zero (b ∷ bs) l k = absurd (omega arith)
slice-append-drop zero (suc e) (b ∷ bs) l k =
    ap (◌∷◌ b) (slice-append-drop zero e bs (omega arith) (omega arith))
slice-append-drop (suc i) (suc e) (b ∷ bs) l k =
    slice-append-drop i e bs (omega arith) (omega arith)

length-slice : (i e : ℕ) (bs : Bytes) → e ≤ length bs → length (slice i e bs) ≡ e - i
unfolding slice
length-slice i e [] l = omega arith
length-slice zero zero (b ∷ bs) l = omega arith
length-slice zero (suc e) (b ∷ bs) l = omega (arith, length-slice zero e bs (omega arith))
length-slice (suc i) zero (b ∷ bs) l = omega arith
length-slice (suc i) (suc e) (b ∷ bs) l = omega (arith, length-slice i e bs (omega arith))

-- The chunks from the index i on, as long as no send fails.
unfoldable pub chunks_from : ℕ → ℕ → DataType → Buffers → Bytes → List Chunk
unfolding slice end_of
chunks_from zero i d b bs = []
chunks_from (suc rounds) i d b bs =
    let rest =
      record {
        timestamp = b.timestamp;
        service_name = b.hostname;
        data_type = d;
        bytes = slice i (end_of i (length bs)) bs;
      }
      ∷ chunks_from rounds (i + chunk_size) d b bs in
    if ltb i (length bs) then rest else []

abbrev pub chunks_of : DataType → Buffers → Bytes → List Chunk
chunks_of d b bs = chunks_from (suc (length bs)) 0 d b bs

pub joined-append :
    (k : DataType) (xs ys : List Chunk) → joined k (xs ++ ys) ≡ joined k xs ++ joined k ys
joined-append k [] ys = refl
joined-append k (c ∷ xs) ys =
    ap (λ l. (if is_of k c.data_type then c.bytes else []) ++ l) (joined-append k xs ys)
    ∙ sym (append_assoc (if is_of k c.data_type then c.bytes else []) (joined k xs) (joined k ys))

-- One turn sends the bytes up to where the next begins.
slice_next :
    (i : ℕ) (bs : Bytes)
    → i < length bs
    → slice i (end_of i (length bs)) bs ++ drop (i + chunk_size) bs ≡ drop i bs
unfolding end_of
slice_next i bs l = elim (Bool-cases (ltb (length bs) (i + chunk_size))) [
  | inl last ↦
      rw
        (
          last,
          drop_past (i + chunk_size) bs (ground arith),
          ← drop_past (length bs) bs (omega arith),
        )
        (slice-append-drop i (length bs) bs (omega arith) (omega arith))
  | inr more ↦ rw more (slice-append-drop i (i + chunk_size) bs (omega arith) (ground arith))
]

if_both :
    (b : Bool) (xs ys zs : Bytes)
    → xs ++ ys ≡ zs
    → (if b then xs else []) ++ (if b then ys else []) ≡ (if b then zs else [])
if_both true xs ys zs e = e
if_both false xs ys zs e = refl

joined-chunks_from :
    (k : DataType) (rounds i : ℕ) (d : DataType) (b : Buffers) (bs : Bytes)
    → length bs < i + rounds
    → joined k (chunks_from rounds i d b bs) ≡ (if is_of k d then drop i bs else [])
unfolding chunks_from
joined-chunks_from k zero i d b bs l = rw (drop_past i bs (omega arith)) (ground arith)
joined-chunks_from k (suc rounds) i d b bs l = elim (Bool-cases (ltb i (length bs))) [
  | inr out ↦ rw (out, drop_past i bs (ground arith)) (ground arith)
  | inl more ↦
      rw (more, joined-chunks_from k rounds (i + chunk_size) d b bs (omega arith))
        (if_both (is_of k d) _ _ _ (slice_next i bs (ground arith)))
]

pub joined-chunks_of :
    (k d : DataType) (b : Buffers) (bs : Bytes)
    → joined k (chunks_of d b bs) ≡ (if is_of k d then bs else [])
joined-chunks_of k d b bs = joined-chunks_from k (suc (length bs)) 0 d b bs (omega arith)

-- No chunk is empty, and none is longer than chunkSize.
abbrev pub IsSized : Chunk → Type 0
IsSized c = (0 < length c.bytes) × (length c.bytes ≤ chunk_size)

pub slice_short :
    (i : ℕ) (bs : Bytes)
    → i < length bs
    → (0 < length (slice i (end_of i (length bs)) bs))
      × (length (slice i (end_of i (length bs)) bs) ≤ chunk_size)
unfolding end_of
slice_short i bs l =
    ground (arith, length-slice i (length bs) bs, length-slice i (i + chunk_size) bs)
