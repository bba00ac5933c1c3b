-- ===== src/Rpc/Profiles.antt =====
-- The collection of performance data from one instance: CollectPerformance of
-- pkg/grpc_client/base/client.go. The stream that a service answers is a parameter: the chunks that are
-- received and the error that ends it, if it is not io.EOF.
use mathlib.Core.List.{append-nil, append_assoc}
use game_production.Common.{
  ℕ, ◌==◌, nat_key, string_key, eqb, ltb, ◌&&◌, String, Bool, Option, none, some, List, [], ◌∷◌,
  ◌++◌, Error, wrapped, Result, ok, err, Exec, ◌>>=◌, ◌≡◌, refl, ◌∙◌, arith, if◌then◌else◌,
}
use game_production.Rpc.Client.{Conn, Registry, Net, get_conn_direct, get_lb_conn, on_outside}

-- CollectRespChunk_DataType, of which a stream may also hold unknown ones.
pub data DataType : Type 0 where
  cpu_profile trace_data heap_snapshot goroutine_dump block_profile mutex_profile unknown : DataType

pub record Chunk : Type 0 where
  pub timestamp : ℕ
  pub service_name : String
  pub data_type : DataType
  pub bytes : List ℕ

pub record CollectResp : Type 0 where
  pub timestamp : ℕ
  pub service_name : String
  pub cpu_profile : List ℕ
  pub trace_data : List ℕ
  pub heap_snapshot : List ℕ
  pub goroutine_dump : List ℕ
  pub block_profile : List ℕ
  pub mutex_profile : List ℕ

unfoldable pub no_data : CollectResp
no_data = record {
  timestamp = 0;
  service_name = "";
  cpu_profile = [];
  trace_data = [];
  heap_snapshot = [];
  goroutine_dump = [];
  block_profile = [];
  mutex_profile = [];
}

append_data : DataType → List ℕ → CollectResp → CollectResp
append_data cpu_profile bs r = record r { cpu_profile = r.cpu_profile ++ bs }
append_data trace_data bs r = record r { trace_data = r.trace_data ++ bs }
append_data heap_snapshot bs r = record r { heap_snapshot = r.heap_snapshot ++ bs }
append_data goroutine_dump bs r = record r { goroutine_dump = r.goroutine_dump ++ bs }
append_data block_profile bs r = record r { block_profile = r.block_profile ++ bs }
append_data mutex_profile bs r = record r { mutex_profile = r.mutex_profile ++ bs }
append_data unknown bs r = r

add_chunk : Chunk → CollectResp → CollectResp
unfolding append_data
add_chunk c r = append_data c.data_type c.bytes (record r {
  timestamp = if c.timestamp == 0 then r.timestamp else c.timestamp;
  service_name = if c.service_name == "" then r.service_name else c.service_name;
})

-- What Recv answers until it gives an error; `none` stands for io.EOF.
pub record Stream : Type 0 where
  pub chunks : List Chunk
  pub ending : Option Error

-- The loop over the stream.
receive : List Chunk → Option Error → CollectResp → Result CollectResp
unfolding add_chunk
receive [] none r = ok r
receive [] (some e) r = err (wrapped "stream recv failed" e)
receive (c ∷ cs) ending r = receive cs ending (add_chunk c r)

unfoldable pub received : Stream → Result CollectResp
unfolding receive no_data
received stream = receive stream.chunks stream.ending no_data

module _ {S T : Type 0} (registry : Registry S) (collect : Conn → ℕ → Exec S Stream) where
  conn_to : ℕ → String → String → Exec (Net S T) Conn
  unfolding get_conn_direct get_lb_conn
  conn_to pick service target =
      if target == "" then get_lb_conn registry pick service else get_conn_direct registry target

  unfoldable pub collect_performance : ℕ → String → String → ℕ → Exec (Net S T) CollectResp
  unfolding conn_to received
  collect_performance pick service target duration = do
    conn ← conn_to pick service target
    stream ← on_outside registry (collect conn duration)
    (λ n. (received stream, n))

-- The part of the data of one type.
abbrev pub part : DataType → CollectResp → List ℕ
part cpu_profile r = r.cpu_profile
part trace_data r = r.trace_data
part heap_snapshot r = r.heap_snapshot
part goroutine_dump r = r.goroutine_dump
part block_profile r = r.block_profile
part mutex_profile r = r.mutex_profile
part unknown r = []

abbrev type_number : DataType → ℕ
type_number unknown = 0
type_number cpu_profile = 1
type_number trace_data = 2
type_number heap_snapshot = 3
type_number goroutine_dump = 4
type_number block_profile = 5
type_number mutex_profile = 6

-- Data of an unknown type is nobody's.
abbrev pub is_of : DataType → DataType → Bool
is_of k d = ltb 0 (type_number k) && eqb (type_number d) (type_number k)

-- The bytes of the chunks of one type, in their order.
abbrev pub joined : DataType → List Chunk → List ℕ
joined k [] = []
joined k (c ∷ cs) = (if is_of k c.data_type then c.bytes else []) ++ joined k cs

part-append_data :
    (k d : DataType) (bs : List ℕ) (r : CollectResp)
    → part k (append_data d bs r) ≡ part k r ++ (if is_of k d then bs else [])
unfolding append_data
part-append_data k d bs r = ground (arith, append-nil (part k r))

part-add_chunk :
    (k : DataType) (c : Chunk) (r : CollectResp)
    → part k (add_chunk c r) ≡ part k r ++ (if is_of k c.data_type then c.bytes else [])
unfolding add_chunk
part-add_chunk k c r = part-append_data k c.data_type c.bytes _ ∙ ground arith

part-receive :
    (k : DataType) (cs : List Chunk) (ending : Option Error) (r a : CollectResp)
    → receive cs ending r ≡ ok a
    → part k a ≡ part k r ++ joined k cs
unfolding receive add_chunk
part-receive k [] none r a e = ground (arith, e, append-nil (part k r))
part-receive k [] (some x) r a e = absurd (ground (arith, e))
part-receive k (c ∷ cs) ending r a e =
    part-receive k cs ending (add_chunk c r) a e
    ∙ rw (part-add_chunk k c r)
        (append_assoc (part k r) (if is_of k c.data_type then c.bytes else []) (joined k cs))

receive_ends : (cs : List Chunk) (r : CollectResp) → (a : CollectResp) × (receive cs none r ≡ ok a)
unfolding receive
receive_ends [] r = (r, refl)
receive_ends (c ∷ cs) r = receive_ends cs (add_chunk c r)

-- A stream that ends without an error is collected.
pub received_ends :
    (cs : List Chunk)
    → (a : CollectResp) × (received (record { chunks = cs; ending = none }) ≡ ok a)
unfolding received no_data
received_ends cs = receive_ends cs no_data

receive-ending :
    (cs : List Chunk) (ending : Option Error) (r a : CollectResp)
    → receive cs ending r ≡ ok a
    → ending ≡ none
unfolding receive
receive-ending [] none r a e = refl
receive-ending [] (some x) r a e = absurd (ground (arith, e))
receive-ending (c ∷ cs) ending r a e = receive-ending cs ending (add_chunk c r) a e

-- A collection succeeds only over a stream that has ended with io.EOF.
pub received-ending :
    (stream : Stream) (a : CollectResp) → received stream ≡ ok a → stream.ending ≡ none
unfolding received
received-ending stream a e = receive-ending stream.chunks stream.ending no_data a e

part-no_data : (k : DataType) → part k no_data ≡ []
unfolding no_data
part-no_data k = ground arith

-- The data of each known type that a collection answers is the data of the chunks of this type, one
-- after the other in the order of the stream.
pub profiles_joined :
    (k : DataType) (stream : Stream) (a : CollectResp)
    → received stream ≡ ok a
    → part k a ≡ joined k stream.chunks
unfolding received no_data
profiles_joined k stream a e =
    part-receive k stream.chunks stream.ending no_data a e ∙ rw (part-no_data k)
