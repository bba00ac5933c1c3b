-- ===== src/Gateway/Connections.antt =====
-- WebSocket connections and their manager: internal/modules/gateway/ws/manager.go. A pointer to a
-- connection is a number, given out in order; `conns` is what the pointers point to.
use game_production.Common.{
  ℕ, zero, suc, nat_key, String, Bool, true, false, ◌&&◌, ltb, eqb, Option, none, some, List, [],
  ◌∷◌, ◌++◌, Dict, lookup, insert, delete, length, get_elem?, if◌then◌else◌,
}

pub data CloseReason : Type 0 where
  write_error ping_error read_error send_chan_closed replaced shutdown buffer_full timeout :
      CloseReason

-- A connection with its buffered channel, what `closeOnce` did first, and whether WritePump has
-- returned. `accepted`, `written` and `dropped` are history variables: the messages put into the
-- buffer, written to the socket, and taken out for a write that failed.
pub record Connection : Type 0 where
  pub user_id : ℕ
  pub send : List String
  pub closed : Option CloseReason
  pub pump_done : Bool
  pub accepted : List String
  pub written : List String
  pub dropped : List String

abbrev pub ConnPtr : Type 0
ConnPtr = ℕ

-- `waiting` holds the calls of SendToUser that wait for room.
pub record Manager : Type 0 where
  pub conns : ConnPtr → Connection
  pub next : ConnPtr
  pub clients : Dict ℕ ConnPtr
  pub waiting : List (ConnPtr × String)

abbrev pub send_capacity : ℕ
send_capacity = 1024

abbrev pub new_connection : ℕ → Connection
new_connection user = record {
  user_id = user;
  send = [];
  closed = none;
  pump_done = false;
  accepted = [];
  written = [];
  dropped = [];
}

unfoldable pub new_manager : Manager
new_manager = record { conns = λ p. new_connection 0; next = 0; clients = []; waiting = [] }

-- A write through the pointer.
unfoldable pub update :
    ConnPtr → (Connection → Connection) → (ConnPtr → Connection) → ConnPtr → Connection
update p f h q = if eqb p q then f (h q) else h q

-- CloseWithReason: only the first call does anything.
unfoldable pub close_with_reason : CloseReason → Connection → Connection
close_with_reason r c = elim c.closed [ none ↦ record c { closed = some r } | some old ↦ c ]

abbrev pub has_room : Connection → Bool
has_room c = ltb (length c.send) send_capacity

unfoldable pub accept : String → Connection → Connection
accept msg c = record c { send = c.send ++ msg ∷ []; accepted = c.accepted ++ msg ∷ [] }

-- select { case client.Send <- message: default: client.CloseWithReason(ReasonBufferFull, nil) }
unfoldable pub offer : String → Connection → Connection
unfolding accept close_with_reason
offer msg c = if has_room c then accept msg c else close_with_reason buffer_full c

close_old : Option ConnPtr → (ConnPtr → Connection) → ConnPtr → Connection
close_old none h = h
close_old (some old) h = update old (close_with_reason replaced) h

-- Register, and what Run does with what it receives.
unfoldable pub register : ℕ → Manager → Manager
unfolding close_old update
register user m = record m {
  conns = close_old (lookup user m.clients) (update m.next (λ c. new_connection user) m.conns);
  next = suc m.next;
  clients = insert user m.next m.clients;
}

unregister_found : ConnPtr → Option ConnPtr → Manager → Manager
unfolding update close_with_reason
unregister_found p none m = m
unregister_found p (some q) m = record m {
  conns = update p (close_with_reason shutdown) m.conns;
  clients = delete (m.conns p).user_id m.clients;
}

-- What Run does with a connection that its ReadPump gives back.
unfoldable pub unregister : ConnPtr → Manager → Manager
unfolding unregister_found
unregister p m = unregister_found p (lookup (m.conns p).user_id m.clients) m

-- The loop over `m.clients`.
unfoldable pub for_clients :
    (Connection → Connection) → Dict ℕ ConnPtr → (ConnPtr → Connection) → ConnPtr → Connection
for_clients f [] h = h
for_clients f ((u, p) ∷ rest) h = for_clients f rest (update p f h)

unfoldable pub broadcast : String → Manager → Manager
unfolding for_clients offer
broadcast msg m = record m { conns = for_clients (offer msg) m.clients m.conns }

unfoldable pub shutdown_all : Manager → Manager
unfolding for_clients close_with_reason
shutdown_all m = record m { conns = for_clients (close_with_reason shutdown) m.clients m.conns }

send_to_found : Option ConnPtr → String → Manager → Manager
unfolding update accept
send_to_found none msg m = m
send_to_found (some p) msg m =
    if has_room (m.conns p)
    then record m { conns = update p (accept msg) m.conns }
    else record m { waiting = m.waiting ++ (p, msg) ∷ [] }

-- SendToUser up to where it waits.
unfoldable pub send_to_user : ℕ → String → Manager → Manager
unfolding send_to_found
send_to_user user msg m = send_to_found (lookup user m.clients) msg m

unfoldable pub remove_at : ℕ → List (ConnPtr × String) → List (ConnPtr × String)
remove_at i [] = []
remove_at zero (x ∷ xs) = xs
remove_at (suc i) (x ∷ xs) = x ∷ remove_at i xs

deliver_found : ℕ → Option (ConnPtr × String) → Manager → Manager
unfolding update accept remove_at
deliver_found i none m = m
deliver_found i (some (p, msg)) m =
    if has_room (m.conns p)
    then record m { conns = update p (accept msg) m.conns; waiting = remove_at i m.waiting }
    else m

-- The i-th waiting call finds room.
unfoldable pub deliver : ℕ → Manager → Manager
unfolding deliver_found
deliver i m = deliver_found i (get_elem? m.waiting i) m

time_out_found : ℕ → Option (ConnPtr × String) → Manager → Manager
unfolding update close_with_reason remove_at
time_out_found i none m = m
time_out_found i (some (p, msg)) m = record m {
  conns = update p (close_with_reason timeout) m.conns;
  waiting = remove_at i m.waiting;
}

-- The i-th waiting call has waited 5 seconds.
unfoldable pub time_out : ℕ → Manager → Manager
unfolding time_out_found
time_out i m = time_out_found i (get_elem? m.waiting i) m

is_open : Connection → Bool
is_open c = elim c.closed [ none ↦ true | some r ↦ false ]

pump_message : Bool → List String → Connection → Connection
unfolding close_with_reason is_open
pump_message success [] c = c
pump_message success (msg ∷ rest) c =
    if success && is_open c
    then record c { send = rest; written = c.written ++ msg ∷ [] }
    else close_with_reason write_error
        (record c { send = rest; dropped = msg ∷ []; pump_done = true })

-- WritePump takes a message. `success` is what the socket says; a closed one fails.
unfoldable pub write_pump : Bool → Connection → Connection
unfolding pump_message
write_pump success c = if c.pump_done then c else pump_message success c.send c

-- WritePump's ticker fires.
unfoldable pub ping : Bool → Connection → Connection
unfolding close_with_reason is_open
ping success c =
    if c.pump_done
    then c
    else if success && is_open c
    then c
    else close_with_reason ping_error (record c { pump_done = true })
