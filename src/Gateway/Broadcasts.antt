-- ===== src/Gateway/Broadcasts.antt =====
-- Whom Broadcast of internal/modules/gateway/ws/manager.go reaches.
use game_production.Common.{
  ℕ, suc, ◌≤◌, ◌<◌, nat_key, ◌==◌, eqb, String, Bool, false, Option, none, some, List, [], ◌∷◌,
  Dict, lookup, insert, delete, lookup-delete, same_self, ◌≡◌, refl, sym, ◌∙◌, ◌++◌, length, ltb,
  or_else, arith, if◌then◌else◌, Bool-cases, Option-cases, inl, inr,
}
use game_production.Gateway.Connections.{
  CloseReason, Connection, ConnPtr, Manager, new_manager, update, close_with_reason, accept, offer,
  write_pump, ping, for_clients, register, unregister, broadcast, shutdown_all, send_to_user,
  deliver, time_out, shutdown, buffer_full,
}
use game_production.Gateway.Sessions.{
  Action, registers, unregisters, broadcasts, sends, delivers, times_out, writes, pings, reads_fail,
  shuts_down, act, run, Kept, act-Holding,
}

-- The entries of the clients' map: each user's connection is the user's and was given out, and no user
-- has two entries.
abbrev pub Owned : ConnPtr → (ConnPtr → Connection) → Dict ℕ ConnPtr → Type 0
Owned n h [] = Unit
Owned n h ((u, p) ∷ l) = (p < n) × ((h p).user_id ≡ u) × (lookup u l ≡ none) × Owned n h l

Owned-mono :
    (n k : ConnPtr) (h g : ConnPtr → Connection) (l : Dict ℕ ConnPtr)
    → n ≤ k
    → ((p : ConnPtr) → p < n → (g p).user_id ≡ (h p).user_id)
    → Owned n h l
    → Owned k g l
Owned-mono n k h g [] more same v = tt
Owned-mono n k h g ((u, p) ∷ l) more same v =
    (omega (arith, v.0, more), same p v.0 ∙ v.1, v.2, Owned-mono n k h g l more same v.3)

Owned-delete :
    (n : ConnPtr) (h : ConnPtr → Connection) (user : ℕ) (l : Dict ℕ ConnPtr)
    → Owned n h l
    → Owned n h (delete user l)
unfolding delete
Owned-delete n h user [] v = tt
Owned-delete n h user ((u, p) ∷ l) v = elim (Bool-cases (u == user)) [
  | inl same ↦ rw same (Owned-delete n h user l v.3)
  | inr other ↦
      rw other (v.0, v.1, ground (arith, lookup-delete user u l, v.2), Owned-delete n h user l v.3)
]

-- Whether `q` is the connection found.
abbrev pub is_client : ConnPtr → Option ConnPtr → Bool
is_client q none = false
is_client q (some p) = eqb p q

KeepsUser : (Connection → Connection) → Type 0
KeepsUser f = (c : Connection) → (f c).user_id ≡ c.user_id

update-user_id :
    (f : Connection → Connection) (p : ConnPtr) (h : ConnPtr → Connection) (q : ConnPtr)
    → KeepsUser f
    → (update p f h q).user_id ≡ (h q).user_id
unfolding update KeepsUser
update-user_id f p h q keeps = ground (arith, keeps (h q))

-- The loop does its work once on each client's connection.
for_clients_lem :
    (f : Connection → Connection) (n : ConnPtr) (l : Dict ℕ ConnPtr) (h : ConnPtr → Connection)
    (q : ConnPtr)
    → KeepsUser f
    → Owned n h l
    → for_clients f l h q ≡ (if is_client q (lookup (h q).user_id l) then f (h q) else h q)
unfolding for_clients lookup update
for_clients_lem f n [] h q keeps v = refl
for_clients_lem f n ((u, p) ∷ l) h q keeps v =
    let rest = for_clients_lem f n l (update p f h) q keeps (
      Owned-mono n n h (update p f h) l (omega arith) (λ r given. update-user_id f p h r keeps)
        v.3) in
    rest ∙ rw (update-user_id f p h q keeps) (ground (arith, v.1, v.2))

offer-KeepsUser : (msg : String) → KeepsUser (offer msg)
unfolding KeepsUser offer accept close_with_reason
offer-KeepsUser msg c = ground arith

close-KeepsUser : (r : CloseReason) → KeepsUser (close_with_reason r)
unfolding KeepsUser close_with_reason
close-KeepsUser r c = ground arith

-- The users of the connections given out.
abbrev SameUser : Manager → ConnPtr → Connection → Type 0
SameUser m q c = q < m.next → c.user_id ≡ (m.conns q).user_id

SameUser-Kept : (m : Manager) → Kept (SameUser m) m.next
unfolding close_with_reason accept write_pump ping
SameUser-Kept m = record {
  fresh = λ p user given h. absurd (omega (arith, given, h));
  closes = λ p r c h given. ground (arith, h given);
  accepts = λ p msg c room h given. ground (arith, h given);
  writes = λ p success c h given. ground (arith, h given);
  pings = λ p success c h given. ground (arith, h given);
}

act-user_id :
    (a : Action) (m : Manager) (p : ConnPtr)
    → p < m.next
    → ((act a m).conns p).user_id ≡ (m.conns p).user_id
act-user_id a m p given =
    (act-Holding (SameUser m) m.next (SameUser-Kept m) a m
        (record { all = λ q given. refl; given_out = omega arith })).all
      p given

register-user_id : (user : ℕ) (m : Manager) → ((register user m).conns m.next).user_id ≡ user
unfolding register update close_with_reason
register-user_id user m = elim (Option-cases (lookup user m.clients)) [
  | inl none_there ↦ rw none_there (ground arith)
  | inr (old, there) ↦ rw there (ground arith)
]

-- The two steps that change the map of clients.
register-Owned :
    (user : ℕ) (m : Manager)
    → Owned m.next m.conns m.clients
    → Owned (register user m).next (register user m).conns (register user m).clients
unfolding insert act register
register-Owned user m v = (
  omega arith,
  register-user_id user m,
  rw (lookup-delete user user m.clients, same_self user) refl,
  Owned-delete (suc m.next) (register user m).conns user m.clients (
      Owned-mono m.next (suc m.next) m.conns (register user m).conns m.clients (omega arith)
        (act-user_id (registers user) m) v),
)

unregister-Owned :
    (p : ConnPtr) (m : Manager)
    → Owned m.next m.conns m.clients
    → Owned (unregister p m).next (unregister p m).conns (unregister p m).clients
unfolding unregister
unregister-Owned p m v = elim (Option-cases (lookup (m.conns p).user_id m.clients)) [
  | inl none_there ↦ rw none_there v
  | inr (q, there) ↦ rw there (
      Owned-delete m.next (update p (close_with_reason shutdown) m.conns) (m.conns p).user_id
        m.clients
        (Owned-mono m.next m.next m.conns (update p (close_with_reason shutdown) m.conns) m.clients
          (omega arith)
          (λ r given.
            update-user_id (close_with_reason shutdown) p m.conns r (close-KeepsUser shutdown))
          v))
]

abbrev pub OwnedBy : Manager → Type 0
OwnedBy m = Owned m.next m.conns m.clients

-- The entries of `m` after a step that leaves the map and the pointers given out as they are.
same_clients :
    (a : Action) (m n : Manager)
    → act a m ≡ n
    → n.clients ≡ m.clients
    → n.next ≡ m.next
    → OwnedBy m
    → OwnedBy n
same_clients a m n e same_map same_next v =
    rw (same_map, same_next)
      (Owned-mono m.next m.next m.conns n.conns m.clients (omega arith)
        (λ p given. rw e at (act-user_id a m p given)) v)

act-OwnedBy : (a : Action) (m : Manager) → OwnedBy m → OwnedBy (act a m)
unfolding act broadcast shutdown_all send_to_user deliver time_out register
act-OwnedBy (registers user) m v = register-Owned user m v
act-OwnedBy (unregisters p) m v = unregister-Owned p m v
act-OwnedBy (broadcasts msg) m v = same_clients (broadcasts msg) m _ refl refl refl v
act-OwnedBy (sends user msg) m v =
    same_clients (sends user msg) m _ refl (ground arith) (ground arith) v
act-OwnedBy (delivers i) m v = same_clients (delivers i) m _ refl (ground arith) (ground arith) v
act-OwnedBy (times_out i) m v = same_clients (times_out i) m _ refl (ground arith) (ground arith) v
act-OwnedBy (writes p success) m v = same_clients (writes p success) m _ refl refl refl v
act-OwnedBy (pings p success) m v = same_clients (pings p success) m _ refl refl refl v
act-OwnedBy (reads_fail p) m v = same_clients (reads_fail p) m _ refl refl refl v
act-OwnedBy shuts_down m v = same_clients shuts_down m _ refl refl refl v

new_manager-OwnedBy : OwnedBy new_manager
unfolding new_manager
new_manager-OwnedBy = tt

run-OwnedBy : (acts : List Action) (m : Manager) → OwnedBy m → OwnedBy (run m acts)
unfolding run
run-OwnedBy [] m v = v
run-OwnedBy (a ∷ acts) m v = run-OwnedBy acts (act a m) (act-OwnedBy a m v)

-- What a broadcast leaves of a client's connection: the message is at the end of the buffer, or the full
-- buffer is as it was and the connection is closed.
abbrev pub after_broadcast : String → Connection → Connection
after_broadcast msg c =
    if ltb (length c.send) 1024
    then record c { send = c.send ++ msg ∷ []; accepted = c.accepted ++ msg ∷ [] }
    else record c { closed = some (or_else c.closed buffer_full) }

offered : (msg : String) (c : Connection) → offer msg c ≡ after_broadcast msg c
unfolding offer accept close_with_reason
offered msg c = ground arith

-- Whatever has happened to a new manager, in whatever order, a broadcast puts its message once at the end of
-- the buffer of each connection that stands for its user, or, if that holds 1024 messages, leaves the buffer
-- and closes the connection, for this reason if it was not closed before; it changes no other connection.
pub broadcast_reaches :
    (acts : List Action) (msg : String) (q : ConnPtr)
    → (broadcast msg (run new_manager acts)).conns q ≡ (
        if is_client q
          (lookup ((run new_manager acts).conns q).user_id (run new_manager acts).clients)
        then after_broadcast msg ((run new_manager acts).conns q)
        else (run new_manager acts).conns q)
unfolding broadcast
broadcast_reaches acts msg q =
    let m = run new_manager acts in
    rw (sym (offered msg (m.conns q))) (
      for_clients_lem (offer msg) m.next m.clients m.conns q (offer-KeepsUser msg)
        (run-OwnedBy acts new_manager new_manager-OwnedBy))
