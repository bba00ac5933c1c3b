-- ===== src/Gateway/Members.antt =====
-- Which connection stands for a user: register and unregister of
-- internal/modules/gateway/ws/manager.go.
use game_production.Common.{
  ℕ, ◌<◌, nat_key, eqb, String, none, some, ◌≡◌, ◌≢◌, arith, lookup, lookup-insert, lookup-delete,
  same_self, if◌then◌else◌,
}
use game_production.Gateway.Connections.{
  ConnPtr, Manager, register, unregister, send_to_user, update, close_with_reason, new_connection,
  replaced,
}

-- A registration of a user for whom a connection that was given out stood already puts a new, open and empty connection
-- in its place and closes the old one for the reason `replaced` if it was open; no other user's entry
-- and no other connection changes.
pub register_replaces :
    (user : ℕ) (m : Manager) (old : ConnPtr) (v : ℕ) (q : ConnPtr)
    → lookup user m.clients ≡ some old
    → old < m.next
    → (lookup v (register user m).clients
        ≡ (if eqb user v then some m.next else lookup v m.clients))
      × ((register user m).conns q ≡ (
          if eqb m.next q
          then new_connection user
          else if eqb old q
          then close_with_reason replaced (m.conns q)
          else m.conns q))
unfolding register update
register_replaces user m old v q e given =
    (lookup-insert user v m.next m.clients, rw e (ground (arith, given)))

-- A connection `p` that no longer stands for its user, because another connection `q` was registered
-- later, takes that other one out when its ReadPump ends: `q` is left as it was, but no connection
-- stands for the user, and nothing is sent to the user any more.
pub unregister_replaced :
    (p q : ConnPtr) (m : Manager) (msg : String)
    → p ≢ q
    → lookup (m.conns p).user_id m.clients ≡ some q
    → (lookup (m.conns p).user_id (unregister p m).clients ≡ none)
      × ((unregister p m).conns q ≡ m.conns q)
      × (send_to_user (m.conns p).user_id msg (unregister p m) ≡ unregister p m)
unfolding unregister send_to_user update
unregister_replaced p q m msg other e =
    let gone = lookup-delete (m.conns p).user_id (m.conns p).user_id m.clients in
    let self = same_self (m.conns p).user_id in
    (ground (arith, gone, self), ground (arith, other), ground (arith, gone, self))
