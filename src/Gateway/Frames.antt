-- ===== src/Gateway/Frames.antt =====
-- What reaches the players through the adapters of the gateway: internal/modules/gateway/adapter.
use game_production.Common.{
  ℕ, nat_key, string_key, String, eqb, ◌≡◌, ◌≢◌, refl, true, Bool, some, ok, Exec, arith, eq_iff,
  lookup, if◌then◌else◌,
}
use game_production.Gateway.Connections.{
  Manager, ConnPtr, register, send_to_user, has_room, update, accept,
}
use game_production.Gateway.Requests.{Texts, GsService, handle_message}
use game_production.Gateway.Adapters.{
  Event, round_state, settlement, other_event, Printer, connected, local_broadcast,
  local_send_to_user, grpc_broadcast, grpc_send_to_user, local_convert_event, grpc_convert_event,
  handle_web_socket, print_answer, handle_frame,
}

-- A message to everybody, and one to a user, does to the connections of a gateway behind gRPC what it
-- does in the process, of whatever type it is: the two adapters build the same JSON of it, each with its
-- own code.
pub adapters_agree :
    (printer : Printer) (user : ℕ) (game : String) (e : Event) (m : Manager)
    → ((grpc_broadcast printer game (some e) m).1 ≡ local_broadcast printer game e m)
      × ((grpc_send_to_user printer user game (some e) m).1
          ≡ local_send_to_user printer user game e m)
unfolding grpc_broadcast grpc_send_to_user local_broadcast local_send_to_user grpc_convert_event
    local_convert_event
adapters_agree printer user game (round_state b) m = (refl, refl)
adapters_agree printer user game (settlement b) m = (refl, refl)
adapters_agree printer user game other_event m = (refl, refl)

-- A player gets a connection only with a token that is not empty and that the user service accepts, and
-- the connection is that of the user whom the token names.
pub connected_validated :
    {S : Type 0} (validate : String → Exec S ℕ) (token : String) (upgrades : Bool) (s s' : S)
    (m m' : Manager) (user : ℕ)
    → handle_web_socket validate token upgrades (s, m) ≡ (connected user, (s', m'))
    → (token ≢ "") × ((validate token s).0 ≡ ok user) × (m' ≡ register user m)
unfolding handle_web_socket
connected_validated validate token upgrades s s' m m' user e =
    (ground (arith, e, eq_iff token ""), ground (arith, e), ground (arith, e))

module _ {S : Type 0} (texts : Texts) (svc : GsService S) (printer : Printer) where
  -- Every message of a connected player whose buffer has room is answered, be it with an error: the
  -- answer, if it can be printed, is put at the end of the buffer of the connection that stands for the
  -- player, and no other connection changes.
  pub frame_answered :
      (user : ℕ) (message answer : String) (s : S) (m : Manager) (p q : ConnPtr)
      → lookup user m.clients ≡ some p
      → has_room (m.conns p) ≡ true
      → print_answer texts svc printer (handle_message texts svc user message s).0 ≡ some answer
      → (handle_frame texts svc printer user message (s, m)).1.conns q
        ≡ (if eqb p q then accept answer (m.conns q) else m.conns q)
  unfolding handle_frame send_to_user update
  frame_answered user message answer s m p q there room printed =
      rw (printed, there, room) (ground arith)
