-- ===== src/Gateway/Buffers.antt =====
-- What every connection of internal/modules/gateway/ws/manager.go keeps to, whatever the goroutines do:
-- its buffer, and the reason for which it was closed.
use game_production.Common.{
  suc, ◌≤◌, ◌<◌, nat_key, String, Bool, true, false, some, List, [], ◌∷◌, ◌++◌, length,
  length-append, ◌≡◌, refl, arith,
}
use mathlib.Core.List.{append_assoc}
use mathlib.Core.Path.{subst}
use game_production.Gateway.Connections.{
  CloseReason, Connection, ConnPtr, Manager, send_capacity, new_manager, close_with_reason, accept,
  write_pump, ping, has_room,
}
use game_production.Gateway.Sessions.{Action, run, Kept, run-Holding}

-- The buffer keeps to its capacity, and the messages accepted are, in order, those written, the one
-- whose write failed (with which WritePump ends), and those in the buffer.
pub record Orderly (c : Connection) : Type 0 where
  pub fits : length c.send ≤ send_capacity
  pub in_order : c.accepted ≡ c.written ++ (c.dropped ++ c.send)
  pub dropped_last : c.pump_done ≡ false → c.dropped ≡ []
  pub dropped_one : length c.dropped ≤ 1

close-Orderly : (r : CloseReason) (c : Connection) → Orderly c → Orderly (close_with_reason r c)
unfolding close_with_reason
close-Orderly r c h = ground (arith, h)

accept-Orderly :
    (msg : String) (c : Connection) → has_room c ≡ true → Orderly c → Orderly (accept msg c)
unfolding accept
accept-Orderly msg c room h = record {
  fits = ground (arith, length-append c.send (msg ∷ []), room, h.fits);
  in_order =
      rw
        (
          h.in_order,
          append_assoc c.written (c.dropped ++ c.send) (msg ∷ []),
          append_assoc c.dropped c.send (msg ∷ []),
        )
        refl;
  dropped_last = h.dropped_last;
  dropped_one = h.dropped_one;
}

write_buffer-Orderly :
    (success : Bool) (c : Connection) (l : List String)
    → c.send ≡ l
    → Orderly c
    → Orderly (write_pump success c)
unfolding write_pump close_with_reason
write_buffer-Orderly success c [] e h = ground (arith, e, h)
write_buffer-Orderly success c (msg ∷ rest) e h =
    ground (arith, e, h, append_assoc c.written (msg ∷ []) rest)

ping-Orderly : (success : Bool) (c : Connection) → Orderly c → Orderly (ping success c)
unfolding ping
ping-Orderly success c h = ground (arith, h)

Orderly-Kept : Kept (λ p c. Orderly c) 0
Orderly-Kept = record {
  fresh = λ p user given. ground arith;
  closes = λ p r c. close-Orderly r c;
  accepts = λ p msg c. accept-Orderly msg c;
  writes = λ p success c h. write_buffer-Orderly success c c.send refl h;
  pings = λ p success c. ping-Orderly success c;
}

-- Whatever happens in whatever order, every connection of a new manager holds at most 1024 messages,
-- and what was put into its buffer is, in that order, what its WritePump wrote, then the one message
-- whose write failed (after which it writes no more), then what the buffer holds.
pub messages_in_order :
    (acts : List Action) (p : ConnPtr) → Orderly ((run new_manager acts).conns p)
unfolding new_manager
messages_in_order acts =
    (run-Holding _ 0 Orderly-Kept acts new_manager
      (record { all = λ p. ground arith; given_out = omega arith })).all

-- The connection that `p` points to was closed for the reason `r`.
abbrev ClosedFor : ConnPtr → CloseReason → ConnPtr → Connection → Type 0
ClosedFor p r q c = p ≡ q → c.closed ≡ some r

ClosedFor-Kept : (p : ConnPtr) (r : CloseReason) → Kept (ClosedFor p r) (suc p)
unfolding close_with_reason accept write_pump ping
ClosedFor-Kept p r = record {
  fresh = λ q user given same. ground (arith, given, same);
  closes = λ q reason c h same. ground (arith, h same);
  accepts = λ q msg c room h same. ground (arith, h same);
  writes = λ q success c h same. ground (arith, h same);
  pings = λ q success c h same. ground (arith, h same);
}

-- A connection that was given out and closed stays closed, with its first reason, whatever happens later.
pub first_reason_stays :
    (acts : List Action) (m : Manager) (p : ConnPtr) (r : CloseReason)
    → p < m.next
    → (m.conns p).closed ≡ some r
    → ((run m acts).conns p).closed ≡ some r
first_reason_stays acts m p r given e =
    (run-Holding _ (suc p) (ClosedFor-Kept p r) acts m (record {
      all = λ q same. subst (λ x. (m.conns x).closed ≡ some r) same e;
      given_out = omega (arith, given);
    })).all
      p refl
