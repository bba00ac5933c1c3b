-- ===== src/Gateway/Sessions.antt =====
-- The manager of internal/modules/gateway/ws/manager.go among the goroutines that use it: pumps,
-- broadcasts, sends and timeouts, in any order.
use game_production.Common.{
  ℕ, ◌≤◌, nat_key, String, Bool, true, eqb, List, [], ◌∷◌, Dict, lookup, get_elem?, ◌≡◌, arith,
  Option-cases, Bool-cases, eqb_iff, inl, inr,
}
use mathlib.Core.Path.{subst}
use game_production.Gateway.Connections.{
  CloseReason, read_error, shutdown, buffer_full, replaced, timeout, new_connection, Connection,
  ConnPtr, Manager, update, close_with_reason, offer, accept, register, unregister, broadcast,
  shutdown_all, send_to_user, deliver, time_out, write_pump, ping, for_clients, has_room,
}

pub data Action : Type 0 where
  registers : ℕ → Action
  unregisters : ConnPtr → Action
  broadcasts : String → Action
  sends : ℕ → String → Action
  delivers : ℕ → Action
  times_out : ℕ → Action
  writes : ConnPtr → Bool → Action
  pings : ConnPtr → Bool → Action
  reads_fail : ConnPtr → Action
  shuts_down : Action

unfoldable pub act : Action → Manager → Manager
act (registers user) m = register user m
act (unregisters p) m = unregister p m
act (broadcasts msg) m = broadcast msg m
act (sends user msg) m = send_to_user user msg m
act (delivers i) m = deliver i m
act (times_out i) m = time_out i m
act (writes p success) m = record m { conns = update p (write_pump success) m.conns }
act (pings p success) m = record m { conns = update p (ping success) m.conns }
act (reads_fail p) m = record m { conns = update p (close_with_reason read_error) m.conns }
act shuts_down m = shutdown_all m

unfoldable pub run : Manager → List Action → Manager
run m [] = m
run m (a ∷ acts) = run (act a m) acts

-- A property of the connection that a pointer points to, kept by all that is done to a connection,
-- where the pointers from `first` on are not yet given out.
pub record Kept (P : ConnPtr → Connection → Type 0) (first : ConnPtr) : Type 0 where
  pub fresh : (p : ConnPtr) (user : ℕ) → first ≤ p → P p (new_connection user)
  pub closes :
      (p : ConnPtr) (r : CloseReason) (c : Connection) → P p c → P p (close_with_reason r c)
  pub accepts :
      (p : ConnPtr) (msg : String) (c : Connection) → has_room c ≡ true → P p c → P p (accept msg c)
  pub writes : (p : ConnPtr) (success : Bool) (c : Connection) → P p c → P p (write_pump success c)
  pub pings : (p : ConnPtr) (success : Bool) (c : Connection) → P p c → P p (ping success c)

module _ (P : ConnPtr → Connection → Type 0) (first : ConnPtr) (k : Kept P first) where
  abbrev pub Holds : (ConnPtr → Connection) → Type 0
  Holds h = (q : ConnPtr) → P q (h q)

  update-Holds :
      (p : ConnPtr) (f : Connection → Connection) (h : ConnPtr → Connection)
      → Holds h
      → P p (f (h p))
      → Holds (update p f h)
  unfolding update
  update-Holds p f h all here q = elim (Bool-cases (eqb p q)) [
    | inl same ↦ rw same (subst (λ x. P x (f (h x))) ((eqb_iff p q).0 same) here)
    | inr other ↦ rw other (all q)
  ]

  offer-kept : (p : ConnPtr) (msg : String) (c : Connection) → P p c → P p (offer msg c)
  unfolding offer
  offer-kept p msg c h = elim (Bool-cases (has_room c)) [
    | inl room ↦ rw room (k.accepts p msg c room h)
    | inr full ↦ rw full (k.closes p buffer_full c h)
  ]

  for_clients-Holds :
      (f : Connection → Connection) (l : Dict ℕ ConnPtr) (h : ConnPtr → Connection)
      → ((p : ConnPtr) (c : Connection) → P p c → P p (f c))
      → Holds h
      → Holds (for_clients f l h)
  unfolding for_clients
  for_clients-Holds f [] h keeps all = all
  for_clients-Holds f ((u, p) ∷ l) h keeps all =
      for_clients-Holds f l (update p f h) keeps (update-Holds p f h all (keeps p (h p) (all p)))

  -- The invariant of a manager.
  pub record Holding (m : Manager) : Type 0 where
    pub all : Holds m.conns
    pub given_out : first ≤ m.next

  register-Holding : (user : ℕ) (m : Manager) → Holding m → Holding (register user m)
  unfolding register
  register-Holding user m v =
      let new =
        update-Holds m.next (λ c. new_connection user) m.conns v.all
          (k.fresh m.next user v.given_out) in
      elim (Option-cases (lookup user m.clients)) [
        | inl none_there ↦
            rw none_there (record { all = new; given_out = omega (arith, v.given_out) })
        | inr (old, there) ↦ rw there (record {
          all =
              update-Holds old (close_with_reason replaced) _ new
                (k.closes old replaced _ (new old));
          given_out = omega (arith, v.given_out);
        })
      ]

  unregister-Holding : (p : ConnPtr) (m : Manager) → Holding m → Holding (unregister p m)
  unfolding unregister
  unregister-Holding p m v = elim (Option-cases (lookup (m.conns p).user_id m.clients)) [
    | inl none_there ↦ rw none_there v
    | inr (q, there) ↦ rw there (record {
      all =
          update-Holds p (close_with_reason shutdown) m.conns v.all
            (k.closes p shutdown _ (v.all p));
      given_out = v.given_out;
    })
  ]

  send_to_user-Holding :
      (user : ℕ) (msg : String) (m : Manager) → Holding m → Holding (send_to_user user msg m)
  unfolding send_to_user
  send_to_user-Holding user msg m v = elim (Option-cases (lookup user m.clients)) [
    | inl none_there ↦ rw none_there v
    | inr (p, there) ↦ rw there (elim (Bool-cases (has_room (m.conns p))) [
      | inl room ↦ rw room (record {
        all = update-Holds p (accept msg) m.conns v.all (k.accepts p msg _ room (v.all p));
        given_out = v.given_out;
      })
      | inr full ↦ rw full (record { all = v.all; given_out = v.given_out })
    ])
  ]

  deliver-Holding : (i : ℕ) (m : Manager) → Holding m → Holding (deliver i m)
  unfolding deliver
  deliver-Holding i m v = elim (Option-cases (get_elem? m.waiting i)) [
    | inl none_there ↦ rw none_there v
    | inr ((p, msg), there) ↦ rw there (elim (Bool-cases (has_room (m.conns p))) [
      | inl room ↦ rw room (record {
        all = update-Holds p (accept msg) m.conns v.all (k.accepts p msg _ room (v.all p));
        given_out = v.given_out;
      })
      | inr full ↦ rw full v
    ])
  ]

  time_out-Holding : (i : ℕ) (m : Manager) → Holding m → Holding (time_out i m)
  unfolding time_out
  time_out-Holding i m v = elim (Option-cases (get_elem? m.waiting i)) [
    | inl none_there ↦ rw none_there v
    | inr ((p, msg), there) ↦ rw there (record {
      all =
          update-Holds p (close_with_reason timeout) m.conns v.all (k.closes p timeout _ (v.all p));
      given_out = v.given_out;
    })
  ]

  pub act-Holding : (a : Action) (m : Manager) → Holding m → Holding (act a m)
  unfolding act broadcast shutdown_all
  act-Holding (registers user) m v = register-Holding user m v
  act-Holding (unregisters p) m v = unregister-Holding p m v
  act-Holding (broadcasts msg) m v = record {
    all = for_clients-Holds (offer msg) m.clients m.conns (λ p c. offer-kept p msg c) v.all;
    given_out = v.given_out;
  }
  act-Holding (sends user msg) m v = send_to_user-Holding user msg m v
  act-Holding (delivers i) m v = deliver-Holding i m v
  act-Holding (times_out i) m v = time_out-Holding i m v
  act-Holding (writes p success) m v = record {
    all = update-Holds p (write_pump success) m.conns v.all (k.writes p success _ (v.all p));
    given_out = v.given_out;
  }
  act-Holding (pings p success) m v = record {
    all = update-Holds p (ping success) m.conns v.all (k.pings p success _ (v.all p));
    given_out = v.given_out;
  }
  act-Holding (reads_fail p) m v = record {
    all =
        update-Holds p (close_with_reason read_error) m.conns v.all
          (k.closes p read_error _ (v.all p));
    given_out = v.given_out;
  }
  act-Holding shuts_down m v = record {
    all =
        for_clients-Holds (close_with_reason shutdown) m.clients m.conns
          (λ p c. k.closes p shutdown c) v.all;
    given_out = v.given_out;
  }

  pub run-Holding : (acts : List Action) (m : Manager) → Holding m → Holding (run m acts)
  unfolding run
  run-Holding [] m v = v
  run-Holding (a ∷ acts) m v = run-Holding acts (act a m) (act-Holding a m v)
