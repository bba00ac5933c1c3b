-- ===== src/Rpc/Discovery.antt =====
-- How the base client of pkg/grpc_client/base finds and reuses connections.
use mathlib.Core.List.{Perm, Mem, mem-cons_self, mem-cons_of_mem}
use game_production.Common.{none, Bool, true, false}
use game_production.Common.{
  ℕ, zero, suc, ◌%◌, ◌<◌, string_key, String, some, List, [], ◌∷◌, ◌++◌, map, lookup, or_else,
  lookup-insert, length, get_elem?, Result, ok, err, ◌≡◌, refl, arith, same_self,
}
use game_production.Pool.Jobs.{all_jobs, submit_all-all_jobs}
use game_production.Rpc.Client.{
  Conn, Registry, Net, set_addrs, get_service_addrs, get_conn_direct, get_lb_conn, chosen, fan_out,
}

get_elem?-Mem :
    (a : String) (addrs : List String) (i : ℕ)
    → i < length addrs
    → Mem (or_else (get_elem? addrs i) a) addrs
get_elem?-Mem a [] i l = absurd (omega arith)
get_elem?-Mem a (b ∷ addrs) zero l = mem-cons_self
get_elem?-Mem a (b ∷ addrs) (suc i) l = mem-cons_of_mem b (get_elem?-Mem a addrs i (omega arith))

chosen-Mem : (pick : ℕ) (a : String) (addrs : List String) → Mem (chosen pick a addrs) (a ∷ addrs)
chosen-Mem pick a addrs = get_elem?-Mem a (a ∷ addrs) (pick % length (a ∷ addrs)) (omega arith)

module _ {S T : Type 0} (registry : Registry S) where
  get_conn_direct-cached :
      (addr : String) (n n' : Net S T) (c : Conn)
      → get_conn_direct registry addr n ≡ (ok c, n')
      → lookup addr n'.client.conns ≡ some c
  unfolding get_conn_direct
  get_conn_direct-cached addr n n' c e =
      ground (arith, e, lookup-insert addr addr c n.client.conns, same_self addr)

  -- Once there is a connection to an address, it is answered again without a dial and without any
  -- change.
  pub connection_reused :
      (addr : String) (n n' : Net S T) (c : Conn)
      → get_conn_direct registry addr n ≡ (ok c, n')
      → get_conn_direct registry addr n' ≡ (ok c, n')
  unfolding get_conn_direct
  connection_reused addr n n' c e = rw (get_conn_direct-cached addr n n' c e, get_conn_direct) refl

  -- After the registry has pushed instances of a service, they are what discovery answers, with no call
  -- of the registry.
  pub pushed_addrs :
      (name a : String) (addrs : List String) (n : Net S T)
      → get_service_addrs registry name
          (record n { client = set_addrs registry name (a ∷ addrs) n.client })
        ≡ (ok (a ∷ addrs), record n { client = set_addrs registry name (a ∷ addrs) n.client })
  unfolding get_service_addrs set_addrs
  pushed_addrs name a addrs n = rw (
    lookup-insert name name (a ∷ addrs) n.client.service_addrs,
    same_self name,
    get_service_addrs,
  )

  -- A broadcast, or a message to a user, whose gateways are found and whose event is packed, adds to the
  -- jobs of the worker pool one task for each gateway, and none else.
  pub fan_out_once :
      {P : Type 0} (task : P → String → T) (packed : P) (addrs : List String) (n n' : Net S T)
      → get_service_addrs registry "gateway-service" n ≡ (ok addrs, n')
      → Perm
          (all_jobs (fan_out registry task (ok packed) n).client.broadcast_queue)
          (map (task packed) addrs ++ all_jobs n'.client.broadcast_queue)
  unfolding fan_out
  fan_out_once task packed addrs n n' e =
      rw (e, fan_out) (submit_all-all_jobs (map (task packed) addrs) n'.client.broadcast_queue)

  -- A connection that load balancing answers is the one to an instance that discovery has found for the
  -- service.
  pub get_lb_conn_found :
      (pick : ℕ) (name : String) (n n' : Net S T) (c : Conn)
      → get_lb_conn registry pick name n ≡ (ok c, n')
      → (addrs : List String) × (addr : String) × ((get_service_addrs registry name n).0 ≡ ok addrs)
        × Mem addr addrs
        × (lookup addr n'.client.conns ≡ some c)
  unfolding get_lb_conn
  get_lb_conn_found pick name n n' c e = go (get_service_addrs registry name n) refl
    where
      go :
          (r : Result (List String) × Net S T)
          → get_service_addrs registry name n ≡ r
          → (addrs : List String) × (addr : String) × ((get_service_addrs registry name n).0
              ≡ ok addrs)
            × Mem addr addrs
            × (lookup addr n'.client.conns ≡ some c)
      go (ok (a ∷ addrs), m) found = (
        a ∷ addrs,
        chosen pick a addrs,
        ground (arith, found),
        chosen-Mem pick a addrs,
        get_conn_direct-cached (chosen pick a addrs) m n' c (ground (arith, e, found)),
      )
      go (ok [], m) found = absurd (ground (arith, e, found))
      go (err x, m) found = absurd (ground (arith, e, found))

  -- What discovery answers of a service whose addresses are not known is what the registry answers.
  pub fetched_addrs :
      (name : String) (n : Net S T) (addrs : List String)
      → lookup name n.client.service_addrs ≡ none
      → (get_service_addrs registry name n).0 ≡ ok addrs
      → (s : S) × (s' : S) × (registry.get_services name s ≡ (ok addrs, s'))
  unfolding get_service_addrs
  fetched_addrs name n addrs unknown e =
      go (or_else (lookup name n.client.subscribed) false) refl (registry.subscribe name n.outside)
        refl
    where
      Fetched : Type 0
      Fetched = (s : S) × (s' : S) × (registry.get_services name s ≡ (ok addrs, s'))

      subscribed_now :
          (u : Result (Unit {0})) (s : S) (r : Result (List String) × S)
          → or_else (lookup name n.client.subscribed) false ≡ false
          → registry.subscribe name n.outside ≡ (u, s)
          → registry.get_services name s ≡ r
          → Fetched
      subscribed_now (ok x) s (ok l, t) flag done same =
          (s, t, ground (arith, e, unknown, flag, done, same))
      subscribed_now (err x) s (ok l, t) flag done same =
          (s, t, ground (arith, e, unknown, flag, done, same))
      subscribed_now (ok x) s (err y, t) flag done same =
          absurd (ground (arith, e, unknown, flag, done, same))
      subscribed_now (err x) s (err y, t) flag done same =
          absurd (ground (arith, e, unknown, flag, done, same))

      subscribed_before :
          (r : Result (List String) × S)
          → or_else (lookup name n.client.subscribed) false ≡ true
          → registry.get_services name n.outside ≡ r
          → Fetched
      subscribed_before (ok l, t) flag same = (n.outside, t, ground (arith, e, unknown, flag, same))
      subscribed_before (err y, t) flag same = absurd (ground (arith, e, unknown, flag, same))

      go :
          (b : Bool)
          → or_else (lookup name n.client.subscribed) false ≡ b
          → (q : Result (Unit {0}) × S) → registry.subscribe name n.outside ≡ q
          → Fetched
      go true flag q done = subscribed_before _ flag refl
      go false flag (u, s) done = subscribed_now u s _ flag done refl
