-- ===== src/Rpc/Client.antt =====
-- The base client: pkg/grpc_client/base/client.go, and the fan-out of pkg/grpc_client/base/gateway.go.
-- The registry (pkg/discovery) and grpc.Dial are parameters over the state `S`; `T` is what a task
-- does. A call that finds the cache empty holds singleflight to its end, so it is one step. Log lines
-- and request IDs are left out, and the names inside wrapped errors.
use game_production.Common.{
  ℕ, ◌%◌, String, string_key, Bool, true, false, Option, none, some, List, [], ◌∷◌, ◌++◌, map, Dict,
  lookup, insert, or_else, length, get_elem?, about, Result, ok, err, Exec, ◌>>=◌, ◌>>◌, pure, fail,
  or_wrap,
}
use game_production.Pool.{Pool, new_pool, submit_all}

-- A connection, by its number.
abbrev pub Conn : Type 0
Conn = ℕ

pub record BaseClient (T : Type 0) : Type 0 where
  pub conns : Dict String Conn
  pub service_addrs : Dict String (List String)
  pub subscribed : Dict String Bool
  pub broadcast_queue : Pool T
  pub closed : List Conn

pub record Registry (S : Type 0) : Type 0 where
  pub get_services : String → Exec S (List String)
  pub subscribe : String → Exec S (Unit {0})
  pub dial : String → Exec S Conn

pub record Net (S T : Type 0) : Type 0 where
  pub client : BaseClient T
  pub outside : S

unfoldable pub new_base_client : {T : Type 0} → BaseClient T
unfolding new_pool
new_base_client = record {
  conns = [];
  service_addrs = [];
  subscribed = [];
  broadcast_queue = new_pool 1024;
  closed = [];
}

-- rand.Intn(len(addrs)), for a random number.
abbrev pub chosen : ℕ → String → List String → String
chosen pick a addrs = or_else (get_elem? (a ∷ addrs) (pick % length (a ∷ addrs))) a

conns_of : Dict String Conn → List Conn
conns_of [] = []
conns_of ((_, c) ∷ rest) = c ∷ conns_of rest

module _ {S T : Type 0} (registry : Registry S) where
  -- A call of the outside.
  abbrev pub on_outside : {A : Type 0} → Exec S A → Exec (Net S T) A
  on_outside m n = let (r, s) = m n.outside in (r, record n { outside = s })

  abbrev on_client : (BaseClient T → BaseClient T) → Exec (Net S T) (Unit {0})
  on_client f n = (ok tt, record n { client = f n.client })

  -- c.serviceAddrs[serviceName] = addrs, also what the callback of a subscription does.
  unfoldable pub set_addrs : String → List String → BaseClient T → BaseClient T
  set_addrs name addrs c = record c { service_addrs = insert name addrs c.service_addrs }

  -- A service counts as subscribed only if Subscribe gave no error.
  subscribe_result : String → Result (Unit {0}) → BaseClient T → BaseClient T
  subscribe_result name (ok _) c = record c { subscribed = insert name true c.subscribed }
  subscribe_result name (err _) c = c

  subscribe_unless : Bool → String → Net S T → Result (Unit {0}) × Net S T
  unfolding subscribe_result
  subscribe_unless true name n = (ok tt, n)
  subscribe_unless false name n =
      let (r, s) = registry.subscribe name n.outside in
      (ok tt, record { client = subscribe_result name r n.client; outside = s })

  unfoldable pub ensure_subscribed : String → Exec (Net S T) (Unit {0})
  unfolding subscribe_unless
  ensure_subscribed name n =
      subscribe_unless (or_else (lookup name n.client.subscribed) false) name n

  fetch_addrs : String → Exec (Net S T) (List String)
  unfolding ensure_subscribed set_addrs
  fetch_addrs name = do
    ensure_subscribed name
    addrs ← on_outside (registry.get_services name)
    on_client (set_addrs name addrs)
    pure addrs

  addrs_or_fetch : String → List String → Exec (Net S T) (List String)
  unfolding fetch_addrs
  addrs_or_fetch name [] = or_wrap "failed to discover service" (fetch_addrs name)
  addrs_or_fetch name (a ∷ addrs) = pure (a ∷ addrs)

  -- A list that is cached and not empty is answered as it is.
  unfoldable pub get_service_addrs : String → Exec (Net S T) (List String)
  unfolding addrs_or_fetch
  get_service_addrs name n = addrs_or_fetch name (or_else (lookup name n.client.service_addrs) []) n

  dial_new : String → Exec (Net S T) Conn
  dial_new addr = do
    conn ← or_wrap "failed to dial addr" (on_outside (registry.dial addr))
    on_client (λ c. record c { conns = insert addr conn c.conns })
    pure conn

  conn_or_dial : String → Option Conn → Exec (Net S T) Conn
  unfolding dial_new
  conn_or_dial addr (some conn) = pure conn
  conn_or_dial addr none = dial_new addr

  unfoldable pub get_conn_direct : String → Exec (Net S T) Conn
  unfolding conn_or_dial
  get_conn_direct addr n = conn_or_dial addr (lookup addr n.client.conns) n

  pick_conn : ℕ → String → List String → Exec (Net S T) Conn
  unfolding get_conn_direct
  pick_conn pick name [] = fail (about "no instances found for service" name)
  pick_conn pick name (a ∷ addrs) = get_conn_direct (chosen pick a addrs)

  -- GetLBConn, which GetConn calls.
  unfoldable pub get_lb_conn : ℕ → String → Exec (Net S T) Conn
  unfolding pick_conn
  get_lb_conn pick name = do addrs ← get_service_addrs name; pick_conn pick name addrs

  -- Close leaves the connections in the map.
  unfoldable pub close : BaseClient T → BaseClient T
  unfolding conns_of
  close c = record c { closed = c.closed ++ conns_of c.conns }

  submit_to : (String → T) → List String → Net S T → Net S T
  unfolding submit_all
  submit_to task addrs n = record n {
    client = record (n.client) {
      broadcast_queue = submit_all (map task addrs) n.client.broadcast_queue;
    };
  }

  fan_out_packed : {P : Type 0} → (P → String → T) → List String → Result P → Net S T → Net S T
  unfolding submit_to
  fan_out_packed task addrs (err _) n = n
  fan_out_packed task addrs (ok p) n = submit_to (task p) addrs n

  fan_out_found :
      {P : Type 0} → (P → String → T) → Result P → Result (List String) × Net S T → Net S T
  unfolding fan_out_packed
  fan_out_found task packed (err _, n) = n
  fan_out_found task packed (ok addrs, n) = fan_out_packed task addrs packed n

  -- Broadcast and SendToUser: one task for each gateway. `packed` is what anypb.New answers, and
  -- `task` the call of the gateway at an address.
  unfoldable pub fan_out : {P : Type 0} → (P → String → T) → Result P → Net S T → Net S T
  unfolding fan_out_found get_service_addrs
  fan_out task packed n = fan_out_found task packed (get_service_addrs "gateway-service" n)
