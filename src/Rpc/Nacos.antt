-- ===== src/Rpc/Nacos.antt =====
-- The registry: pkg/discovery/registry.go and pkg/discovery/nacos.go. The Nacos client and the decimal
-- text of a port are parameters.
use mathlib.Core.Path.{subst}
use mathlib.Core.Logic.Or
use mathlib.Core.List.{Mem, not-mem-nil, mem-cons}
use game_production.Common.{
  ℕ, String, string_key, concat, Bool, true, false, ◌&&◌, ◌||◌, ◌==◌, same_self, lookup, Dict,
  Option, none, some, List, [], ◌∷◌, failure, Result, ok, err, Exec, ◌>>=◌, pure, or_wrap, fail,
  ◌≡◌, refl, arith, if◌then◌else◌,
}
use game_production.Rpc.Client.{Conn, Registry, Net, get_lb_conn}
use game_production.Rpc.Discovery.{get_lb_conn_found, fetched_addrs}

-- model.Instance
pub record Instance : Type 0 where
  pub ip : String
  pub port : ℕ
  pub enable : Bool
  pub healthy : Bool

pub record NamingClient (S : Type 0) : Type 0 where
  pub register_instance : String → String → ℕ → Dict String String → Exec S Bool
  pub deregister_instance : String → String → ℕ → Exec S Bool
  pub select_one_healthy : String → Exec S Instance
  pub select_instances : String → Exec S (List Instance)
  pub subscribe : String → Exec S (Unit {0})
  pub services_info : ℕ → ℕ → Exec S (List String)  -- of a page and its size
  pub decimal : ℕ → String

module _ {S : Type 0} (nacos : NamingClient S) where
  unfoldable pub address_of : Instance → String
  address_of i = concat i.ip (concat ":" (nacos.decimal i.port))

  succeeded : String → Bool → Exec S (Unit {0})
  succeeded text b = if b then pure tt else fail (failure text)

  unfoldable pub register_service : String → String → ℕ → Dict String String → Exec S (Unit {0})
  unfolding succeeded
  register_service service ip port metadata = do
    success ←
        or_wrap "failed to register service" (nacos.register_instance service ip port metadata)
    succeeded "register service returned false" success

  unfoldable pub deregister_service : String → String → ℕ → Exec S (Unit {0})
  unfolding succeeded
  deregister_service service ip port = do
    success ← or_wrap "failed to deregister service" (nacos.deregister_instance service ip port)
    succeeded "deregister service returned false" success

  unfoldable pub get_service : String → Exec S String
  unfolding address_of
  get_service service = do
    i ← or_wrap "failed to get service instance" (nacos.select_one_healthy service)
    pure (address_of i)

  -- The loop over the instances, in GetServices and in what Subscribe calls.
  unfoldable pub addresses : List Instance → List String
  unfolding address_of
  addresses [] = []
  addresses (i ∷ is) =
      let rest = addresses is in if i.enable && i.healthy then address_of i ∷ rest else rest

  unfoldable pub get_services : String → Exec S (List String)
  unfolding addresses
  get_services service = do
    is ← or_wrap "failed to get service instances" (nacos.select_instances service)
    pure (addresses is)

  -- The argument of the callback on a push, which may be an error.
  unfoldable pub pushed : Result (List Instance) → Option (List String)
  unfolding addresses
  pushed (err e) = none
  pushed (ok is) = some (addresses is)

  unfoldable pub get_all_services_list : Exec S (List String)
  get_all_services_list = or_wrap "failed to list services" (nacos.services_info 1 100)

  -- As the base client's registry, beside grpc.Dial.
  abbrev pub nacos_registry : (String → Exec S Conn) → Registry S
  nacos_registry dial = record {
    get_services = get_services;
    subscribe = nacos.subscribe;
    dial = dial;
  }

  -- Whether one of the instances is enabled, is healthy and has the address.
  abbrev pub serves : String → List Instance → Bool
  serves a [] = false
  serves a (i ∷ is) = i.enable && i.healthy && address_of i == a || serves a is

  addresses-serves : (a : String) (is : List Instance) → Mem a (addresses is) → serves a is ≡ true
  unfolding addresses
  addresses-serves a [] m = absurd (not-mem-nil m)
  addresses-serves a (i ∷ is) m = go (λ k. addresses-serves a is k) (i.enable && i.healthy) refl
    where
      go :
          (Mem a (addresses is) → serves a is ≡ true)
          → (b : Bool) → (i.enable && i.healthy) ≡ b
          → serves a (i ∷ is) ≡ true
      go rec false e =
          let rest : Mem a (addresses is) = subst (λ l. Mem a l) (ground (arith, e)) m in
          ground (arith, rec rest)
      go rec true e =
          let here : Mem a (address_of i ∷ addresses is) =
            subst (λ l. Mem a l) (ground (arith, e)) m in
          let is_prop : IsProp (serves a (i ∷ is) ≡ true) = hlevel in
          Or.elim is_prop (mem-cons.0 here) (λ same. ground (arith, e, same, same_self a))
            (λ k. ground (arith, rec k))

  get_services-addresses :
      (service : String) (s s' : S) (addrs : List String)
      → get_services service s ≡ (ok addrs, s')
      → (is : List Instance) × (nacos.select_instances service s ≡ (ok is, s'))
        × (addrs ≡ addresses is)
  unfolding get_services
  get_services-addresses service s s' addrs e = go (nacos.select_instances service s) refl
    where
      go :
          (r : Result (List Instance) × S)
          → nacos.select_instances service s ≡ r
          → (is : List Instance) × (nacos.select_instances service s ≡ (ok is, s'))
            × (addrs ≡ addresses is)
      go (ok is, t) same = (is, ground (arith, e, same), ground (arith, e, same))
      go (err x, t) same = absurd (ground (arith, e, same))

  -- Over Nacos, the connection that load balancing answers to a client that has no addresses of the
  -- service is one to the address of an instance that Nacos has just answered as enabled and healthy.
  pub first_connection_healthy :
      {T : Type 0} (dial : String → Exec S Conn) (pick : ℕ) (service : String) (n n' : Net S T)
      (c : Conn)
      → lookup service n.client.service_addrs ≡ none
      → get_lb_conn (nacos_registry dial) pick service n ≡ (ok c, n')
      → (addr : String) × (s : S) × (is : List Instance) × ((nacos.select_instances service s).0
          ≡ ok is)
        × (serves addr is ≡ true)
        × (lookup addr n'.client.conns ≡ some c)
  first_connection_healthy dial pick service n n' c unknown e =
      let (addrs, addr, found, m, cached) =
        get_lb_conn_found (nacos_registry dial) pick service n n' c e in
      let (s, s', fetched) = fetched_addrs (nacos_registry dial) service n addrs unknown found in
      let (is, selected, same) = get_services-addresses service s s' addrs fetched in
      (
        addr,
        s,
        is,
        ground (arith, selected),
        addresses-serves addr is (subst (λ l. Mem addr l) same m),
        cached,
      )
