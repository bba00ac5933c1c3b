-- ===== src/Rpc/Tests/Nacos.antt =====
-- Nacos with one sick and one healthy instance of every service.
use game_production.Common.{
  ℕ, suc, string_key, String, true, false, ◌≡◌, refl, List, [], ◌∷◌, lookup, some, Result, ok, err,
  failure,
}
use game_production.Rpc.Client.{Conn, Net, get_lb_conn, get_service_addrs}
use game_production.Rpc.Nacos.{
  Instance, NamingClient, nacos_registry, get_services, addresses, address_of, serves,
  first_connection_healthy,
}
use game_production.Rpc.Tests.{start}

abbrev sick : Instance
sick = record { ip = "10.0.0.1"; port = 1; enable = true; healthy = false }

abbrev well : Instance
well = record { ip = "10.0.0.2"; port = 1; enable = true; healthy = true }

abbrev nacos : NamingClient ℕ
nacos = record {
  register_instance = λ service ip port metadata n. (ok true, suc n);
  deregister_instance = λ service ip port n. (ok true, suc n);
  select_one_healthy = λ service n. (ok well, suc n);
  select_instances = λ service n. (ok (sick ∷ well ∷ []), suc n);
  subscribe = λ service n. (err (failure "no push"), suc n);
  services_info = λ page size n. (ok [], suc n);
  decimal = λ n. "1";
}

abbrev dial : String → ℕ → Result Conn × ℕ
dial addr n = (ok n, suc n)

abbrev after_call : Net ℕ String
unfolding get_lb_conn
after_call = (get_lb_conn (nacos_registry nacos dial) 5 "gms-service" start).1

first_connection_healthy_test :
    (addr : String) × (s : ℕ) × (is : List Instance) × ((nacos.select_instances "gms-service" s).0
      ≡ ok is)
    × (serves nacos addr is ≡ true)
    × (lookup addr after_call.client.conns ≡ some 2)
unfolding after_call start get_lb_conn get_service_addrs lookup get_services addresses address_of
first_connection_healthy_test =
    first_connection_healthy nacos dial 5 "gms-service" start after_call 2 refl refl
