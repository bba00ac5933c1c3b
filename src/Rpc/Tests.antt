-- ===== src/Rpc/Tests.antt =====
-- A registry of one service with two instances, and a dial that numbers its connections.
mod Trust
mod Nacos
use mathlib.Core.List.{Perm, Mem}
use game_production.Common.{
  none, if◌then◌else◌, ℕ, suc, ◌==◌, string_key, String, ◌≡◌, refl, concat, List, [], ◌∷◌, ◌++◌,
  map, lookup, some, ok, err, failure,
}
use game_production.Pool.Jobs.{all_jobs}
use game_production.Rpc.Client.{
  Registry, Net, new_base_client, set_addrs, get_service_addrs, get_conn_direct, get_lb_conn,
  fan_out,
}
use game_production.Rpc.Profiles.{
  DataType, Chunk, Stream, cpu_profile, trace_data, no_data, received, joined, profiles_joined,
}
use game_production.Rpc.Discovery.{connection_reused, pushed_addrs, fan_out_once, get_lb_conn_found}

-- The state counts the calls.
abbrev registry : Registry ℕ
registry = record {
  get_services = λ name n.
      (if name == "gateway-service" then ok ("a:1" ∷ "b:2" ∷ []) else err (failure "none"), suc n);
  subscribe = λ name n. (ok tt, suc n);
  dial = λ addr n. (ok n, suc n);
}

abbrev start : Net ℕ String
unfolding new_base_client
start = record { client = new_base_client; outside = 0 }

abbrev dialled : Net ℕ String
unfolding get_conn_direct
dialled = (get_conn_direct registry "a:1" start).1

connection_reused_test : get_conn_direct registry "a:1" dialled ≡ (ok 0, dialled)
unfolding get_conn_direct lookup start
connection_reused_test = connection_reused registry "a:1" start dialled 0 refl

abbrev after_push : Net ℕ String
unfolding set_addrs
after_push = record start {
  client = set_addrs registry "gateway-service" ("c:3" ∷ []) start.client;
}

pushed_addrs_test :
    get_service_addrs registry "gateway-service" after_push ≡ (ok ("c:3" ∷ []), after_push)
unfolding set_addrs
pushed_addrs_test = pushed_addrs registry "gateway-service" "c:3" [] start

abbrev discovered : Net ℕ String
unfolding get_service_addrs
discovered = (get_service_addrs registry "gateway-service" start).1

abbrev task : String → String → String
task p addr = concat p addr

fan_out_once_test :
    Perm
      (all_jobs (fan_out registry task (ok "event") start).client.broadcast_queue)
      (map (task "event") ("a:1" ∷ "b:2" ∷ []) ++ all_jobs discovered.client.broadcast_queue)
unfolding get_service_addrs lookup start
fan_out_once_test = fan_out_once registry task "event" ("a:1" ∷ "b:2" ∷ []) start discovered refl

abbrev balanced : Net ℕ String
unfolding get_lb_conn
balanced = (get_lb_conn registry 3 "gateway-service" start).1

get_lb_conn_found_test :
    (addrs : List String) × (addr : String) × ((get_service_addrs registry "gateway-service"
        start).0
      ≡ ok addrs)
    × Mem addr addrs
    × (lookup addr balanced.client.conns ≡ some 2)
unfolding get_lb_conn get_service_addrs lookup start
get_lb_conn_found_test = get_lb_conn_found registry 3 "gateway-service" start balanced 2 refl

abbrev chunk_of : DataType → List ℕ → Chunk
chunk_of t bytes = record { timestamp = 0; service_name = "gms"; data_type = t; bytes = bytes }

abbrev stream : Stream
stream = record {
  chunks =
      chunk_of cpu_profile (1 ∷ [])
      ∷ chunk_of trace_data (2 ∷ [])
      ∷ chunk_of cpu_profile (3 ∷ [])
      ∷ [];
  ending = none;
}

profiles_joined_test : (1 ∷ 3 ∷ []) ≡ joined cpu_profile stream.chunks
unfolding received no_data
profiles_joined_test =
    profiles_joined cpu_profile stream
      (record no_data { service_name = "gms"; cpu_profile = 1 ∷ 3 ∷ []; trace_data = 2 ∷ [] }) refl
