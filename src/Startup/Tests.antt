-- ===== src/Startup/Tests.antt =====
-- A host on which Nacos accepts the third attempt.
use game_production.Common.{
  ℕ, suc, ◌*◌, ◌<◌, Bool, true, false, none, [], ok, err, failure, ltb, Exec, ◌≡◌, ◌↔◌, refl,
  if◌then◌else◌,
}
use game_production.Clock.{second}
use game_production.Rpc.Nacos.{NamingClient, register_service}
use game_production.Startup.{
  Host, register_with_retry, register_tries, gms_shutdown, get_outbound_ip, user_shutdown,
}
use game_production.Startup.Registered.{at_attempt, registered_iff, Serving, gms_stops_unserved}

-- The state counts the calls, and whether gRPC serves.
record Machine : Type 0 where
  calls : ℕ
  serves : Bool

abbrev counted : Machine → Machine
counted m = record m { calls = suc m.calls }

abbrev host : Host Machine
host = record {
  listen = λ port m. (err (failure "in use"), counted m);
  dial_out = λ m. (err (failure "no network"), m);
  sleep = λ d m. m;
  graceful_stop = λ limit m. (false, counted m);
  stop_now = λ m. record m { serves = false };
  shutdown_http = λ name m. counted m;
  shutdown_machine = λ limit m. (ok tt, counted m);
  shutdown_sockets = λ m. counted m;
}

abbrev absent : {A : Type 0} → Exec Machine A
absent m = (err (failure "not here"), m)

abbrev nacos : NamingClient Machine
nacos = record {
  register_instance = λ service ip port metadata m.
      (if ltb m.calls 2 then err (failure "not ready") else ok true, counted m);
  deregister_instance = λ service ip port m. (ok true, counted m);
  select_one_healthy = λ service. absent;
  select_instances = λ service. absent;
  subscribe = λ service. absent;
  services_info = λ page size. absent;
  decimal = λ n. "1";
}

abbrev fresh : Machine
fresh = record { calls = 0; serves = true }

registered_test :
    register_with_retry host nacos "gs-service" "10.0.0.1" 50051 fresh
    ≡ (true, record fresh { calls = 3 })
unfolding register_with_retry register_tries register_service
registered_test = refl

no_network_test : (get_outbound_ip host fresh).0 ≡ "127.0.0.1"
unfolding get_outbound_ip
no_network_test = refl

-- The nil client of a user service without Nacos.
user_shutdown_panics : user_shutdown host none "user-service" "10.0.0.1" 50051 fresh ≡ none
unfolding user_shutdown
user_shutdown_panics = refl

registered_iff_example :
    ((register_with_retry host nacos "gs-service" "10.0.0.1" 50051 fresh).0 ≡ true) ↔ (
      (i : ℕ) × (i < 10)
      × ((register_service nacos "gs-service" "10.0.0.1" 50051 []
            (at_attempt host (register_service nacos "gs-service" "10.0.0.1" 50051 []) i fresh)).0
          ≡ ok tt))
registered_iff_example = registered_iff host nacos "gs-service" "10.0.0.1" 50051 fresh

late : ◌≡◌ {A = Bool} false true → ⊥
late h = cc

abbrev serving : Serving host
serving = record {
  is_serving = λ m. m.serves;
  stopped_in_time = λ limit m h. absurd (late h);
  stopped_now = λ m. refl;
}

gms_stops_unserved_test :
    (t : Machine) × (t.serves ≡ false)
    × (gms_shutdown host nacos "10.0.0.1" 50051 fresh ≡ (host.shutdown_machine (30 * second) t).1)
gms_stops_unserved_test = gms_stops_unserved host serving nacos "10.0.0.1" 50051 fresh
