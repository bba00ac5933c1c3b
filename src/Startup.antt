-- ===== src/Startup.antt =====
-- The start and the end of the programs: the main functions of cmd/color_game/microservices and
-- cmd/color_game/monolith, and pkg/netutil. Sockets, servers and the clock are parameters; what main
-- wires together is in the modules of the parts.
pub mod Registered
mod Tests
use game_production.Common.{
  ℕ, zero, suc, ◌*◌, String, Bool, true, false, Option, none, some, List, [], ◌∷◌, Dict, Result, ok,
  err, Error, wrapped, Exec, if◌then◌else◌,
}
use game_production.Clock.{second}
use game_production.Rpc.Nacos.{NamingClient, register_service, deregister_service}

-- `listen` answers the port; `dial_out` the local address of a UDP socket; `graceful_stop` whether it
-- has ended within the time; `shutdown_machine` is GracefulShutdown of the state machine.
pub record Host (S : Type 0) : Type 0 where
  pub listen : String → Exec S ℕ
  pub dial_out : Exec S String
  pub sleep : ℕ → S → S
  pub graceful_stop : ℕ → S → Bool × S
  pub stop_now : S → S
  pub shutdown_http : String → S → S
  pub shutdown_machine : ℕ → Exec S (Unit {0})
  pub shutdown_sockets : S → S

module _ {S : Type 0} (host : Host S) where
  ip_of : Result String × S → String × S
  ip_of (ok ip, s) = (ip, s)
  ip_of (err e, s) = ("127.0.0.1", s)

  unfoldable pub get_outbound_ip : S → String × S
  unfolding ip_of
  get_outbound_ip s = ip_of (host.dial_out s)

  fallback : Result ℕ × S → Result ℕ × S
  fallback (ok port, s) = (ok port, s)
  fallback (err e, s) = (err (wrapped "failed to listen on preferred port and random port" e), s)

  after_preferred : Result ℕ × S → Result ℕ × S
  unfolding fallback
  after_preferred (ok port, s) = (ok port, s)
  after_preferred (err e, s) = fallback (host.listen "0" s)

  unfoldable pub listen_with_fallback : String → Exec S ℕ
  unfolding after_preferred
  listen_with_fallback port s = after_preferred (host.listen port s)

  -- The loop that registers: a failure sleeps two seconds, also the last one.
  unfoldable pub register_tries : ℕ → Exec S (Unit {0}) → S → Bool × S
  register_tries zero attempt s = (false, s)
  register_tries (suc n) attempt s =
      let (r, t) = attempt s in
      elim r [ ok _ ↦ (true, t) | err _ ↦ register_tries n attempt (host.sleep (2 * second) t) ]

  unfoldable pub register_with_retry : NamingClient S → String → String → ℕ → S → Bool × S
  unfolding register_tries register_service
  register_with_retry nacos service ip port s =
      register_tries 10 (register_service nacos service ip port []) s

  -- GracefulStop with a time limit, and then Stop.
  unfoldable pub stop_grpc : ℕ → S → S
  stop_grpc limit s =
      let (in_time, t) = host.graceful_stop limit s in if in_time then t else host.stop_now t

  -- The error of DeregisterService is dropped.
  deregister : NamingClient S → String → String → ℕ → S → S
  unfolding deregister_service
  deregister nacos service ip port s = (deregister_service nacos service ip port s).1

  unfoldable pub gs_shutdown : NamingClient S → String → ℕ → S → S
  unfolding deregister stop_grpc
  gs_shutdown nacos ip port s = stop_grpc (30 * second) (deregister nacos "gs-service" ip port s)

  unfoldable pub gms_shutdown : NamingClient S → String → ℕ → S → S
  unfolding deregister stop_grpc
  gms_shutdown nacos ip port s =
      (host.shutdown_machine (30 * second)
        (stop_grpc (5 * second) (deregister nacos "gms-service" ip port s))).1

  unfoldable pub gateway_shutdown : NamingClient S → String → ℕ → S → S
  unfolding deregister stop_grpc
  gateway_shutdown nacos ip port s = host.shutdown_sockets (
      stop_grpc (5 * second)
        (host.shutdown_http "gateway" (deregister nacos "gateway-service" ip port s)))

  unfoldable pub monolith_shutdown : S → S
  monolith_shutdown s =
      host.shutdown_sockets
        (host.shutdown_machine (30 * second)
          (host.shutdown_http "user" (host.shutdown_http "gateway" s))).1

  -- The user service goes on without Nacos if its client cannot be made, but deregisters from it at its
  -- end: `none` is a panic on the nil client.
  unfoldable pub user_shutdown : Option (NamingClient S) → String → String → ℕ → S → Option S
  unfolding deregister
  user_shutdown none name ip port s = none
  user_shutdown (some nacos) name ip port s = some (deregister nacos name ip port s)
