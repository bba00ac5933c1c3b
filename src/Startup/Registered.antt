-- ===== src/Startup/Registered.antt =====
-- That the programs of cmd/color_game/microservices register, and in which order they stop.
use game_production.Common.{
  ℕ, zero, suc, ◌*◌, ◌<◌, String, Bool, true, false, [], Result, ok, err, Exec, ◌≡◌, ◌↔◌, refl,
  arith,
}
use game_production.Clock.{second}
use game_production.Rpc.Nacos.{NamingClient, register_service}
use game_production.Startup.{
  Host, register_tries, register_with_retry, stop_grpc, gms_shutdown, deregister,
}

module _ {S : Type 0} (host : Host S) where
  module _ (attempt : Exec S (Unit {0})) where
    -- The state in which the attempt with this number is made, if all before it fail.
    abbrev pub at_attempt : ℕ → S → S
    at_attempt zero s = s
    at_attempt (suc i) s = at_attempt i (host.sleep (2 * second) (attempt s).1)

    Accepted : ℕ → S → Type 0
    Accepted n s = (i : ℕ) × (i < n) × ((attempt (at_attempt i s)).0 ≡ ok tt)

    tries-Accepted : (n : ℕ) (s : S) → (register_tries host n attempt s).0 ≡ true → Accepted n s
    unfolding register_tries Accepted
    tries-Accepted zero s h = absurd (ground arith)
    tries-Accepted (suc n) s h = go (tries-Accepted n next) (attempt s).0 refl
      where
        next : S
        next = host.sleep (2 * second) (attempt s).1

        go :
            ((register_tries host n attempt next).0 ≡ true → Accepted n next)
            → (q : Result (Unit {0})) → (attempt s).0 ≡ q
            → Accepted (suc n) s
        go rec (ok u) e = (0, omega arith, e)
        go rec (err x) e =
            let (i, below, accepted) = rec (ground (arith, h, e)) in (suc i, omega arith, accepted)

    accepted-tries :
        (n i : ℕ) (s : S)
        → i < n
        → (attempt (at_attempt i s)).0 ≡ ok tt
        → (register_tries host n attempt s).0 ≡ true
    unfolding register_tries
    accepted-tries zero i s l h = absurd (omega arith)
    accepted-tries (suc n) zero s l h = ground (arith, h)
    accepted-tries (suc n) (suc i) s l h =
        ground (arith, accepted-tries n i (host.sleep (2 * second) (attempt s).1) (omega arith) h)

  -- A service is registered exactly if Nacos accepts one of its first ten attempts, of which each is made
  -- two seconds after the one before has failed.
  pub registered_iff :
      (nacos : NamingClient S) (service ip : String) (port : ℕ) (s : S)
      → ((register_with_retry host nacos service ip port s).0 ≡ true) ↔ (
          (i : ℕ) × (i < 10)
          × ((register_service nacos service ip port []
                (at_attempt (register_service nacos service ip port []) i s)).0
              ≡ ok tt))
  unfolding register_with_retry Accepted
  registered_iff nacos service ip port s =
      let attempt : Exec S (Unit {0}) = register_service nacos service ip port [] in
      (
        tries-Accepted attempt 10 s,
        λ (i, below, accepted). accepted-tries attempt 10 i s below accepted,
      )

  -- What a gRPC server promises: none is served once it has stopped, in time or at once.
  pub record Serving : Type 0 where
    pub is_serving : S → Bool
    pub stopped_in_time :
        (limit : ℕ) (s : S)
        → (host.graceful_stop limit s).0 ≡ true
        → is_serving (host.graceful_stop limit s).1 ≡ false
    pub stopped_now : (s : S) → is_serving (host.stop_now s) ≡ false

  -- When the GMS shuts down, its game loop is told to stop only in a state in which no call is served any
  -- more, whether the calls under way have ended in time or not.
  pub gms_stops_unserved :
      (serving : Serving) (nacos : NamingClient S) (ip : String) (port : ℕ) (s : S)
      → (t : S) × (serving.is_serving t ≡ false)
        × (gms_shutdown host nacos ip port s ≡ (host.shutdown_machine (30 * second) t).1)
  unfolding gms_shutdown stop_grpc
  gms_stops_unserved serving nacos ip port s =
      let s1 : S = deregister host nacos "gms-service" ip port s in
      (
        stop_grpc host (5 * second) s1,
        ground (
          arith,
          serving.stopped_in_time (5 * second) s1,
          serving.stopped_now (host.graceful_stop (5 * second) s1).1,
        ),
        refl,
      )
