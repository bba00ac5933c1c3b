-- ===== src/Robot/Tries.antt =====
-- The tries of Register, Login and Run of cmd/color_game/test_robot/main.go: how many requests one
-- robot sends until it has connected or given up.
use native.Mathlib.Nat.{le_trans}
use game_production.Common.{
  ℕ, zero, suc, ◌+◌, ◌≤◌, String, concat, failure, Result, ok, err, Error, Exec, or_wrap, ◌>>=◌,
  ◌>>◌, pure, ◌≡◌, refl, arith,
}
use game_production.Robot.{
  Robot, Server, Verdict, again, done, tries, register_once, login_once, register, login, connect,
  after_login,
}

module _ {S : Type 0} (count : S → ℕ) where
  -- Each try counts at most one more.
  tries-count :
      (try : S → Verdict × S)
      → ((s : S) → count (try s).1 ≤ suc (count s))
      → (n : ℕ) (last : Error) (s : S) → count (tries n last try s).1 ≤ n + count s
  unfolding tries
  tries-count try one zero last s = omega arith
  tries-count try one (suc n) last s = go (λ e. tries-count try one n e (try s).1) (try s).0 refl
    where
      go :
          ((e : Error) → count (tries n e try (try s).1).1 ≤ n + count (try s).1)
          → (v : Verdict) → (try s).0 ≡ v
          → count (tries (suc n) last try s).1 ≤ suc n + count s
      go rec (again e) h = rw (h, tries) (ground (arith, one s, rec e))
      go rec (done r) h = rw (h, tries) (ground (arith, one s))

  wrap-count :
      {A : Type 0} (text : String) (m : Exec S A) (s : S)
      → count (or_wrap text m s).1 ≡ count (m s).1
  wrap-count text m s = ground arith

  -- What `count` counts: the requests to register and to log in, and not the dials.
  pub record RequestCount (server : Server S) : Type 0 where
    pub registering :
        (n p e : String) (s : S) → count (server.post_register n p e s).1 ≡ suc (count s)
    pub logging_in : (n p : String) (s : S) → count (server.post_login n p s).1 ≡ suc (count s)
    pub dialling : (t : String) (s : S) → count (server.dial t s).1 ≡ count s

  module _ (server : Server S) (law : RequestCount server) where
    one-login : (robot : Robot) (s : S) → count (login_once server robot s).1 ≤ suc (count s)
    unfolding login_once
    one-login robot s = omega (arith, law.logging_in robot.username robot.password s)

    one-register : (robot : Robot) (s : S) → count (register_once server robot s).1 ≤ suc (count s)
    unfolding register_once
    one-register robot s = omega (
      arith,
      law.registering robot.username robot.password (concat robot.username "@example.com") s,
    )

    login-count : (robot : Robot) (s : S) → count (login server robot s).1 ≤ 5 + count s
    unfolding login
    login-count robot s =
        rw
          (wrap-count "login failed after 5 retries"
            (tries 5 (failure "") (login_once server robot)) s)
          (tries-count (login_once server robot) (one-login robot) 5 (failure "") s)

    register-count : (robot : Robot) (s : S) → count (register server robot s).1 ≤ 20 + count s
    unfolding register
    register-count robot s =
        rw
          (wrap-count "register failed after 20 retries"
            (tries 20 (failure "") (register_once server robot)) s)
          (tries-count (register_once server robot) (one-register robot) 20 (failure "") s)

    then-count :
        {A B : Type 0} (m : Exec S A) (f : A → Exec S B) (k : ℕ) (s : S)
        → ((a : A) (t : S) → count (f a t).1 ≤ k + count t)
        → count ((m >>= f) s).1 ≤ k + count (m s).1
    then-count {A} {B} m f k s h = go (m s).0 refl
      where
        go : (r : Result A) → (m s).0 ≡ r → count ((m >>= f) s).1 ≤ k + count (m s).1
        go (ok a) e = ground (arith, e, h a (m s).1)
        go (err x) e = ground (arith, e)

    after_login-count :
        (robot : Robot) (r : Result Robot) (s : S)
        → count (after_login server robot (r, s)).1 ≤ 25 + count s
    unfolding after_login
    after_login-count robot (ok r) s = omega arith
    after_login-count robot (err e) s =
        le_trans
          (then-count (or_wrap "register failed" (register server robot))
            (λ r. or_wrap "login after register failed" (login server r)) 5 s
            λ r t.
              rw (wrap-count "login after register failed" (login server r) t) (login-count r t))
          (rw (wrap-count "register failed" (register server robot) s)
            (omega (arith, register-count robot s)))

    pub requests_bounded : (robot : Robot) (s : S) → count (connect server robot s).1 ≤ 30 + count s
    unfolding connect
    requests_bounded robot s =
        le_trans
          (then-count (λ s. after_login server robot (login server robot s))
            (λ r. or_wrap "websocket connect failed" (server.dial r.token) >> pure r) 0 s
            λ r t. ground (arith, law.dialling r.token t))
          (omega (
            arith,
            after_login-count robot (login server robot s).0 (login server robot s).1,
            login-count robot s,
          ))
