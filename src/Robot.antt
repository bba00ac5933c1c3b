-- ===== src/Robot.antt =====
-- The load test robot: cmd/color_game/test_robot/main.go. HTTP, the WebSocket's dial and JSON are
-- parameters; the pauses between two tries and the log lines are left out.
pub mod Tries
pub mod Bets
mod Tests
use game_production.Common.{
  ℕ, zero, suc, ◌+◌, ◌*◌, ◌%◌, String, string_key, concat, Bool, true, false, Option, none, some,
  List, [], ◌∷◌, ◌==◌, eqb, Error, failure, wrapped, Result, ok, err, Exec, ◌>>=◌, ◌>>◌, or_wrap,
  pure, if◌then◌else◌,
}

pub record Robot : Type 0 where
  pub username : String
  pub password : String
  pub token : String
  pub user_id : ℕ

-- The reply to a POST: its status, and what its body is read as, where it can be.
pub record HttpReply : Type 0 where
  pub status : ℕ
  pub error_text : Option String
  pub registered : Result ℕ
  pub logged_in : Result (ℕ × String)

pub record Server (S : Type 0) : Type 0 where
  pub post_register : String → String → String → Exec S HttpReply
  pub post_login : String → String → Exec S HttpReply
  pub dial : String → Exec S (Unit {0})
  pub http_status : ℕ → String

-- What one try has come to: another one is needed, with the error so far, or it is done.
pub data Verdict : Type 0 where
  again : Error → Verdict
  done : Robot → Verdict

unfoldable pub new_robot : (ℕ → String) → ℕ → Robot
new_robot decimal id = record {
  username = concat "robot_user_" (decimal id);
  password = "password123";
  token = "";
  user_id = 0;
}

-- A loop of tries, of which the last error is kept; no error is kept before the first.
unfoldable pub tries : {S : Type 0} → ℕ → Error → (S → Verdict × S) → S → Result Robot × S
tries zero last try s = (err last, s)
tries (suc n) last try s =
    let (v, t) = try s in elim v [ again e ↦ tries n e try t | done robot ↦ (ok robot, t) ]

module _ {S : Type 0} (server : Server S) where
  refused_text : HttpReply → String
  refused_text reply = elim reply.error_text [
    | none ↦ server.http_status reply.status
    | some text ↦ text
  ]

  -- A name that is taken counts as registered.
  registered_reply : Robot → HttpReply → Verdict
  unfolding refused_text
  registered_reply robot reply =
      if eqb reply.status 429
      then again (failure "rate limited (429)")
      else if eqb reply.status 200
      then (elim reply.registered [
        | ok id ↦ done (record robot { user_id = id })
        | err e ↦ again e
      ])
      else (elim reply.error_text [
        | none ↦ again (failure (server.http_status reply.status))
        | some text ↦ if text == "username already exists" then done robot else again (failure text)
      ])

  register_verdict : Robot → Result HttpReply → Verdict
  unfolding registered_reply
  register_verdict robot (err e) = again e
  register_verdict robot (ok reply) = registered_reply robot reply

  logged_in_reply : Robot → HttpReply → Verdict
  unfolding refused_text
  logged_in_reply robot reply =
      if eqb reply.status 429
      then again (failure "rate limited (429)")
      else if eqb reply.status 200
      then (elim reply.logged_in [
        | ok (id, token) ↦ done (record robot { token = token; user_id = id })
        | err e ↦ again e
      ])
      else again (failure (refused_text reply))

  login_verdict : Robot → Result HttpReply → Verdict
  unfolding logged_in_reply
  login_verdict robot (err e) = again e
  login_verdict robot (ok reply) = logged_in_reply robot reply

  unfoldable pub register_once : Robot → S → Verdict × S
  unfolding register_verdict
  register_once robot s =
      let (r, t) =
        server.post_register robot.username robot.password (concat robot.username "@example.com")
          s in
      (register_verdict robot r, t)

  unfoldable pub login_once : Robot → S → Verdict × S
  unfolding login_verdict
  login_once robot s =
      let (r, t) = server.post_login robot.username robot.password s in (login_verdict robot r, t)

  unfoldable pub register : Robot → Exec S Robot
  register robot =
      or_wrap "register failed after 20 retries" (tries 20 (failure "") (register_once robot))

  unfoldable pub login : Robot → Exec S Robot
  login robot = or_wrap "login failed after 5 retries" (tries 5 (failure "") (login_once robot))

  unfoldable pub after_login : Robot → Result Robot × S → Result Robot × S
  after_login robot (ok r, s) = (ok r, s)
  after_login robot (err e, s) =
      (do
        r ← or_wrap "register failed" (register robot)
        or_wrap "login after register failed" (login r))
        s

  -- Run, up to the connection: the robot that has connected.
  unfoldable pub connect : Robot → Exec S Robot
  connect robot = do
    r ← λ s. after_login robot (login robot s)
    or_wrap "websocket connect failed" (server.dial r.token)
    pure r
