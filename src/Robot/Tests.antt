-- ===== src/Robot/Tests.antt =====
-- Robots before a server that knows nobody at first, and before a game server that takes every bet.
use game_production.Common.{
  ℕ, suc, ◌+◌, ◌≤◌, string_key, ◌==◌, Bool, true, false, none, some, ok, err, failure, ◌≡◌, refl,
  if◌then◌else◌,
}
use game_production.Proto.{success}
use game_production.Gateway.Requests.{Texts, GsService, handle_message, bet_reply}
use game_production.Robot.{
  Robot, HttpReply, Server, new_robot, tries, register_once, login_once, register, login, connect,
  after_login,
}
use game_production.Robot.Tries.{RequestCount, requests_bounded}
use game_production.Robot.Bets.{perform_bet, color_text, handle_robot_message, robot_bet_placed}

-- The requests so far, and whether the user is registered.
record Site : Type 0 where
  requests : ℕ
  known : Bool

abbrev requested : Site → Site
requested s = record s { requests = suc s.requests }

abbrev refusal : HttpReply
refusal = record {
  status = 401;
  error_text = some "invalid username or password";
  registered = err (failure "EOF");
  logged_in = err (failure "EOF");
}

abbrev welcome : HttpReply
welcome = record {
  status = 200;
  error_text = none;
  registered = ok 7;
  logged_in = ok (7, "token-7");
}

abbrev site : Server Site
site = record {
  post_register = λ n p e s. (ok welcome, record { requests = suc s.requests; known = true });
  post_login = λ n p s. (ok (if s.known then welcome else refusal), requested s);
  dial = λ t s. (ok tt, s);
  http_status = λ n. "HTTP";
}

abbrev robot : Robot
unfolding new_robot
robot = new_robot (λ n. "1") 1

-- Five refused logins, a registration and a login.
connected_test :
    connect site robot (record { requests = 0; known = false })
    ≡ (ok (record robot { user_id = 7; token = "token-7" }), record { requests = 7; known = true })
unfolding connect after_login login register login_once register_once tries new_robot
connected_test = refl

abbrev site-RequestCount : RequestCount (λ s. s.requests) site
site-RequestCount = record {
  registering = λ n p e s. refl;
  logging_in = λ n p s. refl;
  dialling = λ t s. refl;
}

requests_bounded_test :
    (connect site robot (record { requests = 0; known = false })).1.requests ≤ 30 + 0
requests_bounded_test =
    requests_bounded (λ s. s.requests) site site-RequestCount robot
      (record { requests = 0; known = false })

abbrev texts : Texts
unfolding perform_bet
texts = record {
  parse_envelope =
      λ text. ok (record { game = "color_game"; command = "ColorGamePlaceBetREQ"; body = text });
  parse_bet = λ text. ok (record { color = "green"; amount = 40 });
  to_upper = λ text. if text == "red" then "RED" else if text == "green" then "GREEN" else "BLUE";
}

abbrev taker : GsService ℕ
taker = record {
  place_bet = λ user color amount s.
      (ok (record { error_code = success; bet_id = "b1"; error = none }), s + amount);
  get_state = λ user s. (err (failure "not here"), s);
}

robot_bet_placed_example :
    (amount : ℕ) × (10 ≤ amount)
    × (amount ≤ 100)
    × (handle_message texts taker 7 "a green bet of 40" 0
        ≡ (ok (bet_reply success "b1" none), 0 + amount))
unfolding perform_bet color_text
robot_bet_placed_example =
    robot_bet_placed texts taker 7 4 13 "a green bet of 40" "a green bet of 40" 0 (refl, refl, refl)
      refl refl

-- The start of betting sets the timer, here after 1.5 seconds; a message of any other kind changes nothing.
betting_starts_test :
    handle_robot_message
      (λ text. ok ("ColorGameRoundStateBRC", text))
      (λ text. ok (text, "GAME_STATE_BETTING"))
      0
      1500
      "round-1"
      (record { round_id = ""; bet_at = none })
    ≡ record { round_id = "round-1"; bet_at = some 1500000000 }
unfolding handle_robot_message
betting_starts_test = refl
