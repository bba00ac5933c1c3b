-- ===== src/Robot/Bets.antt =====
-- The bets of the test robot, cmd/color_game/test_robot/main.go, and what becomes of them behind the
-- gateway: internal/modules/gateway/usecase/gateway_color_game_uc.go.
use game_production.Common.{
  ℕ, zero, suc, ◌+◌, ◌*◌, ◌%◌, ◌≤◌, String, Option, some, Result, ok, err, string_key, ◌==◌, concat,
  if◌then◌else◌, eqb, none, ◌≡◌, refl, arith,
}
use game_production.Proto.{
  Reward, red, green, blue, reward_name, success, internal_error, code_number,
}
use game_production.Gs.{PlaceBetRsp}
use game_production.Gateway.Requests.{
  Texts, GsService, handle_message, handle_color_game, answer_bet, reward_of_name, Reply, bet_reply,
}

-- The message that performBet writes, before it is printed as JSON.
pub record BetMessage : Type 0 where
  pub game_code : String
  pub command : String
  pub color : String
  pub amount : ℕ

-- The colour by its index.
unfoldable pub color_text : ℕ → String
color_text zero = "red"
color_text (suc zero) = "green"
color_text (suc (suc n)) = "blue"

-- The two random numbers are what rand answers, before rand.Intn takes them modulo its bound.
unfoldable pub perform_bet : ℕ → ℕ → BetMessage
unfolding color_text
perform_bet pick draw = record {
  game_code = "color_game";
  command = "ColorGamePlaceBetREQ";
  color = color_text (pick % 3);
  amount = (draw % 10 + 1) * 10;
}

abbrev reward_of : ℕ → Reward
reward_of zero = red
reward_of (suc zero) = green
reward_of (suc (suc n)) = blue

-- The event that handleMessage reads, and the timer of the next bet: what the loop of Run keeps.
pub record Loop : Type 0 where
  pub round_id : String
  pub bet_at : Option ℕ

-- `read_event` and `read_state` are json.Unmarshal into the two structs.
module _ (read_event : String → Result (String × String))
    (read_state : String → Result (String × String)) where
  new_state : ℕ → ℕ → Result (String × String) → Loop → Loop
  new_state now draw (err e) l = l
  new_state now draw (ok (round, state)) l =
      if state == "GAME_STATE_BETTING"
      then record { round_id = round; bet_at = some (now + draw % 3000 * 1000000) }
      else l

  on_event : ℕ → ℕ → Result (String × String) → Loop → Loop
  unfolding new_state
  on_event now draw (err e) l = l
  on_event now draw (ok (command, body)) l =
      if command == "ColorGameRoundStateBRC" then new_state now draw (read_state body) l else l

  unfoldable pub handle_robot_message : ℕ → ℕ → String → Loop → Loop
  unfolding on_event
  handle_robot_message now draw message l = on_event now draw (read_event message) l

-- What the player is told for an answer of the game server: the bet's ID on success, else the code and the
-- reason, or INTERNAL_ERROR with the text of a call that failed.
abbrev pub told : Result PlaceBetRsp → Reply
told (ok rsp) =
    if eqb (code_number rsp.error_code) 0
    then bet_reply success rsp.bet_id none
    else bet_reply rsp.error_code "" rsp.error
told (err e) = bet_reply internal_error "" (some e)

module _ {S : Type 0} (texts : Texts) (svc : GsService S) where
  abbrev UppersColors : Type 0
  UppersColors =
      (texts.to_upper "red" ≡ "RED")
      × (texts.to_upper "green" ≡ "GREEN")
      × (texts.to_upper "blue" ≡ "BLUE")

  name_of_color :
      UppersColors
      → (n : ℕ)
      → reward_of_name (concat "REWARD_" (texts.to_upper (color_text n))) ≡ some (reward_of n)
  unfolding color_text reward_of_name reward_name
  name_of_color (r, g, b) zero = rw r refl
  name_of_color (r, g, b) (suc zero) = rw g refl
  name_of_color (r, g, b) (suc (suc n)) = rw b refl

  answer_bet-told :
      (r : Result PlaceBetRsp) (s : S) → answer_bet texts svc (r, s) ≡ (ok (told r), s)
  unfolding answer_bet
  answer_bet-told (ok rsp) s = ground arith
  answer_bet-told (err e) s = refl

  -- A bet that a robot sends, read by the gateway as it was written, is one bet of the player with the game
  -- server, on red, green or blue as the first random number says, of 10 to 100; the player is told
  -- the bet's ID if the game server answers with success, its code and reason if it answers with
  -- another code, and INTERNAL_ERROR if the call fails.
  pub robot_bet_placed :
      (user pick draw : ℕ) (text body : String) (s : S)
      → UppersColors
      → texts.parse_envelope text
        ≡ ok (record {
          game = (perform_bet pick draw).game_code;
          command = (perform_bet pick draw).command;
          body = body;
        })
      → texts.parse_bet body
        ≡ ok (record {
          color = (perform_bet pick draw).color;
          amount = (perform_bet pick draw).amount;
        })
      → (amount : ℕ) × (10 ≤ amount)
        × (amount ≤ 100)
        × (handle_message texts svc user text s ≡ (
          ok (told (svc.place_bet user (reward_of (pick % 3)) amount s).0),
          (svc.place_bet user (reward_of (pick % 3)) amount s).1,
        ))
  unfolding perform_bet handle_message handle_color_game
  robot_bet_placed user pick draw text body s upper env bet = (
    (draw % 10 + 1) * 10,
    omega arith,
    omega arith,
    rw (env, bet, name_of_color upper (pick % 3))
        (answer_bet-told (svc.place_bet user (reward_of (pick % 3)) ((draw % 10 + 1) * 10) s).0
          (svc.place_bet user (reward_of (pick % 3)) ((draw % 10 + 1) * 10) s).1),
  )
