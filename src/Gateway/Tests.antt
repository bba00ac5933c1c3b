-- ===== src/Gateway/Tests.antt =====
-- Connections that come and go, and a player's bet.
use game_production.Common.{
  String, suc, ◌==◌, ◌≢◌, Result, if◌then◌else◌, ℕ, nat_key, string_key, ◌≡◌, refl, arith, [], ◌∷◌,
  List, some, none, true, lookup, ok, err, failure, wrapped, add64, insert,
}
use game_production.Proto.{red, reward_name, betting, unspecified}
use game_production.Float.{Float64}
use game_production.MemoryRepo.{new_store}
use game_production.Wallet.{new_wallet}
use game_production.Machine.{StateMachine, new_state_machine, in_betting}
use game_production.Gms.{no_counts}
use game_production.World.{World, Outside, local}
use game_production.Gateway.Connections.{
  accept, broadcast, Manager, replaced, new_manager, register, unregister, send_to_user, update,
  close_with_reason,
}
use game_production.Gateway.Sessions.{Action, registers, broadcasts, sends, writes, run, act}
use game_production.Gateway.Buffers.{Orderly, messages_in_order, first_reason_stays}
use game_production.Gateway.Broadcasts.{is_client, broadcast_reaches, after_broadcast}
use game_production.Gateway.Members.{register_replaces, unregister_replaced}
use game_production.Gateway.Requests.{
  Texts, RequestEnvelope, BetPayload, handle_message, reward_of_name,
}
use game_production.Gateway.Adapters.{
  Event, round_state, Printer, local_broadcast, local_send_to_user, grpc_broadcast,
  grpc_send_to_user, handle_web_socket, print_answer, handle_frame,
}
use game_production.Gateway.Frames.{adapters_agree, connected_validated, frame_answered}
use game_production.Gateway.Wagers.{
  refused_message, gs_service, IsBet, BetAnswered, bet_message_books,
}

abbrev busy : List Action
busy =
    registers 7
    ∷ sends 7 "a"
    ∷ broadcasts "b"
    ∷ writes 0 true
    ∷ registers 7
    ∷ writes 0 true
    ∷ sends 7 "c"
    ∷ []

messages_in_order_example : Orderly ((run new_manager busy).conns 0)
messages_in_order_example = messages_in_order busy 0

broadcast_reaches_example : (broadcast "d" (run new_manager busy)).conns 1 ≡ (
    if is_client 1 (lookup ((run new_manager busy).conns 1).user_id (run new_manager busy).clients)
    then after_broadcast "d" ((run new_manager busy).conns 1)
    else (run new_manager busy).conns 1)
broadcast_reaches_example = broadcast_reaches busy "d" 1

-- User 7 has connected twice.
abbrev reconnected : Manager
reconnected = run new_manager (registers 7 ∷ registers 7 ∷ [])

first_reason_stays_test : ((run reconnected busy).conns 0).closed ≡ some replaced
unfolding run act new_manager register update close_with_reason lookup insert
first_reason_stays_test = first_reason_stays busy reconnected 0 replaced (omega arith) refl

register_replaces_test :
    (lookup 7 (register 7 reconnected).clients ≡ some reconnected.next)
    × ((register 7 reconnected).conns 1 ≡ close_with_reason replaced (reconnected.conns 1))
unfolding run act new_manager register update lookup insert
register_replaces_test = register_replaces 7 reconnected 1 7 1 refl (omega arith)

unregister_replaced_test :
    (lookup 7 (unregister 0 reconnected).clients ≡ none)
    × ((unregister 0 reconnected).conns 1 ≡ reconnected.conns 1)
    × (send_to_user 7 "a" (unregister 0 reconnected) ≡ unregister 0 reconnected)
unfolding run act new_manager register update close_with_reason lookup insert
unregister_replaced_test = unregister_replaced 0 1 reconnected "a" (omega arith) refl

-- A reader that knows one message.
abbrev bet_envelope : RequestEnvelope
bet_envelope = record { game = "color_game"; command = "ColorGamePlaceBetREQ"; body = "bet" }

abbrev red_bet : BetPayload
red_bet = record { color = "red"; amount = 20 }

abbrev texts : Texts
texts = record {
  parse_envelope = λ message. ok bet_envelope;
  parse_bet = λ body. ok red_bet;
  to_upper = λ text. "RED";
}

abbrev unreadable : Texts
unreadable = record texts { parse_envelope = λ message. err (failure "bad JSON") }

abbrev float : Float64 ℕ
float = record { of_int64 = λ n. n; to_int64 = λ x. x; add = add64; exact = λ n small. refl }

abbrev out : Outside ℕ
out = record { insert_orders = λ old new. ok tt; id_text = λ n. "bet" }

abbrev open_machine : StateMachine
unfolding new_state_machine
open_machine = record new_state_machine {
  current_round = some (record {
    round_id = "R1";
    state = betting;
    outcome = unspecified;
    start_time = 0;
    betting_end = 12;
    total_bets = 0;
    left_time = 0;
  });
  phase_end_time = 12;
  pc = in_betting;
}

abbrev open_world : World ℕ
open_world = record {
  store = new_store;
  wallet = new_wallet;
  gms = record { machine = open_machine; counts = no_counts };
  orders = [];
  sent = [];
  clock = 5;
  next_id = 0;
}

refused_message_test : open_world ≡ open_world
unfolding handle_message
refused_message_test =
    refused_message unreadable (gs_service float out local texts) 7 "?" open_world
      (wrapped "invalid message format" (failure "bad JSON")) open_world refl

red_request-IsBet : IsBet float out local texts "bet 20 on red" red 20
unfolding reward_of_name reward_name
red_request-IsBet = record {
  envelope = bet_envelope;
  payload = red_bet;
  parsed = refl;
  game_named = refl;
  command_named = refl;
  payload_parsed = refl;
  color_named = refl;
  amount_named = refl;
}

bet_message_books_example :
    BetAnswered float out local texts 7 red 20 open_world 7 red
      (handle_message texts (gs_service float out local texts) 7 "bet 20 on red" open_world)
unfolding new_store lookup
bet_message_books_example =
    bet_message_books float out local texts 7 "bet 20 on red" red 20 open_world 7 red
      red_request-IsBet (omega arith) tt

abbrev printer : Printer
printer = record {
  print_members = λ members. some "message";
  print_reply = λ r. some "reply";
  print_error = λ e. some "error";
}

abbrev opened : Event
opened =
    round_state
      (record { round_id = "R1"; state = betting; betting_end_timestamp = 0; left_time = 0 })

adapters_agree_example :
    ((grpc_broadcast printer "color_game" (some opened) reconnected).1
      ≡ local_broadcast printer "color_game" opened reconnected)
    × ((grpc_send_to_user printer 7 "color_game" (some opened) reconnected).1
        ≡ local_send_to_user printer 7 "color_game" opened reconnected)
adapters_agree_example = adapters_agree printer 7 "color_game" opened reconnected

-- The token "7" is that of user 7.
abbrev validate : String → ℕ → Result ℕ × ℕ
validate token n = (if token == "7" then ok 7 else err (failure "invalid token"), suc n)

connected_validated_test :
    (◌≢◌ {A = String} "7" "")
    × ((validate "7" 0).0 ≡ ok 7)
    × (register 7 reconnected ≡ register 7 reconnected)
unfolding handle_web_socket
connected_validated_test =
    connected_validated validate "7" true 0 1 reconnected (register 7 reconnected) 7 refl

frame_answered_test :
    (handle_frame unreadable
        (gs_service float out local texts)
        printer
        7
        "?"
        (open_world, reconnected)).1.conns
      1
    ≡ accept "error" (reconnected.conns 1)
unfolding print_answer handle_message run act new_manager register update close_with_reason lookup
    insert
frame_answered_test =
    frame_answered unreadable (gs_service float out local texts) printer 7 "?" "error" open_world
      reconnected 1 1 refl refl refl
