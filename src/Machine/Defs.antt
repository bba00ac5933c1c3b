-- ===== src/Machine/Defs.antt =====
-- The machine's state, its goroutine and its methods.
use game_production.Common.{
  ℕ, zero, suc, ◌+◌, ◌*◌, ◌%◌, String, Bool, true, false, Option, none, some, List, [], ◌∷◌, ◌++◌,
  map, if◌then◌else◌,
}
use game_production.Clock.{Time, zero_time, second, unix, whole_seconds, seconds_until}
use game_production.Proto.{
  Reward, unspecified, red, green, blue, yellow, GameState, no_state, round_started, betting,
  drawing, result, round_ended, stopped,
}
use game_production.Round.{Round, new_round, start_betting, can_accept_bet, draw, show_result}
use game_production.Pool.{Pool, new_pool, submit_all}

pub data EventData : Type 0 where
  nothing : EventData
  at_time : Time → EventData
  reward : Reward → EventData

pub record GameEvent : Type 0 where
  pub kind : GameState  -- the field Type
  pub round_id : String
  pub payload : EventData  -- the field Data
  pub left_time : ℕ
  pub betting_end_timestamp : ℕ

-- Where the goroutine of `Start` stands.
pub data Pc : Type 0 where
  at_top in_wait in_betting in_drawing in_result in_rest finished : Pc

-- A registered handler, by its number.
abbrev pub Handler : Type 0
Handler = ℕ

pub record StateMachine : Type 0 where
  pub current_round : Option Round
  pub round_counter : ℕ
  pub handlers : List Handler
  pub jobs : Pool (Handler × GameEvent)
  pub betting_duration : ℕ
  pub drawing_duration : ℕ
  pub result_duration : ℕ
  pub wait_duration : ℕ
  pub rest_duration : ℕ
  pub phase_end_time : Time
  pub stopping : Bool
  pub pc : Pc

unfoldable pub new_state_machine : StateMachine
new_state_machine = record {
  current_round = none;
  round_counter = 0;
  handlers = [];
  jobs = new_pool 100;
  betting_duration = 10 * second;
  drawing_duration = 2 * second;
  result_duration = 5 * second;
  wait_duration = 2 * second;
  rest_duration = 3 * second;
  phase_end_time = zero_time;
  stopping = false;
  pc = at_top;
}

unfoldable pub register_event_handler : Handler → StateMachine → StateMachine
register_event_handler h m = record m { handlers = m.handlers ++ h ∷ [] }

-- One job for each handler.
unfoldable pub emit_event : GameEvent → StateMachine → StateMachine
emit_event e m = record m { jobs = submit_all (map (λ h. (h, e)) m.handlers) m.jobs }

unfoldable pub stop : StateMachine → StateMachine
stop m = record m { stopping = true }

-- What a stretch between two sleeps reads: the clock (twice at most, the second time later), whether
-- the context is cancelled, and the random number `rnd.Intn(4)`.
pub record Wake : Type 0 where
  pub now : Time
  pub later : Time
  pub cancelled : Bool
  pub pick : ℕ

pick_color : ℕ → Reward
pick_color zero = red
pick_color (suc zero) = green
pick_color (suc (suc zero)) = blue
pick_color _ = yellow

unfoldable pub draw_result : ℕ → Reward
unfolding pick_color
draw_result n = pick_color (n % 4)

abbrev on_round : (Round → Round) → Option Round → Option Round
on_round f none = none
on_round f (some r) = some (f r)

abbrev round_id_of : Option Round → String
round_id_of none = ""
round_id_of (some r) = r.round_id

abbrev betting_end_of : Option Round → Time
betting_end_of none = zero_time
betting_end_of (some r) = r.betting_end

abbrev outcome_of : Option Round → Reward
outcome_of none = unspecified
outcome_of (some r) = r.outcome

-- `format` is time.Format with the layout 20060102150405, by which `generateRoundID` names a round.
module _ (format : Time → String) where
  -- The loop of `Start` from its top: a cancelled context, a stop, or a new round.
  begin_round : Wake → StateMachine → StateMachine × Option GameEvent
  begin_round w m =
      if w.cancelled
      then (record m { pc = finished }, none)
      else if m.stopping
      then (
        record m { pc = finished },
        some (record {
          kind = stopped;
          round_id = "";
          payload = nothing;
          left_time = 0;
          betting_end_timestamp = 0;
        }),
      )
      else let id = format w.now in
        (
          record m {
            round_counter = m.round_counter + 1;
            current_round = some (new_round id w.later);
            pc = in_wait;
          },
          some (record {
            kind = round_started;
            round_id = id;
            payload = nothing;
            left_time = whole_seconds m.wait_duration;
            betting_end_timestamp = 0;
          }),
        )

  betting_phase : Wake → StateMachine → StateMachine × Option GameEvent
  unfolding start_betting
  betting_phase w m =
      let r = on_round (start_betting m.betting_duration w.now) m.current_round in
      let end = betting_end_of r in
      (
        record m { current_round = r; phase_end_time = end; pc = in_betting },
        some (record {
          kind = betting;
          round_id = round_id_of r;
          payload = at_time end;
          left_time = whole_seconds m.betting_duration;
          betting_end_timestamp = unix end;
        }),
      )

  drawing_phase : Wake → StateMachine → StateMachine × Option GameEvent
  unfolding draw draw_result
  drawing_phase w m =
      let c = draw_result w.pick in
      let r = on_round (draw c) m.current_round in
      (
        record m {
          current_round = r;
          phase_end_time = w.now + m.drawing_duration;
          pc = in_drawing;
        },
        some (record {
          kind = drawing;
          round_id = round_id_of r;
          payload = reward c;
          left_time = whole_seconds m.drawing_duration;
          betting_end_timestamp = unix (betting_end_of r);
        }),
      )

  -- The local `result` of the source is what `Draw` stored in the round.
  result_phase : Wake → StateMachine → StateMachine × Option GameEvent
  unfolding show_result
  result_phase w m =
      let r = on_round show_result m.current_round in
      (
        record m { current_round = r; phase_end_time = w.now + m.result_duration; pc = in_result },
        some (record {
          kind = result;
          round_id = round_id_of r;
          payload = reward (outcome_of r);
          left_time = whole_seconds m.result_duration;
          betting_end_timestamp = unix (betting_end_of r);
        }),
      )

  rest_phase : Wake → StateMachine → StateMachine × Option GameEvent
  rest_phase w m = (
    record m { phase_end_time = w.now + m.rest_duration; pc = in_rest },
    some (record {
      kind = round_ended;
      round_id = round_id_of m.current_round;
      payload = nothing;
      left_time = whole_seconds m.rest_duration;
      betting_end_timestamp = unix (betting_end_of m.current_round);
    }),
  )

  -- After a sleep inside a round: a cancelled context ends `runRound`.
  unless_cancelled :
      Wake → StateMachine → StateMachine × Option GameEvent → StateMachine × Option GameEvent
  unless_cancelled w m next = if w.cancelled then (record m { pc = at_top }, none) else next

  dispatch : Pc → Wake → StateMachine → StateMachine × Option GameEvent
  unfolding begin_round betting_phase drawing_phase result_phase rest_phase unless_cancelled
  dispatch at_top w m = begin_round w m
  dispatch in_wait w m = unless_cancelled w m (betting_phase w m)
  dispatch in_betting w m = unless_cancelled w m (drawing_phase w m)
  dispatch in_drawing w m = unless_cancelled w m (result_phase w m)
  dispatch in_result w m = unless_cancelled w m (rest_phase w m)
  dispatch in_rest w m = (record m { pc = at_top }, none)
  dispatch finished w m = (m, none)

  -- The stretch from the present sleep to the next, with the event that it emits.
  unfoldable pub segment : Wake → StateMachine → StateMachine × Option GameEvent
  unfolding dispatch
  segment w m = dispatch m.pc w m

  emit_some : Option GameEvent → StateMachine → StateMachine
  emit_some none m = m
  emit_some (some e) m = emit_event e m

  unfoldable pub resume : Wake → StateMachine → StateMachine
  unfolding emit_some emit_event
  resume w m = let (m', e) = segment w m in emit_some e m'

pub record RoundView : Type 0 where
  pub round_id : String
  pub state : GameState
  pub outcome : Reward
  pub start_time : Time
  pub betting_end : Time
  pub total_bets : ℕ
  pub left_time : ℕ

view_of : Time → StateMachine → Option Round → RoundView
view_of now m none = record {
  round_id = "";
  state = no_state;
  outcome = unspecified;
  start_time = zero_time;
  betting_end = zero_time;
  total_bets = 0;
  left_time = 0;
}
view_of now m (some r) = record {
  round_id = r.round_id;
  state = r.state;
  outcome = r.outcome;
  start_time = r.start_time;
  betting_end = r.betting_end;
  total_bets = r.total_bets;
  left_time = seconds_until now m.phase_end_time;
}

unfoldable pub get_current_round : Time → StateMachine → RoundView
unfolding view_of
get_current_round now m = view_of now m m.current_round

accepts : Time → Option Round → Bool
accepts now none = false
accepts now (some r) = can_accept_bet now r

-- CanAcceptBet
unfoldable pub can_accept : Time → StateMachine → Bool
unfolding accepts can_accept_bet
can_accept now m = accepts now m.current_round
