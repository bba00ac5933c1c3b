-- ===== src/Gms/Rounds.antt =====
-- The table of rounds: internal/modules/color_game/gms/domain/game_round.go and
-- internal/modules/color_game/gms/repository/db/game_round_repo.go, behind the calls of
-- handleGameEvent. GORM is a parameter.
pub mod Stored
mod Tests
use game_production.Common.{
  ℕ, Bool, true, false, ◌&&◌, ◌||◌, String, string_key, ◌==◌, Option, none, some, List, [], ◌∷◌,
  ◌++◌, length, All, Result, ok, err, Error, Exec, if◌then◌else◌, ◌≡◌, refl, arith, Bool-cases, inl,
  inr,
}
use game_production.Proto.{
  Reward, reward_name, GameState, no_state, round_started, result, state_number,
}
use game_production.Clock.{Time}
use game_production.Float.{Float64}
use game_production.Machine.{GameEvent, EventData, reward}
use game_production.Gms.Defs.{
  RoundStatus, in_progress, ended, Call, broadcasts, creates, updates, settles, Wiring, Counts,
  handle_game_event, count_of, players_of, amount_of,
}

pub record GameRound (F : Type 0) : Type 0 where
  pub round_id : String
  pub game_code : String
  pub status : RoundStatus
  pub start_time : Time
  pub end_time : Option Time
  pub outcome_text : String  -- the field Result
  pub total_bets : ℕ
  pub total_players : ℕ
  pub total_bet_amount : F
  pub created_at : Time
  pub updated_at : Time

-- The map of UpdateResult; `end_time` is left as it is without a time.
pub record RoundUpdate (F : Type 0) : Type 0 where
  pub outcome_text : String
  pub status : RoundStatus
  pub total_bets : ℕ
  pub total_players : ℕ
  pub total_bet_amount : F
  pub updated_at : Time
  pub end_time : Option Time

-- Create of a row, and Updates of the rows with a round ID.
pub record RoundDb (F S : Type 0) : Type 0 where
  pub insert_row : GameRound F → Exec S (Unit {0})
  pub update_rows : String → RoundUpdate F → Exec S (Unit {0})

-- An event with the time at which it is handled, and the counts of bets at that time.
pub record Step (F : Type 0) : Type 0 where
  pub now : Time
  pub event : GameEvent
  pub counts : Counts F

module _ {F S : Type 0} (float : Float64 F) (db : RoundDb F S) where
  unfoldable pub create : Time → GameRound F → Exec S (Unit {0})
  create now round = db.insert_row (record round { created_at = now; updated_at = now })

  unfoldable pub update_result :
      Time → String → String → Option Time → ℕ → ℕ → F → Exec S (Unit {0})
  update_result now round text end_time bets players amount = db.update_rows round (record {
    outcome_text = text;
    status = ended;
    total_bets = bets;
    total_players = players;
    total_bet_amount = amount;
    updated_at = now;
    end_time = end_time;
  })

  -- What a call of `handle_game_event` does to the table; its error is dropped. The repository reads the
  -- clock again, for which the time of the event stands.
  unfoldable pub perform : Time → Call F → S → S
  unfolding create update_result
  perform now (broadcasts brc) s = s
  perform now (creates round code status start) s =
      (create now
        (record {
          round_id = round;
          game_code = code;
          status = status;
          start_time = start;
          end_time = none;
          outcome_text = "";
          total_bets = 0;
          total_players = 0;
          total_bet_amount = float.of_int64 0;
          created_at = 0;
          updated_at = 0;
        })
        s).1
  perform now (updates round text end_time bets players amount) s =
      (update_result now round text (some end_time) bets players amount s).1
  perform now (settles round color) s = s

  unfoldable pub perform_all : Time → List (Call F) → S → S
  unfolding perform
  perform_all now [] s = s
  perform_all now (c ∷ calls) s = perform_all now calls (perform now c s)

  -- A panic comes before any call of the table.
  unfoldable pub store_event : Wiring → Time → GameEvent → Counts F → S → S
  unfolding perform_all handle_game_event
  store_event w now e c s = elim (handle_game_event float w now e c) [
    | none ↦ s
    | some calls ↦ perform_all now calls s
  ]

  unfoldable pub store_events : Wiring → List (Step F) → S → S
  unfolding store_event
  store_events w [] s = s
  store_events w (p ∷ later) s = store_events w later (store_event w p.now p.event p.counts s)
