-- ===== src/Gms/Rounds/Tests.antt =====
-- A table of rounds that is a map, and a round in it with another one in between.
use game_production.Common.{
  ℕ, true, false, String, string_key, ◌==◌, Option, none, some, [], ◌∷◌, Dict, lookup, insert,
  lookup-insert, failure, Result, ok, err, ◌≡◌, refl, add64, ◌∙◌, same_self,
}
use game_production.Float.{Float64}
use game_production.Proto.{GameState, round_started, result, red, reward_name}
use game_production.Machine.{GameEvent, EventData, nothing, reward}
use game_production.Gms.Defs.{Wiring, ended, no_counts, add_bet, count_of, players_of, amount_of}
use game_production.Gms.Rounds.{GameRound, RoundUpdate, RoundDb, Step, store_events}
use game_production.Gms.Rounds.Stored.{updated_row, Documented, round_has_row}

abbrev float : Float64 ℕ
float = record { of_int64 = λ n. n; to_int64 = λ x. x; add = add64; exact = λ n small. refl }

abbrev Table : Type 0
Table = Dict String (GameRound ℕ)

put_row : GameRound ℕ → Option (GameRound ℕ) → Table → Result (Unit {0}) × Table
put_row row (some old) t = (err (failure "duplicate key"), t)
put_row row none t = (ok tt, insert row.round_id row t)

change_row : String → RoundUpdate ℕ → Option (GameRound ℕ) → Table → Result (Unit {0}) × Table
change_row id u none t = (ok tt, t)
change_row id u (some row) t = (ok tt, insert id (updated_row u row) t)

abbrev table : RoundDb ℕ Table
unfolding put_row change_row
table = record {
  insert_row = λ row t. put_row row (lookup row.round_id t) t;
  update_rows = λ id u t. change_row id u (lookup id t) t;
}

put_others :
    (row : GameRound ℕ) (id : String) (o : Option (GameRound ℕ)) (t : Table)
    → (row.round_id == id) ≡ false
    → lookup id (put_row row o t).1 ≡ lookup id t
unfolding put_row
put_others row id (some old) t h = refl
put_others row id none t h = lookup-insert row.round_id id row t ∙ rw h refl

change_others :
    (changed id : String) (u : RoundUpdate ℕ) (o : Option (GameRound ℕ)) (t : Table)
    → (changed == id) ≡ false
    → lookup id (change_row changed u o t).1 ≡ lookup id t
unfolding change_row
change_others changed id u none t h = refl
change_others changed id u (some row) t h =
    lookup-insert changed id (updated_row u row) t ∙ rw h refl

abbrev table-Documented : Documented table
unfolding put_row change_row
table-Documented = record {
  find = lookup;
  inserted = λ row t absent.
      rw (absent, put_row)
        (lookup-insert row.round_id row.round_id row t ∙ rw (same_self row.round_id) refl);
  insert_others = λ row id t h. put_others row id (lookup row.round_id t) t h;
  rows_updated = λ id u row t there.
      rw (there, change_row) (lookup-insert id id (updated_row u row) t ∙ rw (same_self id) refl);
  update_others = λ changed id u t h. change_others changed id u (lookup changed t) t h;
}

event : GameState → String → EventData → GameEvent
event kind id payload = record {
  kind = kind;
  round_id = id;
  payload = payload;
  left_time = 0;
  betting_end_timestamp = 0;
}

abbrev all_wired : Wiring
all_wired = record { has_gateway = true; has_repo = true; has_gs = true }

abbrev begun : Step ℕ
unfolding event no_counts
begun = record { now = 5; event = event round_started "R1" nothing; counts = no_counts }

abbrev other : Step ℕ
unfolding event no_counts
other = record { now = 6; event = event round_started "R2" nothing; counts = no_counts }

abbrev over : Step ℕ
unfolding event no_counts add_bet
over = record {
  now = 9;
  event = event result "R1" (reward red);
  counts = add_bet float "R1" 7 20 no_counts;
}

round_has_row_example :
    lookup "R1" (store_events float table all_wired (begun ∷ other ∷ over ∷ []) [])
    ≡ some (record {
      round_id = "R1";
      game_code = "color_game";
      status = ended;
      start_time = 5;
      end_time = some 9;
      outcome_text = "REWARD_RED";
      total_bets = 1;
      total_players = 1;
      total_bet_amount = 20;
      created_at = 5;
      updated_at = 9;
    })
unfolding count_of players_of amount_of lookup begun over table-Documented reward_name insert
round_has_row_example =
    round_has_row float table table-Documented all_wired begun over (other ∷ []) red [] refl refl
      refl refl refl refl (refl, tt)
