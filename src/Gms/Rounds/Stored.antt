-- ===== src/Gms/Rounds/Stored.antt =====
-- That the table of rounds has the history of each round, for a database that behaves as SQL does.
use game_production.Common.{
  Bool, true, false, ◌&&◌, ◌||◌, String, string_key, ◌==◌, Option, none, some, List, [], ◌∷◌, ◌++◌,
  length, All, ◌≡◌, refl, arith, Bool-cases, inl, inr, ◌∙◌,
}
use game_production.Proto.{
  Reward, reward_name, GameState, no_state, round_started, betting, drawing, result, round_ended,
  stopped, same_state,
}
use game_production.Clock.{Time}
use game_production.Float.{Float64}
use game_production.Machine.{GameEvent, EventData, nothing, at_time, reward}
use game_production.Gms.Defs.{
  in_progress, ended, Wiring, Counts, handle_game_event, count_of, players_of, amount_of,
}
use game_production.Gms.Rounds.{
  GameRound, RoundUpdate, RoundDb, create, update_result, perform, perform_all, store_event, Step,
  store_events,
}

abbrev pub updated_row : {F : Type 0} → RoundUpdate F → GameRound F → GameRound F
updated_row u row = record row {
  outcome_text = u.outcome_text;
  status = u.status;
  total_bets = u.total_bets;
  total_players = u.total_players;
  total_bet_amount = u.total_bet_amount;
  updated_at = u.updated_at;
  end_time = (elim u.end_time [ none ↦ row.end_time | some t ↦ some t ]);
}

-- A database that can be reached: the round ID is the key of the table.
pub record Documented {F S : Type 0} (db : RoundDb F S) : Type 0 where
  pub find : String → S → Option (GameRound F)
  pub inserted :
      (row : GameRound F) (s : S)
      → find row.round_id s ≡ none
      → find row.round_id (db.insert_row row s).1 ≡ some row
  pub insert_others :
      (row : GameRound F) (id : String) (s : S)
      → (row.round_id == id) ≡ false
      → find id (db.insert_row row s).1 ≡ find id s
  pub rows_updated :
      (id : String) (u : RoundUpdate F) (row : GameRound F) (s : S)
      → find id s ≡ some row
      → find id (db.update_rows id u s).1 ≡ some (updated_row u row)
  pub update_others :
      (changed id : String) (u : RoundUpdate F) (s : S)
      → (changed == id) ≡ false
      → find id (db.update_rows changed u s).1 ≡ find id s

-- An event of another round, or one for which nothing is stored.
abbrev pub is_stored : GameState → Bool
is_stored k = same_state k round_started || same_state k result

abbrev pub LeavesRow : {F : Type 0} → String → Step F → Type 0
LeavesRow id p = (is_stored p.event.kind && p.event.round_id == id) ≡ false

module _ {F S : Type 0} (float : Float64 F) (db : RoundDb F S) (law : Documented db)
    (w : Wiring) where
  -- The row of a round that has begun.
  abbrev first_row : String → Time → GameRound F
  first_row id now = record {
    round_id = id;
    game_code = "color_game";
    status = in_progress;
    start_time = now;
    end_time = none;
    outcome_text = "";
    total_bets = 0;
    total_players = 0;
    total_bet_amount = float.of_int64 0;
    created_at = now;
    updated_at = now;
  }

  -- What a RESULT event stores.
  abbrev closing : Time → String → Reward → Counts F → RoundUpdate F
  closing now id color c = record {
    outcome_text = reward_name color;
    status = ended;
    total_bets = count_of float id c;
    total_players = length (players_of float id c);
    total_bet_amount = amount_of float id c;
    updated_at = now;
    end_time = some now;
  }

  step-LeavesRow :
      (id : String) (p : Step F) (s : S)
      → LeavesRow id p
      → law.find id (store_event float db w p.now p.event p.counts s) ≡ law.find id s
  unfolding store_event perform_all perform create update_result handle_game_event
  step-LeavesRow id p s other = go p.event.kind refl
    where
      stored :
          p.event.kind ≡ result
          → (p.event.round_id == id) ≡ false
          → (d : EventData) → p.event.payload ≡ d
          → law.find id (store_event float db w p.now p.event p.counts s) ≡ law.find id s
      stored kind differs (reward color) paid = ground (
        arith,
        kind,
        paid,
        law.update_others p.event.round_id id (closing p.now p.event.round_id color p.counts) s
            differs,
      )
      stored kind differs (at_time t) paid = ground (arith, kind, paid)
      stored kind differs nothing paid = ground (arith, kind, paid)

      go :
          (k : GameState)
          → p.event.kind ≡ k
          → law.find id (store_event float db w p.now p.event p.counts s) ≡ law.find id s
      go no_state kind = rw kind refl
      go round_started kind = ground (
        arith,
        kind,
        law.insert_others (first_row p.event.round_id p.now) id s (ground (arith, other, kind)),
      )
      go betting kind = ground (arith, kind)
      go drawing kind = ground (arith, kind)
      go result kind = stored kind (ground (arith, other, kind)) p.event.payload refl
      go round_ended kind = ground (arith, kind)
      go stopped kind = ground (arith, kind)

  started-row :
      (now : Time) (e : GameEvent) (c : Counts F) (s : S)
      → w.has_repo ≡ true
      → e.kind ≡ round_started
      → law.find e.round_id s ≡ none
      → law.find e.round_id (store_event float db w now e c s) ≡ some (first_row e.round_id now)
  unfolding store_event perform_all perform create update_result handle_game_event
  started-row now e c s repo kind absent = elim (Bool-cases w.has_gateway) [
    | inl sent ↦ rw (kind, repo, sent) kept
    | inr unsent ↦ rw (kind, repo, unsent) kept
  ]
    where
      kept :
          law.find e.round_id (db.insert_row (first_row e.round_id now) s).1
          ≡ some (first_row e.round_id now)
      kept = law.inserted (first_row e.round_id now) s absent

  result-row :
      (id : String) (now : Time) (e : GameEvent) (color : Reward) (c : Counts F) (row : GameRound F)
      (s : S)
      → w.has_repo ≡ true
      → e.kind ≡ result
      → e.round_id ≡ id
      → e.payload ≡ reward color
      → law.find id s ≡ some row
      → law.find id (store_event float db w now e c s)
        ≡ some (updated_row (closing now id color c) row)
  unfolding store_event perform_all perform create update_result handle_game_event count_of
      players_of amount_of
  result-row id now e color c row s repo kind same paid there = elim (Bool-cases w.has_gateway) [
    | inl sent ↦ elim (Bool-cases w.has_gs) [
      | inl gs ↦ rw (kind, repo, sent, gs, paid, same) kept
      | inr gs ↦ rw (kind, repo, sent, gs, paid, same) kept
    ]
    | inr unsent ↦ elim (Bool-cases w.has_gs) [
      | inl gs ↦ rw (kind, repo, unsent, gs, paid, same) kept
      | inr gs ↦ rw (kind, repo, unsent, gs, paid, same) kept
    ]
  ]
    where
      kept :
          law.find id (db.update_rows id (closing now id color c) s).1
          ≡ some (updated_row (closing now id color c) row)
      kept = law.rows_updated id (closing now id color c) row s there

  steps-LeaveRow :
      (id : String) (steps : List (Step F)) (s : S)
      → All (LeavesRow id) steps
      → law.find id (store_events float db w steps s) ≡ law.find id s
  unfolding store_events
  steps-LeaveRow id [] s others = refl
  steps-LeaveRow id (p ∷ later) s others =
      steps-LeaveRow id later (store_event float db w p.now p.event p.counts s) others.1
      ∙ step-LeavesRow id p s others.0

  store_events-append :
      (xs ys : List (Step F)) (s : S)
      → store_events float db w (xs ++ ys) s
        ≡ store_events float db w ys (store_events float db w xs s)
  unfolding store_events
  store_events-append [] ys s = refl
  store_events-append (p ∷ xs) ys s =
      store_events-append xs ys (store_event float db w p.now p.event p.counts s)

  -- For a database that can be reached, a round that is announced and later ends with a colour, whatever other rounds
  -- do in between, has one row in the table: it has ended, with that colour, its two times and the totals that were
  -- counted at its end.
  pub round_has_row :
      (begun over : Step F) (between : List (Step F)) (color : Reward) (s : S)
      → w.has_repo ≡ true
      → begun.event.kind ≡ round_started
      → over.event.kind ≡ result
      → over.event.payload ≡ reward color
      → over.event.round_id ≡ begun.event.round_id
      → law.find begun.event.round_id s ≡ none
      → All (LeavesRow begun.event.round_id) between
      → law.find begun.event.round_id (store_events float db w (begun ∷ between ++ over ∷ []) s)
        ≡ some (record {
          round_id = begun.event.round_id;
          game_code = "color_game";
          status = ended;
          start_time = begun.now;
          end_time = some over.now;
          outcome_text = reward_name color;
          total_bets = count_of float begun.event.round_id over.counts;
          total_players = length (players_of float begun.event.round_id over.counts);
          total_bet_amount = amount_of float begun.event.round_id over.counts;
          created_at = begun.now;
          updated_at = over.now;
        })
  unfolding store_events
  round_has_row begun over between color s repo k0 k1 paid same absent others =
      let s0 = store_event float db w begun.now begun.event begun.counts s in
      let id = begun.event.round_id in
      rw (store_events-append between (over ∷ []) s0) (
        result-row id over.now over.event color over.counts (first_row id begun.now)
          (store_events float db w between s0) repo k1 same paid
          (steps-LeaveRow id between s0 others
            ∙ started-row begun.now begun.event begun.counts s repo k0 absent))
