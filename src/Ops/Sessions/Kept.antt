-- ===== src/Ops/Sessions/Kept.antt =====
-- What holds of the viewers of cmd/ops/main.go in every run: their number, and that no process is lost.
use game_production.Common.{
  ℕ, suc, ◌≤◌, ◌<◌, String, string_key, nat_key, Bool, true, false, ◌||◌, Option, none, some, List,
  [], ◌∷◌, ◌++◌, lookup, delete, insert, lookup-insert, lookup-delete, length, leb, ◌==◌, ◌≡◌, refl,
  arith, inl, inr, Bool-cases, Option-cases, All, eq_iff, Result, ok, err, Error,
}
use game_production.Ops.Sessions.{
  Cmd, Session, Manager, Launch, Action, opens, exits, waited, ticks, act, run, no_sessions,
  has_cmd, drop, cmds_of, has_exited, is_over, is_left, close_matching, closes, oldest, evict,
  get_or_start, wait_ended, cleanup, remove_exited, max_sessions, start_on,
}
use game_production.Ops.Sessions.Tables
use game_production.Ops.Sessions.Tables.{Table, Distinct, holds, runs}
use game_production.Ops.Sessions.Oldest.{oldest_found, evict_full}

-- A command is the one of a session, or has exited, or has been killed.
abbrev pub accounted : Manager → Cmd → Bool
accounted m c = holds c m.sessions || (has_cmd c m.exited || has_cmd c m.killed)

pub record IsSound (m : Manager) : Type 0 where
  pub distinct : Distinct m.sessions
  pub named : lookup "" m.sessions ≡ none
  pub limited : length m.sessions ≤ max_sessions
  pub no_cmd_lost : (c : Cmd) → c < m.started → accounted m c ≡ true

no_sessions-IsSound : IsSound no_sessions
unfolding no_sessions lookup
no_sessions-IsSound = record {
  distinct = tt;
  named = refl;
  limited = omega arith;
  no_cmd_lost = λ c l. absurd (omega arith);
}

drop-IsSound :
    (gone : String → Session → Bool) (kills : List Cmd) (m : Manager)
    → ((c : Cmd)
        → has_cmd c (cmds_of gone m.sessions) ≡ true
        → (has_cmd c m.exited || has_cmd c kills) ≡ true)
    → IsSound m
    → IsSound (record m { sessions = drop gone m.sessions; killed = m.killed ++ kills })
drop-IsSound gone kills m excused v = record {
  distinct = Tables.drop-Distinct gone m.sessions v.distinct;
  named = Tables.lookup-drop gone "" m.sessions v.named;
  limited = omega (arith, v.limited, Tables.length-drop-le gone m.sessions);
  no_cmd_lost = λ (c : Cmd) (l : c < m.started). ground (
    arith,
    v.no_cmd_lost c l,
    excused c,
    Tables.drop-holds gone c m.sessions,
    Tables.has_cmd-append c m.killed kills,
  );
}

remove_exited-IsSound : (m : Manager) → IsSound m → IsSound (remove_exited m)
unfolding remove_exited
remove_exited-IsSound m v = record {
  distinct = w.distinct;
  named = w.named;
  limited = w.limited;
  no_cmd_lost = λ (c : Cmd) (l : c < m.started).
      ground (arith, w.no_cmd_lost c l, Tables.has_cmd-append c m.killed []);
}
  where
    w :
        IsSound
          (record m { sessions = drop (has_exited m.exited) m.sessions; killed = m.killed ++ [] })
    w =
        drop-IsSound (has_exited m.exited) [] m
          (λ (c : Cmd) (h : has_cmd c (cmds_of (has_exited m.exited) m.sessions) ≡ true).
            ground (arith, Tables.dropped_exited m.exited c m.sessions h))
          v

cleanup-IsSound : (now : ℕ) (m : Manager) → IsSound m → IsSound (cleanup now m)
unfolding cleanup
cleanup-IsSound now m v =
    drop-IsSound (is_over now m.exited) (cmds_of (is_left now m.exited) m.sessions) m
      (λ c h. Tables.dropped_over m.exited now c m.sessions h) v

close_matching-IsSound :
    (matches : String → Bool) (m : Manager) → IsSound m → IsSound (close_matching matches m)
unfolding close_matching
close_matching-IsSound matches m v =
    drop-IsSound (λ k s. matches k) (cmds_of (λ k s. matches k) m.sessions) m
      (λ (c : Cmd) (h : has_cmd c (cmds_of (λ k s. matches k) m.sessions) ≡ true).
        ground (arith, h))
      v

evict-IsSound :
    (m : Manager)
    → IsSound m
    → IsSound (evict m)
      × (length (evict m).sessions < max_sessions)
      × ((evict m).started ≡ m.started)
unfolding evict
evict-IsSound m v = elim (Bool-cases (leb max_sessions (length m.sessions))) [
  | inr room ↦ rw room (v, ground arith, refl)
  | inl full ↦
      let old = oldest true "" 0 m.sessions in
      let (s, there, _) = oldest_found m.sessions v.distinct full in
      rw (evict_full m s v.named full there) (
        record {
          distinct = Tables.delete-Distinct old m.sessions v.distinct;
          named = ground (arith, lookup-delete old "" m.sessions, v.named);
          limited = omega (arith, v.limited, Tables.length-delete-le old m.sessions);
          no_cmd_lost = λ (c : Cmd) (l : c < m.started). ground (
            arith,
            v.no_cmd_lost c l,
            Tables.delete-holds c old m.sessions v.distinct,
            there,
            Tables.has_cmd-append c m.killed (s.cmd ∷ []),
          );
        },
        omega (arith, v.limited, Tables.length-delete-lt old m.sessions {s = s} there),
        refl,
      )
]

-- The map keeps its invariant when a session is put under a path that is not empty.
insert-Distinct : (k : String) (s : Session) (m : Table) → Distinct m → Distinct (insert k s m)
unfolding insert
insert-Distinct k s m d =
    (ground (arith, lookup-delete k k m, eq_iff k k), Tables.delete-Distinct k m d)

named_after :
    (k : String) (s : Session) (m : Table)
    → (k == "") ≡ false
    → lookup "" m ≡ none
    → lookup "" (insert k s m) ≡ none
named_after k s m other named = rw (lookup-insert k "" s m, other) named

module _ (target : String) (l : Launch) (m : Manager) (other : (target == "") ≡ false)
    (v : IsSound m) where
  hit-IsSound :
      (s : Session)
      → lookup target m.sessions ≡ some s
      → IsSound
          (record m { sessions = insert target (record s { last_access = l.now }) m.sessions })
  unfolding insert
  hit-IsSound s there = record {
    distinct = insert-Distinct target (record s { last_access = l.now }) m.sessions v.distinct;
    named = named_after target (record s { last_access = l.now }) m.sessions other v.named;
    limited = omega (arith, v.limited, Tables.length-delete-lt target m.sessions {s = s} there);
    no_cmd_lost = λ (c : Cmd) (b : c < m.started).
        ground
          (arith, v.no_cmd_lost c b, Tables.delete-holds c target m.sessions v.distinct, there);
  }

  abbrev begun : ℕ → Session
  begun port = record { port = port; cmd = m.started; last_access = l.listening_at }

  started-IsSound :
      (port : ℕ)
      → lookup target m.sessions ≡ none
      → length m.sessions < max_sessions
      → IsSound
          (record m { sessions = insert target (begun port) m.sessions; started = suc m.started })
  unfolding insert
  started-IsSound port absent room = record {
    distinct = insert-Distinct target (begun port) m.sessions v.distinct;
    named = named_after target (begun port) m.sessions other v.named;
    limited = omega (arith, Tables.length-delete-le target m.sessions);
    no_cmd_lost = λ (c : Cmd) (b : c < suc m.started).
        ground (arith, v.no_cmd_lost c, Tables.delete_absent target m.sessions absent);
  }

  start_on-IsSound :
      lookup target m.sessions ≡ none
      → length m.sessions < max_sessions
      → IsSound (start_on target l l.free_port m).1
  unfolding start_on
  start_on-IsSound absent room = go l.free_port l.start_error refl
    where
      go : (r : Result ℕ) (e : Option Error) → l.start_error ≡ e → IsSound (start_on target l r m).1
      go (ok port) none same = rw same (started-IsSound port absent room)
      go (ok port) (some e) same = rw same v
      go (err x) e same = v

evict_absent :
    (target : String) (m : Manager)
    → IsSound m
    → lookup target m.sessions ≡ none
    → lookup target (evict m).sessions ≡ none
unfolding evict
evict_absent target m v absent = elim (Bool-cases (leb max_sessions (length m.sessions))) [
  | inr room ↦ rw room absent
  | inl full ↦
      let (s, there, _) = oldest_found m.sessions v.distinct full in
      rw
        (
          evict_full m s v.named full there,
          lookup-delete (oldest true "" 0 m.sessions) target m.sessions,
          absent,
        )
        (ground arith)
]

get_or_start-IsSound :
    (target : String) (l : Launch) (m : Manager)
    → (target == "") ≡ false
    → IsSound m
    → IsSound (get_or_start target l m).1
unfolding get_or_start
get_or_start-IsSound target l m other v =
    let m' = remove_exited m in
    let w = remove_exited-IsSound m v in
    elim (Option-cases (lookup target m'.sessions)) [
      | inl absent ↦
          let (kept, room, _) = evict-IsSound m' w in
          rw (absent, get_or_start)
            (start_on-IsSound target l (evict m') other kept (evict_absent target m' w absent) room)
      | inr (s, there) ↦ rw (there, get_or_start) (hit-IsSound target l m' other w s there)
    ]

delete_if_same-IsSound :
    (target : String) (c : Cmd) (m : Manager) (s : Session)
    → (has_cmd c m.exited || has_cmd c m.killed) ≡ true
    → lookup target m.sessions ≡ some s
    → (s.cmd == c) ≡ true
    → IsSound m
    → IsSound (record m { sessions = delete target m.sessions })
delete_if_same-IsSound target c m s ended there same v = record {
  distinct = Tables.delete-Distinct target m.sessions v.distinct;
  named = ground (arith, lookup-delete target "" m.sessions, v.named);
  limited = omega (arith, v.limited, Tables.length-delete-le target m.sessions);
  no_cmd_lost = λ (d : Cmd) (l : d < m.started).
      ground (arith, v.no_cmd_lost d l, Tables.delete-holds d target m.sessions v.distinct, there);
}

wait_ended-IsSound :
    (target : String) (c : Cmd) (m : Manager) → IsSound m → IsSound (wait_ended target c m)
unfolding wait_ended
wait_ended-IsSound target c m v = elim (Bool-cases (has_cmd c m.exited || has_cmd c m.killed)) [
  | inr alive ↦ rw alive v
  | inl ended ↦ rw ended (elim (Option-cases (lookup target m.sessions)) [
    | inl absent ↦ rw (absent, wait_ended) v
    | inr (s, there) ↦
        rw (there, wait_ended)
          (elim (Bool-cases (s.cmd == c)) [
            | inl same ↦ rw same (delete_if_same-IsSound target c m s ended there same v)
            | inr differs ↦ rw differs v
          ])
  ])
]

exits-IsSound : (c : Cmd) (m : Manager) → IsSound m → IsSound (act (exits c) m)
unfolding act
exits-IsSound c m v = record {
  distinct = v.distinct;
  named = v.named;
  limited = v.limited;
  no_cmd_lost = λ (d : Cmd) (l : d < m.started). ground (arith, v.no_cmd_lost d l);
}

-- The paths that are asked for are not empty, as filepath.Join of the storage's path makes them.
abbrev pub IsAsked : Action → Type 0
IsAsked (opens target l) = (target == "") ≡ false
IsAsked (exits c) = Unit
IsAsked (waited target c) = Unit
IsAsked (ticks now) = Unit
IsAsked (closes matches) = Unit

run-IsSound :
    (actions : List Action) (m : Manager)
    → All IsAsked actions
    → IsSound m
    → IsSound (run actions m)
unfolding run act
run-IsSound [] m asked v = v
run-IsSound (opens target l ∷ rest) m asked v =
    run-IsSound rest (get_or_start target l m).1 asked.1 (get_or_start-IsSound target l m asked.0 v)
run-IsSound (exits c ∷ rest) m asked v =
    run-IsSound rest (act (exits c) m) asked.1 (exits-IsSound c m v)
run-IsSound (waited target c ∷ rest) m asked v =
    run-IsSound rest (wait_ended target c m) asked.1 (wait_ended-IsSound target c m v)
run-IsSound (ticks now ∷ rest) m asked v =
    run-IsSound rest (cleanup now m) asked.1 (cleanup-IsSound now m v)
run-IsSound (closes matches ∷ rest) m asked v =
    run-IsSound rest (close_matching matches m) asked.1 (close_matching-IsSound matches m v)

reached-IsSound : (actions : List Action) → All IsAsked actions → IsSound (run actions no_sessions)
reached-IsSound actions asked = run-IsSound actions no_sessions asked no_sessions-IsSound

-- In every order of requests for paths that are not empty, ends of processes, ticks of the monitor and
-- deletions, there are at most two sessions, and no two under one path.
pub sessions_limited :
    (actions : List Action)
    → All IsAsked actions
    → (length (run actions no_sessions).sessions ≤ max_sessions)
      × Distinct (run actions no_sessions).sessions
sessions_limited actions asked = let v = reached-IsSound actions asked in (v.limited, v.distinct)

-- In every order of requests for paths that are not empty, ends of processes, ticks of the monitor and
-- deletions, each command that was started runs in a session of the map, has exited or has been killed:
-- none runs on unseen.
pub no_command_lost :
    (actions : List Action)
    → All IsAsked actions
    → (c : Cmd) → c < (run actions no_sessions).started
    → accounted (run actions no_sessions) c ≡ true
no_command_lost actions asked = (reached-IsSound actions asked).no_cmd_lost
