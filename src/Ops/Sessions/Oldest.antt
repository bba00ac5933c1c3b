-- ===== src/Ops/Sessions/Oldest.antt =====
-- Which session GetOrStartPprofSession of cmd/ops/main.go evicts.
use game_production.Common.{
  ℕ, ◌≤◌, ◌<◌, String, string_key, true, false, Option, none, some, [], ◌∷◌, lookup, ltb, ◌==◌, ◌≡◌,
  ◌∙◌, ap, suc, refl, arith, ◌⊎◌, inl, inr, same_self, Bool-cases, All, eq_iff, length, leb, delete,
  ◌++◌, ok, insert, lookup-insert, lookup-delete, if◌then◌else◌,
}
use game_production.Ops.Sessions.{
  Session, Manager, Launch, oldest, evict, get_or_start, drop, has_exited, max_sessions,
  remove_exited,
}
use game_production.Ops.Sessions.Tables.{Table, Distinct, lookup-drop, drop-Distinct}

-- No session of the map was used longer ago.
abbrev pub Since : ℕ → Table → Type 0
Since time m = All (λ (e : String × Session). time ≤ e.1.last_access) m

Since-weaken : {a b : ℕ} (m : Table) → a ≤ b → Since b m → Since a m
Since-weaken [] l h = tt
Since-weaken ((k, s) ∷ m) l h = (ground arith, Since-weaken m l h.1)

-- What the search has found when the loop ends.
abbrev Found : String → ℕ → Table → Type 0
Found key time m =
    ((oldest false key time m ≡ key) × Since time m)
    ⊎ ((s : Session) × (lookup (oldest false key time m) m ≡ some s)
        × (s.last_access < time)
        × Since s.last_access m)

lookup_behind :
    (k j : String) (s t : Session) (m : Table)
    → lookup k m ≡ none
    → lookup j m ≡ some t
    → lookup j ((k, s) ∷ m) ≡ some t
unfolding lookup
lookup_behind k j s t m absent there = ground (arith, eq_iff k j)

lookup_here : (k : String) (s : Session) (m : Table) → lookup k ((k, s) ∷ m) ≡ some s
unfolding lookup
lookup_here k s m = rw (same_self k) refl

found : (key : String) (time : ℕ) (m : Table) → Distinct m → Found key time m
unfolding oldest
found key time [] d = inl (refl, tt)
found key time ((k, s) ∷ m) d = elim (Bool-cases (ltb s.last_access time)) [
  | inl older ↦ rw older (elim (found k s.last_access m d.1) [
    | inl (same, since) ↦ inr (s, rw same (lookup_here k s m), ground arith, (omega arith, since))
    | inr (t, there, less, since) ↦
        inr (t, lookup_behind k _ s t m d.0 there, ground arith, (omega arith, since))
  ])
  | inr later ↦ rw later (elim (found key time m d.1) [
    | inl (same, since) ↦ inl (same, (ground arith, since))
    | inr (t, there, less, since) ↦
        inr (t, lookup_behind k _ s t m d.0 there, less, (ground arith, since))
  ])
]

-- In a map that is not empty the search ends at the key of a session that is used no later than any.
pub oldest_found :
    (m : Table)
    → Distinct m
    → leb max_sessions (length m) ≡ true
    → (s : Session) × (lookup (oldest true "" 0 m) m ≡ some s) × Since s.last_access m
unfolding oldest
oldest_found [] d h = absurd (ground arith)
oldest_found ((k, s) ∷ m) d h = elim (found k s.last_access m d.1) [
  | inl (same, since) ↦ (s, rw same (lookup_here k s m), (omega arith, since))
  | inr (t, there, less, since) ↦ (t, lookup_behind k _ s t m d.0 there, (omega arith, since))
]

pub named_key :
    (k : String) (m : Table) {s : Session}
    → lookup "" m ≡ none
    → lookup k m ≡ some s
    → (k == "") ≡ false
named_key k m {s} named there = elim (Bool-cases (k == "")) [
  | inl same ↦
      absurd
        (let e : k ≡ "" = (eq_iff k "").0 same in let gone : lookup k m ≡ none = rw e named in cc)
  | inr other ↦ other
]

-- Eviction kills the command of the session that the search has found, and deletes the session.
pub evict_full :
    (m : Manager) (s : Session)
    → lookup "" m.sessions ≡ none
    → leb max_sessions (length m.sessions) ≡ true
    → lookup (oldest true "" 0 m.sessions) m.sessions ≡ some s
    → evict m ≡ record m {
      sessions = delete (oldest true "" 0 m.sessions) m.sessions;
      killed = m.killed ++ s.cmd ∷ [];
    }
unfolding evict
evict_full m s named full there =
    rw (full, named_key (oldest true "" 0 m.sessions) m.sessions named there, there, evict) refl

-- The sessions that a request finds: those whose command has not exited.
abbrev pub live : Manager → Table
live m = drop (has_exited m.exited) m.sessions

module _ (j target : String) (l : Launch) (m : Manager) (distinct : Distinct m.sessions)
    (named : lookup "" m.sessions ≡ none) where
  -- A request for a path that has a live session is answered with the session's port; it marks the
  -- session as used now, starts and kills nothing, and leaves every other live session as it is.
  pub hit_keeps_port :
      (s : Session)
      → lookup target (live m) ≡ some s
      → ((get_or_start target l m).0 ≡ ok s.port)
        × ((get_or_start target l m).1.started ≡ m.started)
        × ((get_or_start target l m).1.killed ≡ m.killed)
        × (lookup j (get_or_start target l m).1.sessions
            ≡ (if target == j then some (record s { last_access = l.now }) else lookup j (live m)))
  unfolding get_or_start remove_exited
  hit_keeps_port s there =
      rw (there, get_or_start)
        (refl, refl, refl, lookup-insert target j (record s { last_access = l.now }) (live m))

  -- When the tool starts for a path with no live session while two sessions or more are live, one of those
  -- that were used the longest ago is killed, and no other; its place is given up, the path gets a
  -- session on the free port with a command of its own, and every other live session stays as it is.
  pub opening_evicts_oldest :
      (port : ℕ)
      → lookup target (live m) ≡ none
      → leb max_sessions (length (live m)) ≡ true
      → l.free_port ≡ ok port
      → l.start_error ≡ none
      → (old : String) × (s : Session) × (lookup old (live m) ≡ some s)
        × Since s.last_access (live m)
        × ((get_or_start target l m).0 ≡ ok port)
        × ((get_or_start target l m).1.killed ≡ m.killed ++ s.cmd ∷ [])
        × (lookup j (get_or_start target l m).1.sessions ≡ (
            if target == j
            then some (record { port = port; cmd = m.started; last_access = l.listening_at })
            else if old == j
            then none
            else lookup j (live m)))
  unfolding get_or_start remove_exited evict
  opening_evicts_oldest port absent full free started =
      let (s, there, since) =
        oldest_found (live m) (drop-Distinct (has_exited m.exited) m.sessions distinct) full in
      let old = oldest true "" 0 (live m) in
      let new : Session = record { port = port; cmd = m.started; last_access = l.listening_at } in
      let step : get_or_start target l m ≡ (
        ok port,
        record (remove_exited m) {
          sessions = insert target new (delete old (live m));
          started = suc m.started;
          killed = m.killed ++ s.cmd ∷ [];
        },
      ) =
        rw
          (
            absent,
            free,
            started,
            evict_full (remove_exited m) s (lookup-drop (has_exited m.exited) "" m.sessions named)
                full there,
            get_or_start,
          )
          refl in
      (
        old,
        s,
        there,
        since,
        rw step refl,
        rw step refl,
        rw step (
            lookup-insert target j _ (delete old (live m))
            ∙ ap (λ (o : Option Session). if target == j then some new else o)
                (lookup-delete old j (live m))),
      )
