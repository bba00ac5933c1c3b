-- ===== src/Ops/Sessions/Tables.antt =====
-- Lemmas on the map of sessions of cmd/ops/main.go: its keys are distinct, and who holds a command.
use game_production.Common.{
  ℕ, ◌≤◌, ◌<◌, String, string_key, nat_key, Bool, true, false, ◌||◌, Option, none, some, List, [],
  ◌∷◌, ◌++◌, Dict, lookup, delete, lookup-delete, length, ◌==◌, ◌≡◌, refl, arith, eq_iff,
}
use game_production.Ops.Sessions.{
  Cmd, Session, has_cmd, drop, cmds_of, has_exited, is_over, is_left,
}

abbrev pub Table : Type 0
Table = Dict String Session

abbrev pub Distinct : Table → Type 0
Distinct [] = Unit
Distinct ((k, s) ∷ m) = (lookup k m ≡ none) × Distinct m

-- A session of the map runs the command.
abbrev pub holds : Cmd → Table → Bool
holds c [] = false
holds c ((k, s) ∷ m) = c == s.cmd || holds c m

abbrev pub runs : Cmd → Option Session → Bool
runs c none = false
runs c (some s) = c == s.cmd

pub has_cmd-append :
    (c : Cmd) (xs ys : List Cmd) → has_cmd c (xs ++ ys) ≡ (has_cmd c xs || has_cmd c ys)
has_cmd-append c [] ys = refl
has_cmd-append c (x ∷ xs) ys = ground (arith, has_cmd-append c xs ys)

module _ (gone : String → Session → Bool) where
  pub lookup-drop : (k : String) (m : Table) → lookup k m ≡ none → lookup k (drop gone m) ≡ none
  unfolding lookup drop
  lookup-drop k [] h = refl
  lookup-drop k ((j, s) ∷ m) h = ground (arith, lookup-drop k m)

  pub drop-Distinct : (m : Table) → Distinct m → Distinct (drop gone m)
  unfolding drop
  drop-Distinct [] d = tt
  drop-Distinct ((k, s) ∷ m) d = ground (arith, lookup-drop k m, drop-Distinct m)

  pub length-drop-le : (m : Table) → length (drop gone m) ≤ length m
  unfolding drop
  length-drop-le [] = omega arith
  length-drop-le ((k, s) ∷ m) = ground (arith, length-drop-le m)

  pub drop-holds :
      (c : Cmd) (m : Table)
      → holds c m ≡ true
      → (holds c (drop gone m) || has_cmd c (cmds_of gone m)) ≡ true
  unfolding drop cmds_of
  drop-holds c [] h = absurd (ground arith)
  drop-holds c ((k, s) ∷ m) h = ground (arith, drop-holds c m)

module _ (exited : List Cmd) where
  pub dropped_exited :
      (c : Cmd) (m : Table)
      → has_cmd c (cmds_of (has_exited exited) m) ≡ true
      → has_cmd c exited ≡ true
  unfolding cmds_of
  dropped_exited c [] h = absurd (ground arith)
  dropped_exited c ((k, s) ∷ m) h = ground (arith, dropped_exited c m)

  pub dropped_over :
      (now : ℕ) (c : Cmd) (m : Table)
      → has_cmd c (cmds_of (is_over now exited) m) ≡ true
      → (has_cmd c exited || has_cmd c (cmds_of (is_left now exited) m)) ≡ true
  unfolding cmds_of
  dropped_over now c [] h = absurd (ground arith)
  dropped_over now c ((k, s) ∷ m) h = ground (arith, dropped_over now c m)

pub delete-Distinct : (k : String) (m : Table) → Distinct m → Distinct (delete k m)
unfolding delete
delete-Distinct k [] d = tt
delete-Distinct k ((j, s) ∷ m) d = ground (arith, lookup-delete k j m, delete-Distinct k m)

pub length-delete-le : (k : String) (m : Table) → length (delete k m) ≤ length m
unfolding delete
length-delete-le k [] = omega arith
length-delete-le k ((j, s) ∷ m) = ground (arith, length-delete-le k m)

pub length-delete-lt :
    (k : String) (m : Table) {s : Session} → lookup k m ≡ some s → length (delete k m) < length m
unfolding lookup delete
length-delete-lt k [] h = absurd (ground arith)
length-delete-lt k ((j, r) ∷ m) {s} h =
    ground (arith, length-delete-le k m, length-delete-lt k m {s = s})

pub delete_absent : (k : String) (m : Table) → lookup k m ≡ none → delete k m ≡ m
unfolding lookup delete
delete_absent k [] h = refl
delete_absent k ((j, s) ∷ m) h = ground (arith, delete_absent k m)

-- Only the session under the key loses its place.
pub delete-holds :
    (c : Cmd) (k : String) (m : Table)
    → Distinct m
    → (holds c (delete k m) || runs c (lookup k m)) ≡ holds c m
unfolding lookup delete
delete-holds c k [] d = refl
delete-holds c k ((j, s) ∷ m) d = ground (arith, eq_iff j k, delete_absent k m, delete-holds c k m)
