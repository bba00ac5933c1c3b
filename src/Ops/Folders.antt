-- ===== src/Ops/Folders.antt =====
-- The folders of recorded profiles: how handleRecordPerformance of cmd/ops/main.go names them and how
-- handleListPerformanceHistory reads the names. strconv's decimals are a parameter.
use Prim.Native.Char.{Char, code}
use Prim.Native.String.{◌++◌ as concat}
use Prim.Native.String.append
use text.Mathlib.TextEquality.{Char-path, eq_iff}
use game_production.Common.{
  ℕ, String, string_key, eqb, ◌==◌, Bool, true, false, ◌&&◌, ◌||◌, Option, none, some, List, [],
  ◌∷◌, ◌≡◌, refl, ap, ◌∙◌, arith, if◌then◌else◌, Bool-cases, inl, inr,
}

-- A text holds the character with this code.
abbrev pub has_code : ℕ → String → Bool
has_code n String.[] = false
has_code n (String.◌∷◌ c s) = eqb (code c) n || has_code n s

-- strings.ReplaceAll for one character.
unfoldable pub replace_all : Char → Char → String → String
replace_all old new String.[] = String.[]
replace_all old new (String.◌∷◌ c s) =
    String.◌∷◌ (if eqb (code c) (code old) then new else c) (replace_all old new s)

abbrev longer_head : Char → List String → List String
longer_head c [] = String.◌∷◌ c String.[] ∷ []
longer_head c (p ∷ ps) = String.◌∷◌ c p ∷ ps

-- strings.Split(name, "__")
unfoldable pub split : String → List String
split String.[] = String.[] ∷ []
split (String.◌∷◌ c String.[]) = String.◌∷◌ c String.[] ∷ []
split (String.◌∷◌ c (String.◌∷◌ d s)) = elim (eqb (code c) b'_' && eqb (code d) b'_') [
  | true ↦ String.[] ∷ split s
  | false ↦ longer_head c (split (String.◌∷◌ d s))
]

-- What strconv prints and reads.
pub record Decimals : Type 0 where
  pub print : ℕ → String
  pub parse : String → ℕ

abbrev colon : Char
colon = ":"

abbrev dash : Char
dash = "-"

unfoldable pub safe_instance : String → String
unfolding replace_all
safe_instance instance_name =
    let safe = replace_all colon dash instance_name in if safe == "" then "unknown" else safe

unfoldable pub folder_name : Decimals → ℕ → String → String → String
unfolding safe_instance
folder_name dec timestamp service instance_name =
    concat (dec.print timestamp)
      (concat "__" (concat service (concat "__" (safe_instance instance_name))))

-- What the storage lists after MkdirAll has made a folder of this name in it: a slash ends the name, and what
-- stands behind it is a folder inside.
unfoldable pub made_entry : String → String
made_entry String.[] = String.[]
made_entry (String.◌∷◌ c s) = if eqb (code c) b'/' then String.[] else String.◌∷◌ c (made_entry s)

-- What a name says: the time, the service and the instance.
pub record FolderInfo : Type 0 where
  pub timestamp : ℕ
  pub service_name : String
  pub instance_name : String

unfoldable pub read_parts : Decimals → List String → Option FolderInfo
unfolding replace_all
read_parts dec [] = none
read_parts dec (t ∷ []) = none
read_parts dec (t ∷ service ∷ []) =
    some (record { timestamp = dec.parse t; service_name = service; instance_name = "unknown" })
read_parts dec (t ∷ service ∷ i ∷ more) = some (record {
  timestamp = dec.parse t;
  service_name = service;
  instance_name = replace_all dash colon i;
})

unfoldable pub read_folder : Decimals → String → Option FolderInfo
unfolding split read_parts
read_folder dec name = read_parts dec (split name)

-- The documented behaviour of strconv: what it prints is read back, and has digits only.
pub record ReadsBack (dec : Decimals) : Type 0 where
  pub parse-print : (n : ℕ) → dec.parse (dec.print n) ≡ n
  pub plain : (n : ℕ) → has_code b'_' (dec.print n) ≡ false
  pub no_slash : (n : ℕ) → has_code b'/' (dec.print n) ≡ false

split_plain : (w : String) → has_code b'_' w ≡ false → split w ≡ w ∷ []
unfolding split
split_plain String.[] h = refl
split_plain (String.◌∷◌ c String.[]) h = refl
split_plain (String.◌∷◌ c (String.◌∷◌ d s)) h = ground (arith, split_plain (String.◌∷◌ d s))

abbrev low : Char
low = "_"

separated : (rest : String) → concat "__" rest ≡ String.◌∷◌ low (String.◌∷◌ low rest)
separated rest =
    append.cons low "_" rest
    ∙ ap (String.◌∷◌ low) (append.cons low "" rest ∙ ap (String.◌∷◌ low) (append.nil rest))

-- Up to the first separator there is one part.
split_first :
    (w rest : String)
    → has_code b'_' w ≡ false
    → split (concat w (String.◌∷◌ low (String.◌∷◌ low rest))) ≡ w ∷ split rest
unfolding split
split_first String.[] rest h = rw (append.nil (String.◌∷◌ low (String.◌∷◌ low rest))) refl
split_first (String.◌∷◌ c String.[]) rest h =
    rw
      (
        append.cons c "" (String.◌∷◌ low (String.◌∷◌ low rest)),
        append.nil (String.◌∷◌ low (String.◌∷◌ low rest)),
      )
      (ground arith)
split_first (String.◌∷◌ c (String.◌∷◌ d s)) rest h =
    rw
      (
        append.cons c (String.◌∷◌ d s) (String.◌∷◌ low (String.◌∷◌ low rest)),
        append.cons d s (String.◌∷◌ low (String.◌∷◌ low rest)),
      )
      (ground (
        arith,
        append.cons d s (String.◌∷◌ low (String.◌∷◌ low rest)),
        split_first (String.◌∷◌ d s) rest,
      ))

-- A dash is read as a colon, so a name without dashes comes back.
replace_back :
    (s : String) → has_code b'-' s ≡ false → replace_all dash colon (replace_all colon dash s) ≡ s
unfolding replace_all
replace_back String.[] h = refl
replace_back (String.◌∷◌ c s) h = elim (Bool-cases (eqb (code c) (code colon))) [
  | inl same ↦
      rw (same, replace_back s (ground arith))
        (ap (λ d. String.◌∷◌ d s) (Char-path colon c (ground (arith, same))))
  | inr other ↦
      let none_here : eqb (code c) (code dash) ≡ false = ground (arith, h) in
      rw (other, replace_back s (ground arith), none_here) refl
]

replace_plain :
    (s : String) → has_code b'_' s ≡ false → has_code b'_' (replace_all colon dash s) ≡ false
unfolding replace_all
replace_plain String.[] h = refl
replace_plain (String.◌∷◌ c s) h = elim (Bool-cases (eqb (code c) (code colon))) [
  | inl same ↦ rw same (replace_plain s (ground arith))
  | inr other ↦ rw other (ground (arith, h, replace_plain s))
]

-- What the list says of an instance: an empty name was recorded as unknown.
unfoldable pub listed_instance : String → String
listed_instance instance_name = if instance_name == "" then "unknown" else instance_name

safe_plain : (s : String) → has_code b'_' s ≡ false → has_code b'_' (safe_instance s) ≡ false
unfolding safe_instance
safe_plain s h = elim (Bool-cases (replace_all colon dash s == "")) [
  | inl empty ↦ rw empty refl
  | inr named ↦ rw named (replace_plain s h)
]

longer : (c : Char) (s : String) → (String.◌∷◌ c s == "") ≡ false
longer c s = elim (Bool-cases (String.◌∷◌ c s == "")) [
  | inl same ↦ absurd (cc ((eq_iff (String.◌∷◌ c s) "").0 same))
  | inr differs ↦ differs
]

safe_back :
    (s : String)
    → has_code b'-' s ≡ false
    → replace_all dash colon (safe_instance s) ≡ listed_instance s
unfolding safe_instance listed_instance replace_all
safe_back String.[] h = refl
safe_back (String.◌∷◌ c s) h =
    let new : Char = if eqb (code c) (code colon) then dash else c in
    rw (longer new (replace_all colon dash s), longer c s) (replace_back (String.◌∷◌ c s) h)

made_plain : (s : String) → has_code b'/' s ≡ false → made_entry s ≡ s
unfolding made_entry
made_plain String.[] h = refl
made_plain (String.◌∷◌ c s) h = ground (arith, h, made_plain s)

concat_slash :
    (a b : String)
    → has_code b'/' a ≡ false
    → has_code b'/' b ≡ false
    → has_code b'/' (concat a b) ≡ false
concat_slash String.[] b ha hb = rw (append.nil b) hb
concat_slash (String.◌∷◌ c a) b ha hb =
    rw (append.cons c a b) (ground (arith, ha, concat_slash a b))

replace_slash :
    (s : String) → has_code b'/' s ≡ false → has_code b'/' (replace_all colon dash s) ≡ false
unfolding replace_all
replace_slash String.[] h = refl
replace_slash (String.◌∷◌ c s) h = elim (Bool-cases (eqb (code c) (code colon))) [
  | inl same ↦ rw same (replace_slash s (ground arith))
  | inr other ↦ rw other (ground (arith, h, replace_slash s))
]

safe_slash : (s : String) → has_code b'/' s ≡ false → has_code b'/' (safe_instance s) ≡ false
unfolding safe_instance
safe_slash s h = elim (Bool-cases (replace_all colon dash s == "")) [
  | inl empty ↦ rw empty refl
  | inr named ↦ rw named (replace_slash s h)
]

folder_slash :
    (dec : Decimals) (timestamp : ℕ) (service instance_name : String)
    → ReadsBack dec
    → has_code b'/' service ≡ false
    → has_code b'/' instance_name ≡ false
    → has_code b'/' (folder_name dec timestamp service instance_name) ≡ false
unfolding folder_name
folder_slash dec timestamp service instance_name back hs hi =
    let tail_slash =
      concat_slash "__" (safe_instance instance_name) refl (safe_slash instance_name hi) in
    let safe = safe_instance instance_name in
    concat_slash (dec.print timestamp) (concat "__" (concat service (concat "__" safe)))
      (back.no_slash timestamp)
      (concat_slash "__" (concat service (concat "__" safe)) refl
        (concat_slash service (concat "__" safe) hs tail_slash))

-- The history reads from what the storage lists of a recording's folder the time, the service and the
-- instance that were recorded, an empty instance as unknown, if the service has neither an underscore
-- nor a slash and the instance neither an underscore nor a dash nor a slash.
pub recorded_folder_listed :
    (dec : Decimals)
    → ReadsBack dec
    → (timestamp : ℕ) (service instance_name : String) → has_code b'_' service ≡ false
    → has_code b'_' instance_name ≡ false
    → has_code b'-' instance_name ≡ false
    → has_code b'/' service ≡ false
    → has_code b'/' instance_name ≡ false
    → read_folder dec (made_entry (folder_name dec timestamp service instance_name))
      ≡ some (record {
        timestamp = timestamp;
        service_name = service;
        instance_name = listed_instance instance_name;
      })
unfolding read_folder folder_name
recorded_folder_listed dec back timestamp service instance_name plain_service plain no_dash hs hi =
    let safe = safe_instance instance_name in
    rw
      (
        made_plain (folder_name dec timestamp service instance_name)
            (folder_slash dec timestamp service instance_name back hs hi),
        separated safe,
        separated (concat service (String.◌∷◌ low (String.◌∷◌ low safe))),
        split_first (dec.print timestamp) (concat service (String.◌∷◌ low (String.◌∷◌ low safe)))
            (back.plain timestamp),
        split_first service safe plain_service,
        split_plain safe (safe_plain instance_name plain),
        back.parse-print timestamp,
        safe_back instance_name no_dash,
      )
      refl
