-- ===== src/Logs/Requests/Traced.antt =====
-- That the request IDs of pkg/logger reach the log lines, and differ.
use Prim.Native.Char.{Char, code}
use Prim.Native.String.{◌++◌ as concat}
use Prim.Native.String.append
use game_production.Common.{
  ℕ, ◌+◌, ◌%◌, ◌≤◌, ◌<◌, String, string_key, Bool, true, false, ◌||◌, ◌&&◌, some, List, [], ◌∷◌,
  ◌++◌, length, two64, eqb, sym, ap, ◌∙◌, ◌==◌, ◌≡◌, ◌≢◌, refl, arith, All, if◌then◌else◌,
  same_self,
}
use game_production.Ops.Folders.{has_code}
use game_production.Logs.Requests.{
  Logger, Context, IdText, with_request_id, from_context, with_fields, get_request_id,
  generate_request_id, request_id_text, id_or_new, middleware,
}

-- A line of the logger says that it belongs to the request.
abbrev pub says : String → List (String × String) → Bool
says id [] = false
says id ((key, value) ∷ fields) = (key == "request_id" && value == id) || says id fields

says-append :
    (id : String) (xs ys : List (String × String)) → says id (xs ++ ys) ≡ (says id xs || says id ys)
says-append id [] ys = refl
says-append id ((key, value) ∷ xs) ys = ground (arith, says-append id xs ys)

says_last :
    (id : String) (xs : List (String × String)) → says id (xs ++ ("request_id", id) ∷ []) ≡ true
says_last id xs = ground (
  arith,
  says-append id xs (("request_id", id) ∷ []),
  same_self id,
  same_self {A = String} "request_id",
)

module _ (global_logger : Logger) (text : IdText) (now random : ℕ) where
  chosen :
      (header : String) (counter : ℕ)
      → (id_or_new global_logger text now random header counter).0
        ≡ (if header == "" then request_id_text text now ((counter + 1) % two64) random else header)
  unfolding id_or_new generate_request_id
  chosen header counter = ground arith

  -- The ID that a client gives is kept, and a new one is made only if there is none; the answer's header
  -- and the handler's context name the same ID, and every line that the handler logs says it, also after
  -- fields were added.
  pub request_traced :
      (header : String) (ctx : Context) (counter : ℕ) (fields : List (String × String))
      → let r = middleware global_logger text now random header ctx counter in
        (r.0.0 ≡ (
          if header == "" then request_id_text text now ((counter + 1) % two64) random else header))
        × (get_request_id (some r.0.1) ≡ r.0.0)
        × (says r.0.0 (from_context global_logger (some r.0.1)).fields ≡ true)
        × (says r.0.0
              (from_context global_logger (some (with_fields global_logger fields r.0.1))).fields
            ≡ true)
  unfolding middleware get_request_id from_context with_fields with_request_id
  request_traced header ctx counter fields =
      let id = (id_or_new global_logger text now random header counter).0 in
      let said = says_last id global_logger.fields in
      (
        chosen header counter,
        refl,
        said,
        ground
            (arith, said, says-append id (global_logger.fields ++ ("request_id", id) ∷ []) fields),
      )

-- The IDs of requests that bring none, for the time and the random number of each.
unfoldable pub generated : IdText → List (ℕ × ℕ) → ℕ → List String
unfolding generate_request_id
generated text [] counter = []
generated text ((now, random) ∷ rest) counter =
    let (id, counter') = generate_request_id text now random counter in
    id ∷ generated text rest counter'

-- The documented behaviour of time.Format and fmt: both print digits, and a number can be read back.
pub record PrintsDigits (text : IdText) : Type 0 where
  pub no_dash_time : (now : ℕ) → has_code b'-' (text.format_time now) ≡ false
  pub no_dash_count : (n : ℕ) → has_code b'-' (text.six_digits n) ≡ false
  pub read_digits : String → ℕ
  pub read-six_digits : (n : ℕ) → read_digits (text.six_digits n) ≡ n

-- What stands before and after the first dash.
before_dash : String → String
before_dash String.[] = String.[]
before_dash (String.◌∷◌ c s) = if eqb (code c) b'-' then String.[] else String.◌∷◌ c (before_dash s)

after_dash : String → String
after_dash String.[] = String.[]
after_dash (String.◌∷◌ c s) = if eqb (code c) b'-' then s else after_dash s

abbrev dash : Char
dash = "-"

dashed : (rest : String) → concat "-" rest ≡ String.◌∷◌ dash rest
dashed rest = append.cons dash "" rest ∙ ap (String.◌∷◌ dash) (append.nil rest)

split_dash :
    (w rest : String)
    → has_code b'-' w ≡ false
    → (before_dash (concat w (concat "-" rest)) ≡ w)
      × (after_dash (concat w (concat "-" rest)) ≡ rest)
unfolding before_dash after_dash
split_dash String.[] rest h = rw (append.nil (concat "-" rest), dashed rest) (refl, refl)
split_dash (String.◌∷◌ c w) rest h =
    let (left, right) = split_dash w rest (ground (arith, h)) in
    let other : eqb (code c) b'-' ≡ false = ground (arith, h) in
    rw (append.cons c w (concat "-" rest), other, left, right) (refl, refl)

-- The count stands in an ID between its two dashes.
request_id_text-count :
    (text : IdText) (law : PrintsDigits text) (now count random : ℕ)
    → law.read_digits (before_dash (after_dash (request_id_text text now count random))) ≡ count
unfolding request_id_text
request_id_text-count text law now count random =
    let rest = concat (text.six_digits count) (concat "-" (text.hex random)) in
    rw
      (
        (split_dash (text.format_time now) rest (law.no_dash_time now)).1,
        (split_dash (text.six_digits count) (text.hex random) (law.no_dash_count count)).0,
      )
      (law.read-six_digits count)

same_count :
    (text : IdText) (law : PrintsDigits text) (a b now random now' random' : ℕ)
    → request_id_text text now a random ≡ request_id_text text now' b random'
    → a ≡ b
same_count text law a b now random now' random' e =
    sym (request_id_text-count text law now a random)
    ∙ ap (λ t. law.read_digits (before_dash (after_dash t))) e
    ∙ request_id_text-count text law now' b random'

abbrev pub Differ : List String → Type 0
Differ [] = Unit
Differ (id ∷ ids) = All (λ other. other ≢ id) ids × Differ ids

later_differ :
    (text : IdText) (law : PrintsDigits text) (now random : ℕ) (reqs : List (ℕ × ℕ))
    (first d counter : ℕ)
    → first < two64
    → counter ≡ (first + d) % two64
    → d + length reqs < two64
    → All (λ other. other ≢ request_id_text text now first random) (generated text reqs counter)
unfolding generated generate_request_id
later_differ text law now random [] first d counter l e k = tt
later_differ text law now random ((now', random') ∷ rest) first d counter l e k = (
  λ same.
      let count : (counter + 1) % two64 ≡ first =
        same_count text law ((counter + 1) % two64) first now' random' now random same in
      omega (arith, count, e),
  later_differ text law now random rest first (d + 1) ((counter + 1) % two64) l (omega (arith, e))
      (omega arith),
)

-- The IDs that one process makes for requests without an ID all differ, for up to 2 ^ 64 requests, whatever
-- the times and the random numbers.
pub generated-Differ :
    (text : IdText)
    → PrintsDigits text
    → (reqs : List (ℕ × ℕ)) (counter : ℕ) → counter < two64
    → length reqs ≤ two64
    → Differ (generated text reqs counter)
unfolding generated generate_request_id
generated-Differ text law [] counter l k = tt
generated-Differ text law ((now, random) ∷ rest) counter l k =
    let first = (counter + 1) % two64 in
    (
      later_differ text law now random rest first 0 first (omega arith) (omega arith) (omega arith),
      generated-Differ text law rest first (omega arith) (omega arith),
    )
