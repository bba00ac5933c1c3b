-- ===== src/Logs/Tests/Requests.antt =====
-- Tests of the request IDs, with IDs of as many ones as the counter says.
use game_production.Common.{
  ℕ, zero, suc, String, string_key, true, false, none, some, [], ◌∷◌, ◌≡◌, refl, ap, arith,
}
use game_production.Ops.Folders.{has_code}
use game_production.Logs.Requests.{
  Logger, IdText, request_id_text, middleware, background, id_or_new, get_request_id, from_context,
  with_fields, with_request_id, web_socket_context, parse_level, error_level, info_level,
  warn_level, trace, new_gorm_logger, log_mode,
}
use game_production.Logs.Requests.Traced.{
  says, request_traced, generated, PrintsDigits, Differ, generated-Differ,
}

ones : ℕ → String
ones zero = ""
ones (suc n) = String.◌∷◌ "1" (ones n)

count_of : String → ℕ
count_of String.[] = 0
count_of (String.◌∷◌ c s) = suc (count_of s)

count_of-ones : (n : ℕ) → count_of (ones n) ≡ n
unfolding count_of ones
count_of-ones zero = refl
count_of-ones (suc n) = ap suc (count_of-ones n)

ones-dash : (n : ℕ) → has_code b'-' (ones n) ≡ false
unfolding ones
ones-dash zero = refl
ones-dash (suc n) = ones-dash n

abbrev text : IdText
text = record { format_time = ones; six_digits = ones; hex = ones }

text-PrintsDigits : PrintsDigits text
text-PrintsDigits = record {
  no_dash_time = ones-dash;
  no_dash_count = ones-dash;
  read_digits = count_of;
  read-six_digits = count_of-ones;
}

id_test : request_id_text text 3 2 1 ≡ "111-11-1"
unfolding request_id_text ones
id_test = refl

generated-Differ_example : Differ (generated text ((10, 1) ∷ (10, 1) ∷ (11, 2) ∷ []) 0)
generated-Differ_example =
    generated-Differ text text-PrintsDigits ((10, 1) ∷ (10, 1) ∷ (11, 2) ∷ []) 0 (omega arith)
      (omega arith)

abbrev global_logger : Logger
global_logger = record { fields = [] }

request_traced_test :
    let r = middleware global_logger text 10 1 "abc" background 0 in
    (r.0.0 ≡ "abc")
    × (get_request_id (some r.0.1) ≡ r.0.0)
    × (says r.0.0 (from_context global_logger (some r.0.1)).fields ≡ true)
    × (says r.0.0
          (from_context global_logger
            (some (with_fields global_logger (("user", "7") ∷ []) r.0.1))).fields
        ≡ true)
request_traced_test = request_traced global_logger text 10 1 "abc" background 0 (("user", "7") ∷ [])

query_first_test :
    get_request_id (some (web_socket_context global_logger text 10 1 "q" "h" 0).0) ≡ "q"
unfolding web_socket_context get_request_id id_or_new with_request_id
query_first_test = refl

-- A slow query of 300 milliseconds is a warning, a quick one is not logged at the default level.
slow_query_test :
    (trace false 300000000 new_gorm_logger ≡ some warn_level)
    × (trace false 1000 new_gorm_logger ≡ none)
    × (trace true 1000 new_gorm_logger ≡ some error_level)
    × (trace false 1000 (log_mode 4 new_gorm_logger) ≡ some info_level)
unfolding trace new_gorm_logger log_mode
slow_query_test = (refl, refl, refl, refl)

unknown_level_test : parse_level "verbose" ≡ info_level
unfolding parse_level
unknown_level_test = refl
