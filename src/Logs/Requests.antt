-- ===== src/Logs/Requests.antt =====
-- Request IDs and the loggers that carry them: pkg/logger/logger.go, middleware.go, request_id.go and
-- gorm_adapter.go. A logger is the fields that it adds to each line; zerolog, time.Format and Sprintf are
-- not looked into, and the lines themselves are left out.
pub mod Traced
use game_production.Common.{
  ℕ, ◌+◌, ◌%◌, String, string_key, Bool, true, false, ◌&&◌, not, Option, none, some, List, [], ◌∷◌,
  ◌++◌, ltb, leb, eqb, two64, concat, ◌==◌, if◌then◌else◌,
}

pub record Logger : Type 0 where
  pub fields : List (String × String)

-- The values of a context under RequestIDKey and LoggerKey.
pub record Context : Type 0 where
  pub request_id : Option String
  pub logger : Option Logger

abbrev pub background : Context
background = record { request_id = none; logger = none }

-- With().Str(key, value).Logger()
abbrev pub with_str : String → String → Logger → Logger
with_str key value l = record { fields = l.fields ++ (key, value) ∷ [] }

module _ (global_logger : Logger) where
  unfoldable pub with_request_id : String → Context → Context
  with_request_id id ctx = record {
    request_id = some id;
    logger = some (with_str "request_id" id global_logger);
  }

  logger_of_id : Option String → Logger
  logger_of_id none = global_logger
  logger_of_id (some id) =
      if id == "" then global_logger else with_str "request_id" id global_logger

  logger_or : Option Logger → Option String → Logger
  unfolding logger_of_id
  logger_or (some l) id = l
  logger_or none id = logger_of_id id

  -- `none` is the nil context.
  unfoldable pub from_context : Option Context → Logger
  unfolding logger_or
  from_context none = global_logger
  from_context (some ctx) = logger_or ctx.logger ctx.request_id

  -- The fields in the order in which Go walks the map.
  unfoldable pub with_fields : List (String × String) → Context → Context
  unfolding from_context
  with_fields fields ctx = record ctx {
    logger = some (record { fields = (from_context (some ctx)).fields ++ fields });
  }

unfoldable pub get_request_id : Option Context → String
get_request_id none = ""
get_request_id (some ctx) = elim ctx.request_id [ none ↦ "" | some id ↦ id ]

-- The parts of an ID: time.Format with 20060102150405, fmt's %06d, and the hexadecimals of three bytes.
pub record IdText : Type 0 where
  pub format_time : ℕ → String
  pub six_digits : ℕ → String
  pub hex : ℕ → String

-- Sprintf("%s-%06d-%s", timestamp, count, randomHex)
unfoldable pub request_id_text : IdText → ℕ → ℕ → ℕ → String
request_id_text text now count random =
    concat (text.format_time now)
      (concat "-" (concat (text.six_digits count) (concat "-" (text.hex random))))

-- The uint64 counter is the state.
unfoldable pub generate_request_id : IdText → ℕ → ℕ → ℕ → String × ℕ
unfolding request_id_text
generate_request_id text now random counter =
    let count = (counter + 1) % two64 in (request_id_text text now count random, count)

module _ (global_logger : Logger) (text : IdText) (now random : ℕ) where
  unfoldable pub id_or_new : String → ℕ → String × ℕ
  unfolding generate_request_id
  id_or_new given counter =
      if given == "" then generate_request_id text now random counter else (given, counter)

  -- GinMiddleware and HTTPMiddleware: the response's header, and the context of the handler.
  unfoldable pub middleware : String → Context → ℕ → (String × Context) × ℕ
  unfolding id_or_new with_request_id
  middleware header ctx counter =
      let (id, counter') = id_or_new header counter in
      ((id, with_request_id global_logger id ctx), counter')

  unfoldable pub web_socket_context : String → String → ℕ → Context × ℕ
  unfolding id_or_new with_request_id
  web_socket_context query header counter =
      let (id, counter') = id_or_new (if query == "" then header else query) counter in
      (with_request_id global_logger id background, counter')

pub data Level : Type 0 where
  debug_level info_level warn_level error_level : Level

unfoldable pub parse_level : String → Level
parse_level level =
    if level == "debug"
    then debug_level
    else if level == "info"
    then info_level
    else if level == "warn"
    then warn_level
    else if level == "error"
    then error_level
    else info_level

-- The levels of GORM's logger are 1 (silent) to 4 (info).
pub record GormLogger : Type 0 where
  pub slow_threshold : ℕ
  pub log_level : ℕ

unfoldable pub new_gorm_logger : GormLogger
new_gorm_logger = record { slow_threshold = 200000000; log_level = 3 }

unfoldable pub log_mode : ℕ → GormLogger → GormLogger
log_mode level l = record l { log_level = level }

abbrev at_level : ℕ → Level → GormLogger → Option Level
at_level least event l = if leb least l.log_level then some event else none

-- The level at which a query is logged, if it is. `failed` is whether there is an error other than
-- ErrRecordNotFound.
unfoldable pub trace : Bool → ℕ → GormLogger → Option Level
trace failed elapsed l =
    if leb l.log_level 1
    then none
    else if failed
    then at_level 2 error_level l
    else if ltb l.slow_threshold elapsed && not (eqb l.slow_threshold 0)
    then at_level 3 warn_level l
    else at_level 4 info_level l
