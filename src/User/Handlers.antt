-- ===== src/User/Handlers.antt =====
-- The adapters of the user module: internal/modules/user/adapter/http/handler.go,
-- adapter/local/handler.go and adapter/grpc/handler.go. The rate limiters and the binding of JSON are
-- parameters; a response is its status and the value that is printed as JSON.
use Prim.Native.String.{len, slice}
use text.Mathlib.Text.{starts_with}
use game_production.Common.{
  ℕ, String, string_key, ◌==◌, ◌&&◌, ltb, Bool, true, false, Option, none, some, Error, failure,
  Result, ok, err, if◌then◌else◌,
}
use game_production.Clock.{Time}
use game_production.Proto.{ErrorCode, success, unauthorized}
use game_production.Float.{Float64}
use game_production.User.Defs.{Database}
use game_production.User.Accounts.{
  Libraries, UserUseCase, LoginAnswer, TokenAnswer, register, login, logout, validate_token,
}

pub record RegisterRequest : Type 0 where
  pub username : String
  pub password : String
  pub email : String

pub record LoginRequest : Type 0 where
  pub username : String
  pub password : String

-- loginLimiter.Allow, registerLimiter.Allow and ShouldBindJSON
pub record Web (S : Type 0) : Type 0 where
  pub allow_login : S → Bool × S
  pub allow_register : S → Bool × S
  pub bind_register : String → Result RegisterRequest
  pub bind_login : String → Result LoginRequest

pub data Body : Type 0 where
  error_body : Error → Body
  registered : ℕ → Body
  logged_in : LoginAnswer → Body
  done : Body
  healthy : Body

pub record Response : Type 0 where
  pub status : ℕ
  pub body : Body

-- ValidateTokenRsp
pub record ValidateTokenRsp : Type 0 where
  pub error_code : ErrorCode
  pub valid : Bool
  pub answer : Option TokenAnswer

abbrev response : ℕ → Body → Response
response status body = record { status = status; body = body }

-- if len(token) > 7 && token[:7] == "Bearer " { token = token[7:] }
unfoldable pub bare_token : String → String
bare_token token =
    if ltb 7 (len token) && starts_with token "Bearer " then slice token 7 (len token) else token

unfoldable pub health : Response
health = response 200 healthy

module _ {F S : Type 0} (float : Float64 F) (lib : Libraries F S) (db : Database S)
    (uc : UserUseCase) (web : Web S) where
  register_answer : Result ℕ × S → Response × S
  register_answer (ok id, s) = (response 200 (registered id), s)
  register_answer (err e, s) = (response 500 (error_body e), s)

  register_bound : Result RegisterRequest → S → Response × S
  unfolding register_answer
  register_bound (err e) s = (response 400 (error_body e), s)
  register_bound (ok q) s =
      register_answer (register float lib db uc q.username q.password q.email s)

  unfoldable pub handle_register : String → S → Response × S
  unfolding register_bound
  handle_register body s =
      let (allowed, s') = web.allow_register s in
      if allowed then register_bound (web.bind_register body) s' else (
        response 429
            (error_body (failure "too many registration requests, please try again later")),
        s',
      )

  login_answer : Result LoginAnswer × S → Response × S
  login_answer (ok a, s) = (response 200 (logged_in a), s)
  login_answer (err e, s) = (response 401 (error_body e), s)

  login_bound : Result LoginRequest → S → Response × S
  unfolding login_answer
  login_bound (err e) s = (response 400 (error_body e), s)
  login_bound (ok q) s = login_answer (login float lib db uc q.username q.password s)

  unfoldable pub handle_login : String → S → Response × S
  unfolding login_bound
  handle_login body s =
      let (allowed, s') = web.allow_login s in
      if allowed then login_bound (web.bind_login body) s' else (
        response 429 (error_body (failure "too many login requests, please try again later")),
        s',
      )

  logout_answer : Result (Unit {0}) × S → Response × S
  logout_answer (ok _, s) = (response 200 done, s)
  logout_answer (err e, s) = (response 500 (error_body e), s)

  -- `header` is the header Authorization.
  unfoldable pub handle_logout : String → S → Response × S
  unfolding logout_answer bare_token
  handle_logout header s =
      if header == ""
      then (response 400 (error_body (failure "missing token")), s)
      else logout_answer (logout float lib db uc (bare_token header) s)

module _ {F S : Type 0} (float : Float64 F) (lib : Libraries F S) (db : Database S)
    (uc : UserUseCase) where
  unfoldable pub local_validate_token : Time → String → Option (Result TokenAnswer)
  unfolding validate_token
  local_validate_token now token = validate_token float lib db uc now token

  validate_answer : Result TokenAnswer → ValidateTokenRsp
  validate_answer (err e) = record { error_code = unauthorized; valid = false; answer = none }
  validate_answer (ok a) = record { error_code = success; valid = true; answer = some a }

  unfoldable pub grpc_validate_token : Time → String → Option ValidateTokenRsp
  unfolding validate_answer validate_token
  grpc_validate_token now token = elim (validate_token float lib db uc now token) [
    | none ↦ none
    | some r ↦ some (validate_answer r)
  ]
