-- ===== src/User/Accounts.antt =====
-- The use case of users: internal/modules/user/usecase/user_uc.go. bcrypt, JWT, the random bytes and
-- the clock are parameters; the clock stands still within one call. A panic is `none`.
use Prim.Native.String.{len}
use game_production.Common.{
  ℕ, ◌+◌, ◌*◌, String, string_key, ◌==◌, ◌||◌, ltb, not, Bool, Option, none, some, [], ◌∷◌, Dict,
  lookup, Error, failure, about, wrapped, Result, ok, err, Exec, ◌>>=◌, ◌>>◌, pure, fail, or_wrap,
  if◌then◌else◌,
}
use game_production.Clock.{Time, second, unix}
use game_production.Float.{Float64}
use game_production.User.Defs.{
  User, Session, Database, status_active, is_active, create_user, get_by_id, get_by_username,
  update_last_login, username_exists, email_exists, create_session, get_by_session_id,
  update_session, delete_session, delete_by_token,
}

-- What a claim is before it is signed, and after a token was read: JSON has only float64 numbers.
pub data Claim : Type 0 where
  int64 : ℕ → Claim
  text : String → Claim

pub data ReadClaim (F : Type 0) : Type 0 where
  number : F → ReadClaim F
  text : String → ReadClaim F
  other : ReadClaim F

-- token.Method
pub data Method : Type 0 where
  hmac : Method
  other_method : String → Method

-- The token that jwt.Parse answers; `claims` is `none` if they are no MapClaims.
pub record Token (F : Type 0) : Type 0 where
  pub valid : Bool
  pub claims : Option (Dict String (ReadClaim F))

pub record Libraries (F S : Type 0) : Type 0 where
  pub hash : String → Result String  -- bcrypt.GenerateFromPassword
  pub matches : String → String → Bool  -- bcrypt.CompareHashAndPassword: of a hash and a password
  pub sign : String → Dict String Claim → Result String  -- SignedString with HS256
  pub parse : (Method → Result String) → Time → String → Result (Token F)  -- jwt.Parse
  pub random_hex : Exec S String  -- 32 random bytes in hexadecimal
  pub now : S → Time

pub record UserUseCase : Type 0 where
  pub jwt_secret : String
  pub token_duration : Time

pub record LoginAnswer : Type 0 where
  pub user_id : ℕ
  pub token : String
  pub refresh_token : String
  pub expires_at : Time

pub record RefreshAnswer : Type 0 where
  pub token : String
  pub refresh_token : String
  pub expires_at : Time

pub record TokenAnswer : Type 0 where
  pub user_id : ℕ
  pub username : String
  pub exp : ℕ  -- seconds, of which time.Unix makes a time

-- A guard that ends with an error.
abbrev require : {S : Type 0} → Bool → Error → Exec S (Unit {0})
require b e s = if b then (ok tt, s) else (err e, s)

-- Any error becomes this one.
abbrev or_fail : {S A : Type 0} → Error → Exec S A → Exec S A
or_fail e m s = let (r, s') = m s in elim r [ ok a ↦ (ok a, s') | err _ ↦ (err e, s') ]

-- `_ = f()`
abbrev ignore : {S A : Type 0} → Exec S A → Exec S (Unit {0})
ignore m s = (ok tt, (m s).1)

-- 24 * time.Hour * 7
abbrev pub week : ℕ
week = 604800 * second

-- The key function of ValidateToken: only HMAC tokens are checked, with the secret.
unfoldable pub key_for : String → Method → Result String
key_for secret hmac = ok secret
key_for secret (other_method alg) = err (about "unexpected signing method" alg)

abbrev pub claims_of : ℕ → String → Time → Time → Dict String Claim
claims_of user username expires_at now =
    ("user_id", int64 user)
    ∷ ("username", text username)
    ∷ ("exp", int64 (unix expires_at))
    ∷ ("iat", int64 (unix now))
    ∷ []

module _ {F S : Type 0} (float : Float64 F) (lib : Libraries F S) (db : Database S)
    (uc : UserUseCase) where
  new_user : String → String → String → User
  new_user username hashed email = record {
    user_id = 0;
    username = username;
    password_hash = hashed;
    email = email;
    status = status_active;
    created_at = 0;
    last_login_at = none;
  }

  unfoldable pub register : String → String → String → Exec S ℕ
  unfolding new_user
  register username password email = do
    require (not (username == "" || password == "" || email == ""))
        (failure "username, password, and email are required")
    require (not (ltb (len password) 6)) (failure "password must be at least 6 characters")
    name_taken ← or_wrap "failed to check username" (username_exists db username)
    require (not name_taken) (failure "username already exists")
    email_taken ← or_wrap "failed to check email" (email_exists db email)
    require (not email_taken) (failure "email already exists")
    hashed ← or_wrap "failed to hash password" (λ s. (lib.hash password, s))
    or_wrap "failed to create user" (create_user db (new_user username hashed email))

  -- The token and when it expires.
  unfoldable pub generate_token : ℕ → String → Exec S (String × Time)
  generate_token user username s =
      let now = lib.now s in
      let expires_at = now + uc.token_duration in
      elim (lib.sign uc.jwt_secret (claims_of user username expires_at now)) [
        | ok token ↦ (ok (token, expires_at), s)
        | err e ↦ (err e, s)
      ]

  new_session : String → ℕ → String → Time → Session
  new_session id user token expires_at = record {
    session_id = id;
    user_id = user;
    token = token;
    expires_at = expires_at + week;
    created_at = 0;
  }

  unfoldable pub login : String → String → Exec S LoginAnswer
  unfolding new_session
  login username password = do
    user ← or_fail (failure "invalid username or password") (get_by_username db username)
    require (is_active user) (failure "user account is not active")
    require (lib.matches user.password_hash password) (failure "invalid username or password")
    t ← or_wrap "failed to generate token" (generate_token user.user_id user.username)
    refresh ← or_wrap "failed to generate refresh token" lib.random_hex
    or_wrap "failed to create session"
        (create_session db (new_session refresh user.user_id t.0 t.1))
    ignore (λ s. update_last_login db user.user_id (lib.now s) s)
    pure (record { user_id = user.user_id; token = t.0; refresh_token = refresh; expires_at = t.1 })

  asserted_number : Option (ReadClaim F) → Option F
  asserted_number (some (number x)) = some x
  asserted_number _ = none

  asserted_text : Option (ReadClaim F) → Option String
  asserted_text (some (text x)) = some x
  asserted_text _ = none

  -- The three type assertions, of which each panics where the claim is missing or of another type.
  read_answer : Option F → Option String → Option F → Option TokenAnswer
  read_answer (some user) (some name) (some exp) =
      some (record { user_id = float.to_int64 user; username = name; exp = float.to_int64 exp })
  read_answer _ _ _ = none

  read_claims : Dict String (ReadClaim F) → Option (Result TokenAnswer)
  unfolding asserted_number asserted_text read_answer
  read_claims claims =
      elim (read_answer (asserted_number (lookup "user_id" claims))
        (asserted_text (lookup "username" claims)) (asserted_number (lookup "exp" claims))) [
          | none ↦ none
          | some a ↦ some (ok a)
        ]

  read_token : Token F → Option (Result TokenAnswer)
  unfolding read_claims
  read_token t = if not t.valid then some (err (failure "token is not valid")) else elim t.claims [
    | none ↦ some (err (failure "invalid token claims"))
    | some claims ↦ read_claims claims
  ]

  unfoldable pub validate_token : Time → String → Option (Result TokenAnswer)
  unfolding read_token
  validate_token now token = elim (lib.parse (key_for uc.jwt_secret) now token) [
    | err e ↦ some (err (wrapped "invalid token" e))
    | ok t ↦ read_token t
  ]

  unfoldable pub logout : String → Exec S (Unit {0})
  logout token = delete_by_token db token

  -- An expired session is deleted, and the deletion's error dropped.
  drop_expired : Session → Exec S (Unit {0})
  drop_expired x s =
      if ltb x.expires_at (lib.now s)
      then (ignore (delete_session db x.session_id) >> fail (failure "refresh token expired")) s
      else (ok tt, s)

  unfoldable pub refresh_token : String → Exec S RefreshAnswer
  unfolding drop_expired
  refresh_token refresh = do
    session ← or_fail (failure "invalid refresh token") (get_by_session_id db refresh)
    drop_expired session
    user ← or_fail (failure "user not found") (get_by_id db session.user_id)
    require (is_active user) (failure "user account is not active")
    t ← or_wrap "failed to generate token" (generate_token user.user_id user.username)
    or_wrap "failed to update session" (update_session db (record session { token = t.0 }))
    pure (record { token = t.0; refresh_token = refresh; expires_at = t.1 })
