-- ===== src/User/Documented.antt =====
-- What the use case of users relies on: SQL tables with a unique user name and session ID, bcrypt, and
-- JWT as github.com/golang-jwt/jwt documents it.
use game_production.Common.{
  ℕ, ◌<◌, ◌≡◌, String, true, some, map, Dict, lookup, string_key, Result, ok,
}
use game_production.Clock.{Time, unix}
use game_production.Float.{Float64}
use game_production.User.Defs.{User, Session, Database, found, not_found}
use game_production.User.Accounts.{Claim, int64, ReadClaim, number, Method, hmac, Token, Libraries}

-- The row `r` holds what was inserted as `u`, with its ID.
pub record IsRow (id : ℕ) (u r : User) : Type 0 where
  pub same_id : r.user_id ≡ id
  pub same_username : r.username ≡ u.username
  pub same_password_hash : r.password_hash ≡ u.password_hash
  pub same_status : r.status ≡ u.status

pub record IsSessionRow (x r : Session) : Type 0 where
  pub same_session_id : r.session_id ≡ x.session_id
  pub same_user_id : r.user_id ≡ x.user_id
  pub same_token : r.token ≡ x.token
  pub same_expires_at : r.expires_at ≡ x.expires_at

pub record Tables {S : Type 0} (db : Database S) : Type 0 where
  pub inserted_user :
      (u : User) (s s' : S) (id : ℕ)
      → db.count_username u.username s ≡ ok 0
      → db.insert_user u s ≡ (ok id, s')
      → (r : User) × (db.user_by_username u.username s' ≡ found r) × IsRow id u r
  pub inserted_session :
      (x : Session) (s s' : S)
      → db.insert_session x s ≡ (ok tt, s')
      → (r : Session) × (db.session_by_id x.session_id s' ≡ found r) × IsSessionRow x r
  pub last_login_keeps_sessions :
      (user : ℕ) (now : Time) (id : String) (s : S)
      → db.session_by_id id (db.set_last_login user now s).1 ≡ db.session_by_id id s
  pub deleted_by_token :
      (token id : String) (r : Session) (s s' : S)
      → db.delete_sessions_by_token token s ≡ (ok tt, s')
      → db.session_by_id id s ≡ found r
      → r.token ≡ token
      → db.session_by_id id s' ≡ not_found

module _ {F : Type 0} (float : Float64 F) where
  -- A claim once it was written as JSON and read again.
  abbrev pub through_json : String × Claim → String × ReadClaim F
  through_json (k, int64 n) = (k, number (float.of_int64 n))
  through_json (k, Claim.text t) = (k, ReadClaim.text t)

module _ {F S : Type 0} (float : Float64 F) (lib : Libraries F S) where
  -- The passwords that a hash was made of match it.
  abbrev pub Hashes : Type 0
  Hashes =
      (password hashed : String)
      → lib.hash password ≡ ok hashed
      → lib.matches hashed password ≡ true

  -- A token that was signed with a secret is read, with its claims, before the second in its claim
  -- "exp", by whoever names this secret for HMAC tokens.
  abbrev pub ReadsSigned : Type 0
  ReadsSigned =
      (secret token : String) (claims : Dict String Claim) (exp : ℕ) (now : Time)
      (key : Method → Result String)
      → lib.sign secret claims ≡ ok token
      → lookup "exp" claims ≡ some (int64 exp)
      → unix now < exp
      → key hmac ≡ ok secret
      → lib.parse key now token
        ≡ ok (record { valid = true; claims = some (map (through_json float) claims) })

  -- A token that is read as valid names a method for which there is a key, and carries a signature of
  -- that method by that key.
  pub record ChecksSignature (method_of : String → Method) (signed_by : String → String → Type 0)
      : Type 0 where
    pub read_signed :
        (key : Method → Result String) (now : Time) (token : String) (t : Token F)
        → lib.parse key now token ≡ ok t
        → (secret : String) × (key (method_of token) ≡ ok secret) × signed_by secret token
