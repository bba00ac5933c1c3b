-- ===== src/User/Defs.antt =====
-- Users, sessions and the tables that keep them: internal/modules/user/domain/user.go,
-- user/repository/user_repository.go and user/repository/session_repository.go. The database is a
-- parameter: what GORM answers to each query of the repositories. A query that only reads leaves the
-- state; a failure of the database is an `Error`.
use game_production.Common.{
  ℕ, nat_key, ◌==◌, ltb, String, Bool, Option, Error, failure, wrapped, Result, ok, err, Exec,
  or_wrap,
}
use game_production.Clock.{Time}

pub record User : Type 0 where
  pub user_id : ℕ
  pub username : String
  pub password_hash : String
  pub email : String
  pub status : ℕ
  pub created_at : Time
  pub last_login_at : Option Time

pub record Session : Type 0 where
  pub session_id : String
  pub user_id : ℕ
  pub token : String
  pub expires_at : Time
  pub created_at : Time

abbrev pub status_active : ℕ
status_active = 1

abbrev pub status_suspended : ℕ
status_suspended = 2

abbrev pub status_banned : ℕ
status_banned = 3

unfoldable pub is_active : User → Bool
is_active u = u.status == status_active

-- What `First` answers: a row, ErrRecordNotFound, or another error.
pub data Found (A : Type 0) : Type 0 where
  found : A → Found A
  not_found : Found A
  failed : Error → Found A

-- `Create` of a user answers the ID that the table gives the row.
pub record Database (S : Type 0) : Type 0 where
  pub insert_user : User → Exec S ℕ
  pub user_by_id : ℕ → S → Found User
  pub user_by_username : String → S → Found User
  pub user_by_email : String → S → Found User
  pub set_last_login : ℕ → Time → Exec S (Unit {0})
  pub count_username : String → S → Result ℕ
  pub count_email : String → S → Result ℕ
  pub insert_session : Session → Exec S (Unit {0})
  pub session_by_id : String → S → Found Session
  pub update_session : String → String → Time → Exec S (Unit {0})
  pub delete_sessions_by_id : String → Exec S (Unit {0})
  pub delete_sessions_by_token : String → Exec S (Unit {0})
  pub delete_sessions_before : Time → Exec S (Unit {0})
  pub delete_sessions_by_user : ℕ → Exec S (Unit {0})

-- A row, or an error that names what was sought.
abbrev row : {A : Type 0} → String → String → Found A → Result A
row missing text (found a) = ok a
row missing text not_found = err (failure missing)
row missing text (failed e) = err (wrapped text e)

-- count > 0
abbrev is_there : String → Result ℕ → Result Bool
is_there text (ok n) = ok (ltb 0 n)
is_there text (err e) = err (wrapped text e)

module _ {S : Type 0} (db : Database S) where
  -- UserRepository
  unfoldable pub create_user : User → Exec S ℕ
  create_user u = or_wrap "failed to create user" (db.insert_user u)

  unfoldable pub get_by_id : ℕ → Exec S User
  get_by_id id s = (row "user not found" "failed to get user" (db.user_by_id id s), s)

  unfoldable pub get_by_username : String → Exec S User
  get_by_username name s =
      (row "user not found" "failed to get user" (db.user_by_username name s), s)

  unfoldable pub get_by_email : String → Exec S User
  get_by_email email s = (row "user not found" "failed to get user" (db.user_by_email email s), s)

  unfoldable pub update_last_login : ℕ → Time → Exec S (Unit {0})
  update_last_login id now = or_wrap "failed to update last login" (db.set_last_login id now)

  unfoldable pub username_exists : String → Exec S Bool
  username_exists name s = (is_there "failed to check username" (db.count_username name s), s)

  unfoldable pub email_exists : String → Exec S Bool
  email_exists email s = (is_there "failed to check email" (db.count_email email s), s)

  -- SessionRepository
  unfoldable pub create_session : Session → Exec S (Unit {0})
  create_session x = or_wrap "failed to create session" (db.insert_session x)

  unfoldable pub get_by_session_id : String → Exec S Session
  get_by_session_id id s =
      (row "session not found" "failed to get session" (db.session_by_id id s), s)

  unfoldable pub update_session : Session → Exec S (Unit {0})
  update_session x =
      or_wrap "failed to update session" (db.update_session x.session_id x.token x.expires_at)

  unfoldable pub delete_session : String → Exec S (Unit {0})
  delete_session id = or_wrap "failed to delete session" (db.delete_sessions_by_id id)

  unfoldable pub delete_by_token : String → Exec S (Unit {0})
  delete_by_token token =
      or_wrap "failed to delete session by token" (db.delete_sessions_by_token token)

  unfoldable pub delete_expired : Time → Exec S (Unit {0})
  delete_expired now = or_wrap "failed to delete expired sessions" (db.delete_sessions_before now)

  unfoldable pub delete_by_user_id : ℕ → Exec S (Unit {0})
  delete_by_user_id user =
      or_wrap "failed to delete user sessions" (db.delete_sessions_by_user user)
