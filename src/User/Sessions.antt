-- ===== src/User/Sessions.antt =====
-- From registration to logout: Register, Login, Logout and RefreshToken of
-- internal/modules/user/usecase/user_uc.go over tables that behave like SQL.
use Prim.Native.String.{len}
use game_production.Common.{
  ℕ, Dict, ◌+◌, ◌≤◌, ◌≡◌, refl, ◌∙◌, String, string_key, true, none, failure, Result, ok, err,
  arith,
}
use game_production.Clock.{Time}
use game_production.Float.{Float64}
use game_production.User.Defs.{
  User, Session, Database, Found, found, not_found, failed, status_active, is_active,
  get_by_username, create_session, update_last_login, get_by_session_id, delete_by_token,
  username_exists, email_exists, create_user,
}
use game_production.User.Accounts.{
  Claim, Libraries, UserUseCase, LoginAnswer, claims_of, login, week, generate_token, logout,
  refresh_token, register,
}
use game_production.User.Documented.{Tables, Hashes}

module _ {F S : Type 0} (float : Float64 F) (lib : Libraries F S) (db : Database S)
    (uc : UserUseCase) where
  -- The session that a login has stored.
  pub record Opened (s' : S) (a : LoginAnswer) : Type 0 where
    pub session : Session
    pub before : S
    pub after : S
    pub inserted : db.insert_session session before ≡ (ok tt, after)
    pub last : (now : Time) × (s' ≡ (db.set_last_login a.user_id now after).1)
    pub same_id : session.session_id ≡ a.refresh_token
    pub same_token : session.token ≡ a.token
    pub same_user : session.user_id ≡ a.user_id

  login-Opened :
      (username password : String) (s s' : S) (a : LoginAnswer)
      → login float lib db uc username password s ≡ (ok a, s')
      → Opened s' a
  unfolding login get_by_username is_active generate_token create_session update_last_login
  login-Opened username password s s' a e =
      go (db.user_by_username username s) refl (lib.random_hex s) refl
    where
      opened :
          (u : User) (r : String) (s1 : S) (x : Session)
          → db.user_by_username username s ≡ found u
          → lib.random_hex s ≡ (ok r, s1)
          → x ≡ record {
            session_id = r;
            user_id = u.user_id;
            token = a.token;
            expires_at = a.expires_at + week;
            created_at = 0;
          }
          → (q : Result (Unit {0}) × S) → db.insert_session x s1 ≡ q
          → Opened s' a
      opened u r s1 x there fresh same (err y, s2) put =
          absurd (ground (arith, e, there, fresh, same, put))
      opened u r s1 x there fresh same (ok z, s2) put = record {
        session = x;
        before = s1;
        after = s2;
        inserted = put;
        last = (lib.now s2, ground (arith, e, there, fresh, same, put));
        same_id = ground (arith, e, there, fresh, same, put);
        same_token = ground (arith, same);
        same_user = ground (arith, e, there, fresh, same, put);
      }

      go :
          (f : Found User)
          → db.user_by_username username s ≡ f
          → (q : Result String × S) → lib.random_hex s ≡ q
          → Opened s' a
      go (found u) there (ok r, s1) fresh =
          opened u r s1 _ there fresh refl (db.insert_session _ s1) refl
      go (found u) there (err x, s1) fresh = absurd (ground (arith, e, there, fresh))
      go not_found there q fresh = absurd (ground (arith, e, there))
      go (failed x) there q fresh = absurd (ground (arith, e, there))

  -- Over tables that behave like SQL, after a logout that was answered, with the token of the login just
  -- before it, the login's refresh token is refused.
  pub logout_ends_session :
      (username password : String) (s s' s'' : S) (a : LoginAnswer)
      → Tables db
      → login float lib db uc username password s ≡ (ok a, s')
      → logout float lib db uc a.token s' ≡ (ok tt, s'')
      → refresh_token float lib db uc a.refresh_token s''
        ≡ (err (failure "invalid refresh token"), s'')
  unfolding refresh_token get_by_session_id logout delete_by_token
  logout_ends_session username password s s' s'' a tables e out =
      let v = login-Opened username password s s' a e in
      let (row, there, is_row) = tables.inserted_session v.session v.before v.after v.inserted in
      let kept = tables.last_login_keeps_sessions a.user_id v.last.0 a.refresh_token v.after in
      let stored : db.session_by_id a.refresh_token s' ≡ found row =
        rw v.last.1 (kept ∙ rw (← v.same_id) there) in
      let gone =
        tables.deleted_by_token a.token a.refresh_token row s' s'' (ground (arith, out)) stored
          (is_row.same_token ∙ v.same_token) in
      ground (arith, gone)

  -- What a registration that was answered did.
  pub record Registered (username password email : String) (s : S) (id : ℕ) (s' : S) : Type 0 where
    pub user : User
    pub no_other : db.count_username username s ≡ ok 0
    pub no_email : db.count_email email s ≡ ok 0
    pub inserted : db.insert_user user s ≡ (ok id, s')
    pub same_username : user.username ≡ username
    pub hashed : lib.hash password ≡ ok user.password_hash
    pub active : user.status ≡ status_active
    pub long_enough : 6 ≤ len password

  register-Registered :
      (username password email : String) (s s' : S) (id : ℕ)
      → register float lib db uc username password email s ≡ (ok id, s')
      → Registered username password email s id s'
  unfolding register username_exists email_exists create_user
  register-Registered username password email s s' id e = go (lib.hash password) refl
    where
      go : (h : Result String) → lib.hash password ≡ h → Registered username password email s id s'
      go (ok hashed) same = record {
        user = record {
          user_id = 0;
          username = username;
          password_hash = hashed;
          email = email;
          status = status_active;
          created_at = 0;
          last_login_at = none;
        };
        no_other = ground (arith, e, same);
        no_email = ground (arith, e, same);
        inserted = ground (arith, e, same);
        same_username = refl;
        hashed = same;
        active = refl;
        long_enough = ground (arith, e, same);
      }
      go (err x) same = absurd (ground (arith, e, same))

  -- Nothing that a login needs besides the user fails.
  pub record Serves : Type 0 where
    pub signs :
        (claims : Dict String Claim) → (token : String) × (lib.sign uc.jwt_secret claims ≡ ok token)
    pub draws : (s : S) → (r : String) × (t : S) × (lib.random_hex s ≡ (ok r, t))
    pub stores : (x : Session) (s : S) → (t : S) × (db.insert_session x s ≡ (ok tt, t))

  -- Over tables that behave like SQL and with a hash that matches its password, whoever has registered
  -- can log in at once with the same name and password and gets the ID of the registration, unless
  -- signing, the random bytes or the storing of the session fails.
  pub register_then_login :
      (username password email : String) (s s' : S) (id : ℕ)
      → Tables db
      → Hashes float lib
      → Serves
      → register float lib db uc username password email s ≡ (ok id, s')
      → (a : LoginAnswer) × (s'' : S) × (login float lib db uc username password s' ≡ (ok a, s''))
        × (a.user_id ≡ id)
  unfolding login get_by_username is_active generate_token create_session update_last_login
  register_then_login username password email s s' id tables hashes serves e =
      let v = register-Registered username password email s s' id e in
      let (r, there, is_row) =
        tables.inserted_user v.user s s' id (rw v.same_username v.no_other) v.inserted in
      let named : db.user_by_username username s' ≡ found r = rw (← v.same_username) there in
      let now = lib.now s' in
      let expires_at = now + uc.token_duration in
      let (token, signed) = serves.signs (claims_of r.user_id r.username expires_at now) in
      let (fresh, s1, drawn) = serves.draws s' in
      let (s2, stored) =
        serves.stores
          (record {
            session_id = fresh;
            user_id = r.user_id;
            token = token;
            expires_at = expires_at + week;
            created_at = 0;
          })
          s1 in
      let matching : lib.matches r.password_hash password ≡ true =
        rw is_row.same_password_hash (hashes password v.user.password_hash v.hashed) in
      (
        record {
          user_id = r.user_id;
          token = token;
          refresh_token = fresh;
          expires_at = expires_at;
        },
        (db.set_last_login r.user_id (lib.now s2) s2).1,
        ground (arith, named, is_row.same_status, v.active, matching, signed, drawn, stored),
        is_row.same_id,
      )
