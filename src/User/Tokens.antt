-- ===== src/User/Tokens.antt =====
-- Who gets a token and what it is good for: Login and ValidateToken of
-- internal/modules/user/usecase/user_uc.go.
use game_production.Common.{
  ◌+◌, ◌<◌, ◌≤◌, ◌≡◌, refl, String, string_key, true, some, Result, ok, err, arith, lookup,
}
use mathlib.Core.Path.{subst}
use game_production.Clock.{Time, unix}
use game_production.Float.{Float64, two53}
use game_production.User.Defs.{
  User, Database, Found, found, not_found, failed, status_active, is_active, get_by_username,
}
use game_production.User.Accounts.{
  Method, hmac, other_method, Token, Libraries, UserUseCase, LoginAnswer, TokenAnswer, key_for,
  claims_of, login, generate_token, validate_token,
}
use game_production.User.Documented.{ReadsSigned, ChecksSignature}

module _ {F S : Type 0} (float : Float64 F) (lib : Libraries F S) (db : Database S)
    (uc : UserUseCase) where
  -- What a login that was answered rests on.
  pub record Authenticated (username password : String) (s : S) (a : LoginAnswer) : Type 0 where
    pub user : User
    pub is_there : db.user_by_username username s ≡ found user
    pub active : user.status ≡ status_active
    pub matching : lib.matches user.password_hash password ≡ true
    pub same_user : a.user_id ≡ user.user_id
    pub expiry : a.expires_at ≡ lib.now s + uc.token_duration
    pub signed :
        lib.sign uc.jwt_secret (claims_of user.user_id user.username a.expires_at (lib.now s))
        ≡ ok a.token

  login-Authenticated :
      (username password : String) (s s' : S) (a : LoginAnswer)
      → login float lib db uc username password s ≡ (ok a, s')
      → Authenticated username password s a
  unfolding login is_active get_by_username generate_token
  login-Authenticated username password s s' a e = go (db.user_by_username username s) refl
    where
      go :
          (f : Found User)
          → db.user_by_username username s ≡ f
          → Authenticated username password s a
      go (found u) there = record {
        user = u;
        is_there = there;
        active = ground (arith, e, there);
        matching = ground (arith, e, there);
        same_user = ground (arith, e, there);
        expiry = ground (arith, e, there);
        signed = ground (arith, e, there);
      }
      go not_found there = absurd (ground (arith, e, there))
      go (failed x) there = absurd (ground (arith, e, there))

  -- A login is answered only to the name of a user whose account is active and whose password hash the
  -- password matches; the answer has that user's ID.
  pub login_authenticates :
      (username password : String) (s s' : S) (a : LoginAnswer)
      → login float lib db uc username password s ≡ (ok a, s')
      → (user : User) × (db.user_by_username username s ≡ found user)
        × (user.status ≡ status_active)
        × (lib.matches user.password_hash password ≡ true)
        × (a.user_id ≡ user.user_id)
  login_authenticates username password s s' a e =
      let v = login-Authenticated username password s s' a e in
      (v.user, v.is_there, v.active, v.matching, v.same_user)

  -- Where JWT reads what it signed, the token of a login, whose user's ID and expiry a float64 holds, is
  -- valid before the second in which it expires, whatever has become of the user and the session: it
  -- is read as the user's ID, the user's name and the expiry in seconds.
  pub login_token_valid :
      (username password : String) (s s' : S) (a : LoginAnswer) (later : Time)
      → ReadsSigned float lib
      → login float lib db uc username password s ≡ (ok a, s')
      → a.user_id ≤ two53
      → unix a.expires_at ≤ two53
      → unix later < unix a.expires_at
      → (user : User) × (db.user_by_username username s ≡ found user)
        × (validate_token float lib db uc later a.token
            ≡ some (
                ok (record {
                  user_id = a.user_id;
                  username = user.username;
                  exp = unix a.expires_at;
                })))
  unfolding validate_token key_for lookup
  login_token_valid username password s s' a later reads e small_id small_exp early =
      let v = login-Authenticated username password s s' a e in
      let claims = claims_of v.user.user_id v.user.username a.expires_at (lib.now s) in
      let known = float.exact v.user.user_id (omega (arith, v.same_user, small_id)) in
      (
        v.user,
        v.is_there,
        rw
            (
              reads uc.jwt_secret a.token claims (unix a.expires_at) later (key_for uc.jwt_secret)
                  v.signed refl early refl,
              validate_token,
              known,
              float.exact (unix a.expires_at) small_exp,
              v.same_user,
            )
            refl,
      )

  -- Where JWT checks signatures, a token that ValidateToken answers for is one of an HMAC method, signed
  -- with the use case's secret.
  pub validated_token_signed :
      (method_of : String → Method) (signed_by : String → String → Type 0) (now : Time)
      (token : String) (a : TokenAnswer)
      → ChecksSignature float lib method_of signed_by
      → validate_token float lib db uc now token ≡ some (ok a)
      → (method_of token ≡ hmac) × signed_by uc.jwt_secret token
  unfolding validate_token key_for
  validated_token_signed method_of signed_by now token a checks e =
      go (lib.parse (key_for uc.jwt_secret) now token) refl
    where
      key_hmac :
          (m : Method) (secret : String)
          → key_for uc.jwt_secret m ≡ ok secret
          → (m ≡ hmac) × (secret ≡ uc.jwt_secret)
      key_hmac hmac secret k = ground (arith, k)
      key_hmac (other_method alg) secret k = absurd (ground (arith, k))

      go :
          (r : Result (Token F))
          → lib.parse (key_for uc.jwt_secret) now token ≡ r
          → (method_of token ≡ hmac) × signed_by uc.jwt_secret token
      go (err x) p = absurd (ground (arith, e, p))
      go (ok t) p =
          let (secret, k, signed) = checks.read_signed (key_for uc.jwt_secret) now token t p in
          let (h, same) = key_hmac (method_of token) secret k in
          (h, subst (λ x. signed_by x token) same signed)
