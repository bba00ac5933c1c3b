-- ===== src/User/Tests.antt =====
-- Users in a table by name and sessions in a table by ID, with libraries that are easy to compute.
use mathlib.Core.HLevel.{Discrete}
use game_production.Common.{
  if◌then◌else◌, ℕ, ◌+◌, ◌*◌, ◌&&◌, ltb, add64, Key, nat_key, string_key, String, ◌==◌, eq_iff,
  same_self, Bool, true, false, ◌≡◌, ◌<◌, ◌↔◌, refl, ap, arith, Dict, map, lookup, Option, some,
  none, Result, ok, err, failure, concat,
}
use game_production.Clock.{Time, second, unix}
use game_production.Float.{Float64}
use game_production.User.Defs.{
  User, Session, Database, Found, found, not_found, status_active, username_exists, email_exists,
  create_user, delete_by_token, is_active, get_by_username, create_session, update_last_login,
}
use game_production.User.Accounts.{
  generate_token, Claim, Method, hmac, Token, Libraries, UserUseCase, LoginAnswer, claims_of,
  key_for, login, validate_token, logout, refresh_token, register,
}
use game_production.User.Tokens.{login_authenticates, login_token_valid, validated_token_signed}
use game_production.User.Sessions.{logout_ends_session, register_then_login, Serves}
use game_production.User.Handlers.{Web, LoginRequest, handle_login, bare_token}
use game_production.User.Responses.{handle_login_ok_iff, bare_token-bearer}
use game_production.User.Documented.{Tables, Hashes, ReadsSigned, ChecksSignature, through_json}

record Rows : Type 0 where
  pub users : String → Option User
  pub sessions : String → Option Session
  pub clock : Time

abbrev found_in : {A : Type 0} → Option A → Found A
found_in (some a) = found a
found_in none = not_found

-- A session that does not have the token.
abbrev unless_token : String → Option Session → Option Session
unless_token token none = none
unless_token token (some x) = if x.token == token then none else some x

abbrev count_of : {A : Type 0} → Option A → ℕ
count_of (some a) = 1
count_of none = 0

abbrev db : Database Rows
db = record {
  insert_user = λ u s. (
    ok 1,
    record s {
      users = λ name. if name == u.username then some (record u { user_id = 1 }) else s.users name;
    },
  );
  user_by_id = λ id s. not_found;
  user_by_username = λ name s. found_in (s.users name);
  user_by_email = λ email s. not_found;
  set_last_login = λ user now s. (ok tt, s);
  count_username = λ name s. ok (count_of (s.users name));
  count_email = λ email s. ok 0;
  insert_session = λ x s.
      (ok tt, record s { sessions = λ id. if id == x.session_id then some x else s.sessions id });
  session_by_id = λ id s. found_in (s.sessions id);
  update_session = λ id token now s. (ok tt, s);
  delete_sessions_by_id =
      λ id s. (ok tt, record s { sessions = λ i. if i == id then none else s.sessions i });
  delete_sessions_by_token =
      λ token s. (ok tt, record s { sessions = λ id. unless_token token (s.sessions id) });
  delete_sessions_before = λ now s. (ok tt, s);
  delete_sessions_by_user = λ user s. (ok tt, s);
}

gone :
    (token id : String) (r : Session) (s s' : Rows)
    → db.delete_sessions_by_token token s ≡ (ok tt, s')
    → db.session_by_id id s ≡ found r
    → r.token ≡ token
    → db.session_by_id id s' ≡ not_found
gone token id r s s' put there same = go (s.sessions id) refl
  where
    go : (x : Option Session) → s.sessions id ≡ x → db.session_by_id id s' ≡ not_found
    go none e = absurd (ground (arith, e, there))
    go (some x) e = ground (arith, e, there, same, put, same_self token)

rows-Tables : Tables db
rows-Tables = record {
  inserted_user = λ u s s' id none_there put. (
    record u { user_id = 1 },
    ground (arith, put, same_self u.username),
    record {
      same_id = ground (arith, put);
      same_username = refl;
      same_password_hash = refl;
      same_status = refl;
    },
  );
  inserted_session = λ x s s' put. (
    x,
    ground (arith, put, same_self x.session_id),
    record {
      same_session_id = refl;
      same_user_id = refl;
      same_token = refl;
      same_expires_at = refl;
    },
  );
  last_login_keeps_sessions = λ user now id s. refl;
  deleted_by_token = λ token id r s s' put there same. gone token id r s s' put there same;
}

key-discrete : {A : Type 0} ⦃k : Key A⦄ → Discrete A
key-discrete ⦃k = k⦄ a b = go (a == b) refl
  where
    go : (r : Bool) → (a == b) ≡ r → Dec (a ≡ b)
    go true e = yes ((k.same_iff a b).0 e)
    go false e = no (λ same. ground (arith, e, same, same_self a))

string-discrete : Discrete String
string-discrete = key-discrete

nat-discrete : Discrete ℕ
nat-discrete = key-discrete

claims-discrete : Discrete (String × Dict String Claim)
claims-discrete = hlevel (string-discrete, nat-discrete)

abbrev float : Float64 ℕ
float = record { of_int64 = λ n. n; to_int64 = λ x. x; add = add64; exact = λ n small. refl }

abbrev start : Time
start = 63000000000 * second

abbrev hour : Time
hour = 3600 * second

-- One secret and one user's claims are all that is ever signed.
abbrev signable : String × Dict String Claim
signable = ("secret", claims_of 1 "ann" (start + hour) start)

abbrev sign : String → Dict String Claim → Result String
sign secret claims = elim (claims-discrete (secret, claims) signable) [
  | yes _ ↦ ok "ticket"
  | no _ ↦ err (failure "cannot sign")
]

abbrev read_with : Result String → Time → Result (Token ℕ)
read_with (err e) now = err e
read_with (ok secret) now =
    if secret == "secret" && ltb (unix now) (unix (start + hour))
    then ok (record { valid = true; claims = some (map (through_json float) signable.1) })
    else err (failure "bad signature or time")

abbrev lib : Libraries ℕ Rows
lib = record {
  hash = λ password. ok password;
  matches = λ hashed password. hashed == password;
  sign = sign;
  parse = λ key now token.
      if token == "ticket" then read_with (key hmac) now else err (failure "no token");
  random_hex = λ s. (ok "fresh", s);
  now = λ s. s.clock;
}

sign-signable : sign signable.0 signable.1 ≡ ok "ticket"
sign-signable = go (claims-discrete signable signable)
  where
    go :
        (d : Dec (signable ≡ signable))
        → (elim d as (λ _. Result String) [
          | yes _ ↦ ok "ticket"
          | no _ ↦ err (failure "cannot sign")
        ])
          ≡ ok "ticket"
    go (yes p) = refl
    go (no n) = absurd (n refl)

signed_so :
    (secret token : String) (claims : Dict String Claim)
    → sign secret claims ≡ ok token
    → ((secret, claims) ≡ signable) × (token ≡ "ticket")
signed_so secret token claims signed = go (claims-discrete (secret, claims) signable) refl
  where
    go :
        (d : Dec ((secret, claims) ≡ signable))
        → claims-discrete (secret, claims) signable ≡ d
        → ((secret, claims) ≡ signable) × (token ≡ "ticket")
    go (yes p) e = (p, ground (arith, e, signed))
    go (no n) e = absurd (ground (arith, e, signed))

lib-ReadsSigned : ReadsSigned float lib
unfolding lookup
lib-ReadsSigned secret token claims exp now key signed has_exp early keyed =
    let (p, q) = signed_so secret token claims signed in
    let same_claims : claims ≡ signable.1 = ap (λ x. x.1) p in
    let same_secret : secret ≡ signable.0 = ap (λ x. x.0) p in
    let same_exp : exp ≡ unix (start + hour) = ground (arith, same_claims, has_exp) in
    let in_time : unix now < unix (start + hour) = omega (arith, early, same_exp) in
    rw (q, keyed, same_secret, same_claims) (ground (arith, in_time))

lib-Hashes : Hashes float lib
lib-Hashes password hashed e = ground (arith, e, same_self hashed)

abbrev uc : UserUseCase
uc = record { jwt_secret = "secret"; token_duration = hour }

abbrev empty_rows : Rows
empty_rows = record { users = λ name. none; sessions = λ id. none; clock = start }

abbrev ann : User
ann = record {
  user_id = 1;
  username = "ann";
  password_hash = "pass word";
  email = "a@b.c";
  status = status_active;
  created_at = 0;
  last_login_at = none;
}

abbrev with_ann : Rows
with_ann = record empty_rows { users = λ name. if name == "ann" then some ann else none }

abbrev answer : LoginAnswer
answer = record {
  user_id = 1;
  token = "ticket";
  refresh_token = "fresh";
  expires_at = start + hour;
}

logged_in :
    login float lib db uc "ann" "pass word" with_ann
    ≡ (ok answer, (login float lib db uc "ann" "pass word" with_ann).1)
unfolding login is_active get_by_username generate_token create_session update_last_login
logged_in = ground (arith, sign-signable)

login_authenticates_example :
    (user : User) × (found ann ≡ found user)
    × (user.status ≡ status_active)
    × ((user.password_hash == "pass word") ≡ true)
    × (1 ≡ user.user_id)
login_authenticates_example =
    login_authenticates float lib db uc "ann" "pass word" with_ann
      (login float lib db uc "ann" "pass word" with_ann).1 answer logged_in

login_token_valid_example :
    (user : User) × (found ann ≡ found user)
    × (validate_token float lib db uc (start + second) "ticket"
        ≡ some (ok (record { user_id = 1; username = user.username; exp = unix (start + hour) })))
unfolding unix
login_token_valid_example =
    login_token_valid float lib db uc "ann" "pass word" with_ann
      (login float lib db uc "ann" "pass word" with_ann).1 answer (start + second) lib-ReadsSigned
      logged_in (omega arith) (omega arith) (omega arith)

abbrev SignedBy : String → String → Type 0
SignedBy secret token = (secret ≡ "secret") × (token ≡ "ticket")

lib-ChecksSignature : ChecksSignature float lib (λ token. hmac) SignedBy
lib-ChecksSignature = record {
  read_signed = λ key now token t e. go key now token t e (key hmac) refl;
}
  where
    go :
        (key : Method → Result String) (now : Time) (token : String) (t : Token ℕ)
        → lib.parse key now token ≡ ok t
        → (k : Result String) → key hmac ≡ k
        → (secret : String) × (key hmac ≡ ok secret) × SignedBy secret token
    go key now token t e (ok secret) keyed = (
      secret,
      keyed,
      (
        ground (arith, e, keyed, eq_iff secret "secret"),
        ground (arith, e, keyed, eq_iff token "ticket"),
      ),
    )
    go key now token t e (err x) keyed = absurd (ground (arith, e, keyed))

validated_token_signed_test : (hmac ≡ hmac) × SignedBy "secret" "ticket"
unfolding unix validate_token key_for lookup
validated_token_signed_test =
    validated_token_signed float lib db uc (λ token. hmac) SignedBy (start + second) "ticket"
      (record { user_id = 1; username = "ann"; exp = unix (start + hour) }) lib-ChecksSignature refl

logout_ends_session_example :
    refresh_token float lib db uc "fresh"
      (logout float lib db uc "ticket" (login float lib db uc "ann" "pass word" with_ann).1).1
    ≡ (
      err (failure "invalid refresh token"),
      (logout float lib db uc "ticket" (login float lib db uc "ann" "pass word" with_ann).1).1,
    )
unfolding logout delete_by_token
logout_ends_session_example =
    logout_ends_session float lib db uc "ann" "pass word" with_ann
      (login float lib db uc "ann" "pass word" with_ann).1
      (logout float lib db uc "ticket" (login float lib db uc "ann" "pass word" with_ann).1).1
      answer rows-Tables logged_in refl

-- Everything is signed.
abbrev lenient : Libraries ℕ Rows
lenient = record lib { sign = λ secret claims. ok "ticket" }

lenient-Serves : Serves float lenient db uc
lenient-Serves = record {
  signs = λ claims. ("ticket", refl);
  draws = λ s. ("fresh", s, refl);
  stores = λ x s. (_, refl);
}

abbrev after_register : Rows
unfolding register
after_register = (register float lenient db uc "bob" "123456" "b@b.c" empty_rows).1

register_then_login_test :
    (a : LoginAnswer) × (s'' : Rows) × (login float lenient db uc "bob" "123456" after_register
      ≡ (ok a, s''))
    × (a.user_id ≡ 1)
unfolding register username_exists email_exists create_user
register_then_login_test =
    register_then_login float lenient db uc "bob" "123456" "b@b.c" empty_rows after_register 1
      rows-Tables lib-Hashes lenient-Serves refl

abbrev web : Web Rows
web = record {
  allow_login = λ s. (true, s);
  allow_register = λ s. (true, s);
  bind_register = λ body. err (failure "bad JSON");
  bind_login = λ body. ok (record { username = body; password = "pass word" });
}

handle_login_ok_iff_test : ((handle_login float lib db uc web "ann" with_ann).0.status ≡ 200) ↔ (
    (true ≡ true)
    × ((q : LoginRequest) × (a : LoginAnswer) × (web.bind_login "ann" ≡ ok q)
        × ((login float lib db uc q.username q.password with_ann).0 ≡ ok a)))
handle_login_ok_iff_test = handle_login_ok_iff float lib db uc web "ann" with_ann

bare_token-bearer_test : bare_token (concat "Bearer " "ticket") ≡ "ticket"
bare_token-bearer_test = bare_token-bearer "ticket" (λ e. ground (arith, e, eq_iff "ticket" ""))
