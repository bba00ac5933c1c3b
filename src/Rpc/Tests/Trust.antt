-- ===== src/Rpc/Tests/Trust.antt =====
-- A wallet and a user service that answer at every connection, and one token that is signed.
use game_production.Common.{
  if◌then◌else◌, ℕ, suc, add64, ◌==◌, nat_key, string_key, eq_iff, String, true, ◌≡◌, refl, arith,
  [], ◌∷◌, some, none, Option, Result, ok, err, failure, lookup,
}
use game_production.Float.{Float64}
use game_production.User.Defs.{Database, not_found}
use game_production.User.Accounts.{
  Method, hmac, Libraries, UserUseCase, Token, TokenAnswer, number, text, key_for, validate_token,
}
use game_production.User.Documented.{ChecksSignature}
use game_production.User.Handlers.{ValidateTokenRsp, grpc_validate_token}
use game_production.Gateway.Connections.{new_manager, register}
use game_production.Gateway.Adapters.{handle_web_socket}
use game_production.Rpc.Client.{get_lb_conn, get_service_addrs}
use game_production.Rpc.Tests.{start, registry}
use game_production.Rpc.Client.{Net, Registry}
use game_production.Rpc.Calls.{
  Remote, WalletRsp, user_validate_token, wallet_place_bet, wallet_bet_req,
}
use game_production.Rpc.Trust.{Went, Served, validated_user, wallet_bet_answered, connected_signed}

abbrev float : Float64 ℕ
float = record { of_int64 = λ n. n; to_int64 = λ x. x; add = add64; exact = λ n small. refl }

abbrev db : Database ℕ
db = record {
  insert_user = λ u s. (ok 1, s);
  user_by_id = λ id s. not_found;
  user_by_username = λ name s. not_found;
  user_by_email = λ email s. not_found;
  set_last_login = λ user now s. (ok tt, s);
  count_username = λ name s. ok 0;
  count_email = λ email s. ok 0;
  insert_session = λ x s. (ok tt, s);
  session_by_id = λ id s. not_found;
  update_session = λ id token now s. (ok tt, s);
  delete_sessions_by_id = λ id s. (ok tt, s);
  delete_sessions_by_token = λ token s. (ok tt, s);
  delete_sessions_before = λ now s. (ok tt, s);
  delete_sessions_by_user = λ user s. (ok tt, s);
}

abbrev read_with : Result String → Result (Token ℕ)
read_with (err e) = err e
read_with (ok secret) =
    if secret == "secret"
    then ok (record {
      valid = true;
      claims = some (("user_id", number 7) ∷ ("username", text "ann") ∷ ("exp", number 99) ∷ []);
    })
    else err (failure "bad signature")

abbrev lib : Libraries ℕ ℕ
lib = record {
  hash = λ password. ok password;
  matches = λ hashed password. hashed == password;
  sign = λ secret claims. err (failure "no signing here");
  parse =
      λ key now token. if token == "ticket" then read_with (key hmac) else err (failure "no token");
  random_hex = λ s. (ok "fresh", s);
  now = λ s. 0;
}

abbrev uc : UserUseCase
uc = record { jwt_secret = "secret"; token_duration = 9 }

abbrev SignedBy : String → String → Type 0
SignedBy secret token = (secret ≡ "secret") × (token ≡ "ticket")

lib-ChecksSignature : ChecksSignature float lib (λ token. hmac) SignedBy
lib-ChecksSignature = record {
  read_signed = λ key now token t e. go key now token t e (key hmac) refl;
}
  where
    go :
        (key : Method → Result String) (now : ℕ) (token : String) (t : Token ℕ)
        → lib.parse key now token ≡ ok t
        → (k : Result String) → key hmac ≡ k
        → (secret : String) × (key hmac ≡ ok secret) × SignedBy secret token
    go key now token t e (ok secret) keyed = (
      secret,
      keyed,
      (
        ground (arith, e, keyed, eq_iff secret "secret"),
        ground (arith, e, keyed, eq_iff token "ticket"),
      ),
    )
    go key now token t e (err x) keyed = absurd (ground (arith, e, keyed))

abbrev answer_of : Option ValidateTokenRsp → ℕ → Result ValidateTokenRsp × ℕ
answer_of (some rsp) s = (ok rsp, suc s)
answer_of none s = (err (failure "crashed"), s)

abbrev remote : Remote ℕ
remote = record {
  get_balance = λ c user s. (err (failure "not here"), s);
  withdraw = λ c req s. (err (failure "not here"), s);
  deposit = λ c req s. (err (failure "not here"), s);
  wallet_bet = λ c req s. (ok (record { new_balance = 80; success = true; message = "" }), suc s);
  validate_token = λ c token s. answer_of (grpc_validate_token float lib db uc 0 token) s;
  record_bet = λ c req s. (err (failure "not here"), s);
  get_current_round = λ c user s. (err (failure "not here"), s);
  place_bet = λ c user color amount s. (err (failure "not here"), s);
  get_state = λ c user s. (err (failure "not here"), s);
  round_result = λ c round color s. (err (failure "not here"), s);
  unix_nano = λ s. s;
  decimal = λ n. "7";
}

remote-Served : Served remote float lib db uc
remote-Served c token s s' rsp e = (0, go (grpc_validate_token float lib db uc 0 token) refl)
  where
    go :
        (r : Option ValidateTokenRsp)
        → grpc_validate_token float lib db uc 0 token ≡ r
        → grpc_validate_token float lib db uc 0 token ≡ some rsp
    go none same = absurd (ground (arith, e, same))
    go (some q) same = ground (arith, e, same)

-- A registry of one instance of every service.
abbrev everywhere : Registry ℕ
everywhere = record registry { get_services = λ name n. (ok ("a:1" ∷ []), suc n) }

abbrev after_bet : Net ℕ String
unfolding wallet_place_bet
after_bet = (wallet_place_bet everywhere remote 3 7 20 "R1" start).1

wallet_bet_answered_test :
    (rsp : WalletRsp) × (rsp.success ≡ true)
    × (rsp.new_balance ≡ 80)
    × Went everywhere remote 3 "wallet-service"
        (λ c. remote.wallet_bet c (wallet_bet_req remote 7 20 "R1"))
        start
        rsp
        after_bet
unfolding wallet_place_bet after_bet start get_lb_conn get_service_addrs lookup
wallet_bet_answered_test = wallet_bet_answered everywhere remote 3 7 20 "R1" start after_bet 80 refl

abbrev after_upgrade : Net ℕ String
unfolding user_validate_token
after_upgrade = (validated_user everywhere remote 3 "ticket" start).1

connected_signed_example :
    (hmac ≡ hmac)
    × SignedBy "secret" "ticket"
    × ((now : ℕ) × (a : TokenAnswer) × (validate_token float lib db uc now "ticket" ≡ some (ok a))
        × (a.user_id ≡ 7))
unfolding user_validate_token after_upgrade start get_lb_conn get_service_addrs lookup
    handle_web_socket grpc_validate_token validate_token key_for
connected_signed_example =
    connected_signed everywhere remote float lib db uc (λ token. hmac) SignedBy 3 "ticket" true
      start after_upgrade new_manager (register 7 new_manager) 7 remote-Served lib-ChecksSignature
      refl
