-- ===== src/Rpc/Trust.antt =====
-- What the gateway's user client, pkg/grpc_client/base/user.go, answers where the services are those of
-- internal/modules/user.
use game_production.Common.{
  ℕ, String, string_key, Bool, true, Option, none, some, Result, ok, err, Exec, ◌≡◌, refl, arith,
}
use game_production.Clock.{Time}
use game_production.Float.{Float64}
use game_production.User.Defs.{Database}
use game_production.User.Accounts.{
  Method, hmac, Libraries, UserUseCase, TokenAnswer, validate_token,
}
use game_production.User.Documented.{ChecksSignature}
use game_production.User.Tokens.{validated_token_signed}
use game_production.User.Handlers.{ValidateTokenRsp, grpc_validate_token}
use game_production.Gateway.Connections.{Manager}
use game_production.Gateway.Adapters.{connected, handle_web_socket}
use game_production.Gateway.Frames.{connected_validated}
use game_production.Rpc.Client.{Conn, Registry, Net, get_lb_conn}
use game_production.Rpc.Calls.{
  Remote, call_wrapped, user_validate_token, token_answer, WalletRsp, wallet_place_bet,
  wallet_bet_req,
}

module _ {S F D : Type 0} (remote : Remote S) (float : Float64 F) (lib : Libraries F D)
    (db : Database D) (uc : UserUseCase) where
  -- What answers at the connections is the gRPC handler of the user module.
  abbrev pub Served : Type 0
  Served =
      (c : Conn) (token : String) (s s' : S) (rsp : ValidateTokenRsp)
      → remote.validate_token c token s ≡ (ok rsp, s')
      → (now : Time) × (grpc_validate_token float lib db uc now token ≡ some rsp)

module _ {F D : Type 0} (float : Float64 F) (lib : Libraries F D) (db : Database D)
    (uc : UserUseCase) where
  handler-ok :
      (now : Time) (token : String) (rsp : ValidateTokenRsp)
      → grpc_validate_token float lib db uc now token ≡ some rsp
      → rsp.valid ≡ true
      → validate_token float lib db uc now token ≡ some (ok (token_answer rsp.answer))
  unfolding grpc_validate_token token_answer
  handler-ok now token rsp e valid = go (validate_token float lib db uc now token) refl
    where
      go :
          (r : Option (Result TokenAnswer))
          → validate_token float lib db uc now token ≡ r
          → validate_token float lib db uc now token ≡ some (ok (token_answer rsp.answer))
      go none v = absurd (ground (arith, e, v))
      go (some (err x)) v = absurd (ground (arith, e, v, valid))
      go (some (ok a)) v = ground (arith, e, v)

module _ {S T : Type 0} (registry : Registry S) (remote : Remote S) where
  -- A call that was answered went through this connection, in this state of the outside.
  pub record Went {A : Type 0} (pick : ℕ) (service : String) (rpc : Conn → Exec S A) (n : Net S T)
      (a : A) (n' : Net S T) : Type 0 where
    pub conn : Conn
    pub before : Net S T
    pub found : get_lb_conn registry pick service n ≡ (ok conn, before)
    pub answered : rpc conn before.outside ≡ (ok a, n'.outside)

  call_wrapped-Went :
      {A : Type 0} (pick : ℕ) (service text : String) (rpc : Conn → Exec S A) (n n' : Net S T)
      (a : A)
      → call_wrapped registry remote pick service text rpc n ≡ (ok a, n')
      → Went pick service rpc n a n'
  unfolding call_wrapped
  call_wrapped-Went {A} pick service text rpc n n' a e =
      go (get_lb_conn registry pick service n) refl
    where
      rpc_answered :
          (c : Conn) (m : Net S T)
          → get_lb_conn registry pick service n ≡ (ok c, m)
          → (r : Result A × S) → rpc c m.outside ≡ r
          → rpc c m.outside ≡ (ok a, n'.outside)
      rpc_answered c m found (ok b, s) same = ground (arith, e, found, same)
      rpc_answered c m found (err x, s) same = absurd (ground (arith, e, found, same))

      go :
          (r : Result Conn × Net S T)
          → get_lb_conn registry pick service n ≡ r
          → Went pick service rpc n a n'
      go (ok c, m) found = record {
        conn = c;
        before = m;
        found = found;
        answered = rpc_answered c m found _ refl;
      }
      go (err x, m) found = absurd (ground (arith, e, found))

  client-Went :
      (pick : ℕ) (token : String) (n n' : Net S T) (a : TokenAnswer)
      → user_validate_token registry remote pick token n ≡ (ok a, n')
      → (rsp : ValidateTokenRsp) × (rsp.valid ≡ true)
        × (token_answer rsp.answer ≡ a)
        × Went pick "user-service" (λ c. remote.validate_token c token) n rsp n'
  unfolding user_validate_token
  client-Went pick token n n' a e = go _ refl
    where
      rpc : Conn → Exec S ValidateTokenRsp
      rpc c = remote.validate_token c token

      go :
          (r : Result ValidateTokenRsp × Net S T)
          → call_wrapped registry remote pick "user-service" "rpc ValidateToken failed" rpc n ≡ r
          → (rsp : ValidateTokenRsp) × (rsp.valid ≡ true)
            × (token_answer rsp.answer ≡ a)
            × Went pick "user-service" rpc n rsp n'
      go (ok rsp, m) called = (
        rsp,
        ground (arith, e, called),
        ground (arith, e, called),
        call_wrapped-Went pick "user-service" "rpc ValidateToken failed" rpc n n' rsp
            (ground (arith, e, called)),
      )
      go (err x, m) called = absurd (ground (arith, e, called))

  -- A bet that the wallet's client answers with a balance was sent, as one request with the player, the
  -- amount and the round, through a connection to an instance of the wallet service, which answered it
  -- with success and with that balance.
  pub wallet_bet_answered :
      (pick user amount : ℕ) (round : String) (n n' : Net S T) (balance : ℕ)
      → wallet_place_bet registry remote pick user amount round n ≡ (ok balance, n')
      → (rsp : WalletRsp) × (rsp.success ≡ true)
        × (rsp.new_balance ≡ balance)
        × Went pick "wallet-service"
            (λ c. remote.wallet_bet c (wallet_bet_req remote user amount round))
            n
            rsp
            n'
  unfolding wallet_place_bet
  wallet_bet_answered pick user amount round n n' balance e = go _ refl
    where
      rpc : Conn → Exec S WalletRsp
      rpc c = remote.wallet_bet c (wallet_bet_req remote user amount round)

      go :
          (r : Result WalletRsp × Net S T)
          → call_wrapped registry remote pick "wallet-service" "rpc PlaceBet failed" rpc n ≡ r
          → (rsp : WalletRsp) × (rsp.success ≡ true)
            × (rsp.new_balance ≡ balance)
            × Went pick "wallet-service" rpc n rsp n'
      go (ok rsp, m) called = (
        rsp,
        ground (arith, e, called),
        ground (arith, e, called),
        call_wrapped-Went pick "wallet-service" "rpc PlaceBet failed" rpc n n' rsp
            (ground (arith, e, called)),
      )
      go (err x, m) called = absurd (ground (arith, e, called))

  -- The user service that the gateway validates tokens with: the user's ID, or an error.
  abbrev pub validated_user : ℕ → String → Exec (Net S T) ℕ
  validated_user pick token n =
      let (r, n') = user_validate_token registry remote pick token n in
      elim r [ ok a ↦ (ok a.user_id, n') | err e ↦ (err e, n') ]

  module _ {F D : Type 0} (float : Float64 F) (lib : Libraries F D) (db : Database D)
      (uc : UserUseCase) where
    -- Where the user services behind the gateway are those of the user module and JWT checks signatures, a
    -- player who gets a connection has a token of an HMAC method that is signed with the user
    -- service's secret, and the connection is that of the user whom ValidateToken reads in it.
    pub connected_signed :
        (method_of : String → Method) (signed_by : String → String → Type 0) (pick : ℕ)
        (token : String) (upgrades : Bool) (n n' : Net S T) (m m' : Manager) (user : ℕ)
        → Served remote float lib db uc
        → ChecksSignature float lib method_of signed_by
        → handle_web_socket (validated_user pick) token upgrades (n, m) ≡ (connected user, (n', m'))
        → (method_of token ≡ hmac)
          × signed_by uc.jwt_secret token
          × ((now : Time) × (a : TokenAnswer) × (validate_token float lib db uc now token
                ≡ some (ok a))
              × (a.user_id ≡ user))
    connected_signed method_of signed_by pick token upgrades n n' m m' user served checks e =
        let v = connected_validated (validated_user pick) token upgrades n n' m m' user e in
        go _ refl v.1
      where
        go :
            (r : Result TokenAnswer × Net S T)
            → user_validate_token registry remote pick token n ≡ r
            → (validated_user pick token n).0 ≡ ok user
            → (method_of token ≡ hmac)
              × signed_by uc.jwt_secret token
              × ((now : Time) × (a : TokenAnswer) × (validate_token float lib db uc now token
                    ≡ some (ok a))
                  × (a.user_id ≡ user))
        go (err x, k) called same = absurd (ground (arith, called, same))
        go (ok a, k) called same =
            let (rsp, valid, answer, w) = client-Went pick token n k a called in
            let (now, g) = served w.conn token w.before.outside k.outside rsp w.answered in
            let read = handler-ok float lib db uc now token rsp g valid in
            let (h, signed) =
              validated_token_signed float lib db uc method_of signed_by now token
                (token_answer rsp.answer) checks read in
            (h, signed, (now, token_answer rsp.answer, read, ground (arith, called, same, answer)))
