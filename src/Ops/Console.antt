-- ===== src/Ops/Console.antt =====
-- The console's projects and its calls of services: initProjects, getProjectContext, handleListServices,
-- handleGenericCall and initRegistry of cmd/ops/main.go. The environment, Nacos, grpc.Dial, the reading
-- of JSON and anypb are parameters; the deadline of a call is left out.
pub mod Isolation
use game_production.Common.{
  ℕ, String, string_key, Bool, Option, none, some, List, [], ◌∷◌, ◌++◌, Dict, lookup, insert,
  or_else, length, Error, failure, about, wrapped, Result, ok, err, Exec, ◌>>=◌, ◌>>◌, pure, fail,
  ◌==◌, if◌then◌else◌,
}
use game_production.Proto.{GameState, betting}
use game_production.Gs.{GetStateRsp}
use game_production.Gs.Services.{RoundRsp}
use game_production.User.Accounts.{TokenAnswer}
use game_production.Rpc.Client.{Conn, BaseClient, Registry, Net, new_base_client, fan_out}
use game_production.Rpc.Calls.{
  Remote, user_validate_token, wallet_get_balance, wallet_add_balance, gms_get_current_round,
  gs_get_state,
}
use game_production.Rpc.Nacos.{NamingClient, nacos_registry, get_services, get_all_services_list}

pub record ProjectConfig : Type 0 where
  pub id : String
  pub name : String
  pub nacos_host : String
  pub nacos_port : String
  pub namespace : String

-- The registry of a project is the Nacos of its configuration.
pub record ProjectContext (T : Type 0) : Type 0 where
  pub config : ProjectConfig
  pub client : BaseClient T

pub record Console (S T : Type 0) : Type 0 where
  pub projects : Dict String (ProjectContext T)
  pub project_list : List ProjectConfig
  pub outside : S

-- os.LookupEnv
abbrev pub Env : Type 0
Env = String → Option String

unfoldable pub get_env : Env → String → String → String
get_env env key fallback = or_else (env key) fallback

-- The fields of a TestBroadcast; `state` is read and not used.
pub record BroadcastReq : Type 0 where
  pub game_code : String
  pub round_id : String
  pub state : String

pub record AddBalanceReq : Type 0 where
  pub user_id : ℕ
  pub amount : ℕ
  pub reason : String

pub record CallBody : Type 0 where
  pub project : String
  pub method : String
  pub payload : String

-- json.Unmarshal of each method's payload, and BindJSON of the request.
pub record Payloads : Type 0 where
  pub bind_call : String → Result CallBody
  pub token : String → Result String
  pub user_of_balance : String → Result ℕ
  pub add_balance : String → Result AddBalanceReq
  pub user_of_round : String → Result ℕ
  pub user_of_state : String → Result ℕ
  pub broadcast : String → Result BroadcastReq

pub data Answer : Type 0 where
  token_valid : TokenAnswer → Answer
  balance new_balance : ℕ → Answer
  current_round : RoundRsp → Answer
  game_state : GetStateRsp → Answer
  broadcast_sent : (game_code round_id : String) → Answer

pub record ServiceInfo : Type 0 where
  pub name : String
  pub instances : List String
  pub count : ℕ

pub data Reply : Type 0 where
  error_reply : Error → Reply
  answer : Answer → Reply
  services : List ServiceInfo → Reply

pub record Response : Type 0 where
  pub status : ℕ
  pub reply : Reply

abbrev response : ℕ → Reply → Response
response status reply = record { status = status; reply = reply }

-- What is given from outside: Nacos by configuration, grpc.Dial, the services, the reading of JSON,
-- anypb.New of a round's state and the call of a gateway; `pick` is the random number of a call.
pub record Outside (S T P : Type 0) : Type 0 where
  pub new_nacos : ProjectConfig → Exec S (Unit {0})
  pub nacos : ProjectConfig → NamingClient S
  pub dial : String → Exec S Conn
  pub remote : Remote S
  pub payloads : Payloads
  pub pack : String → GameState → Result P
  pub gateway_call : String → P → String → T

module _ {S T P : Type 0} (o : Outside S T P) where
  abbrev pub registry_of : ProjectConfig → Registry S
  registry_of config = nacos_registry (o.nacos config) o.dial

  add_project : ProjectConfig → Result (Unit {0}) × S → Console S T → Console S T
  unfolding new_base_client
  add_project config (err e, s) c = record c { outside = s }
  add_project config (ok _, s) c = record {
    projects = insert config.id (record { config = config; client = new_base_client }) c.projects;
    project_list = c.project_list ++ config ∷ [];
    outside = s;
  }

  init_each : List ProjectConfig → Console S T → Console S T
  unfolding add_project
  init_each [] c = c
  init_each (config ∷ rest) c = init_each rest (add_project config (o.new_nacos config c.outside) c)

  configs : Env → List ProjectConfig
  unfolding get_env
  configs env =
      record {
        id = "color_game";
        name = "Color Game";
        nacos_host = get_env env "NACOS_HOST" "localhost";
        nacos_port = get_env env "NACOS_PORT" "8848";
        namespace = get_env env "NACOS_NAMESPACE" "public";
      }
      ∷ []

  unfoldable pub init_projects : Env → Console S T → Console S T
  unfolding init_each configs
  init_projects env c = init_each (configs env) c

  unfoldable pub get_project_context : String → Console S T → Result (ProjectContext T)
  get_project_context id c = elim (lookup id c.projects) [
    | none ↦ err (about "project not found" id)
    | some p ↦ ok p
  ]

  -- The loop over the services, where an error of the registry gives no addresses.
  addresses_or_none : Result (List String) → List String
  addresses_or_none (ok addrs) = addrs
  addresses_or_none (err e) = []

  service_infos : ProjectConfig → List String → S → List ServiceInfo × S
  unfolding addresses_or_none
  service_infos config [] s = ([], s)
  service_infos config (name ∷ names) s =
      let (r, s1) = get_services (o.nacos config) name s in
      let addrs = addresses_or_none r in
      let (infos, s2) = service_infos config names s1 in
      (record { name = name; instances = addrs; count = length addrs } ∷ infos, s2)

  first_id : List ProjectConfig → String
  first_id [] = ""
  first_id (config ∷ rest) = config.id

  list_found : ProjectConfig → Result (List String) × S → Response × S
  unfolding service_infos
  list_found config (err e, s) = (response 500 (error_reply e), s)
  list_found config (ok names, s) =
      let (infos, s') = service_infos config names s in (response 200 (services infos), s')

  list_of : Result (ProjectContext T) → Console S T → Response × Console S T
  unfolding list_found get_all_services_list
  list_of (err e) c = (response 400 (error_reply e), c)
  list_of (ok p) c =
      let (r, s) = list_found p.config (get_all_services_list (o.nacos p.config) c.outside) in
      (r, record c { outside = s })

  unfoldable pub handle_list_services : String → Console S T → Response × Console S T
  unfolding list_of get_project_context first_id
  handle_list_services project c =
      let id = if project == "" then first_id c.project_list else project in
      list_of (get_project_context id c) c

  -- A payload that cannot be read is an error of the call.
  read : {A : Type 0} → Result A → Exec (Net S T) A
  read (ok a) = pure a
  read (err e) = fail e

  read_wrapped : {A : Type 0} → Result A → Exec (Net S T) A
  read_wrapped (ok a) = pure a
  read_wrapped (err e) = fail (wrapped "invalid json" e)

  -- A broadcast is of the state BETTING, whatever the request says, and never fails.
  test_broadcast : Registry S → BroadcastReq → Exec (Net S T) Answer
  unfolding fan_out
  test_broadcast registry q n = (
    ok (broadcast_sent q.game_code q.round_id),
    fan_out registry (o.gateway_call q.game_code) (o.pack q.round_id betting) n,
  )

  -- The method registry, for the client of one project.
  unfoldable pub method_registry : ℕ → Registry S → Dict String (String → Exec (Net S T) Answer)
  unfolding read read_wrapped test_broadcast
  method_registry pick registry =
      (
        "ValidateToken",
        λ payload. do
          token ← read_wrapped (o.payloads.token payload)
          a ← user_validate_token registry o.remote pick token
          pure (token_valid a),
      )
      ∷ (
        "GetBalance",
        λ payload. do
          user ← read (o.payloads.user_of_balance payload)
          b ← wallet_get_balance registry o.remote pick user
          pure (balance b),
      )
      ∷ (
        "AddBalance",
        λ payload. do
          q ← read (o.payloads.add_balance payload)
          b ← wallet_add_balance registry o.remote pick q.user_id q.amount q.reason
          pure (new_balance b),
      )
      ∷ (
        "GetCurrentRound",
        λ payload. do
          user ← read (o.payloads.user_of_round payload)
          r ← gms_get_current_round registry o.remote pick user
          pure (current_round r),
      )
      ∷ (
        "GetState",
        λ payload. do
          user ← read (o.payloads.user_of_state payload)
          r ← gs_get_state registry o.remote pick user
          pure (game_state r),
      )
      ∷ (
        "TestBroadcast",
        λ payload. do q ← read (o.payloads.broadcast payload); test_broadcast registry q,
      )
      ∷ []

  -- What a call of a project's client leaves in it is kept under the project's key.
  unfoldable pub on_client :
      {A : Type 0} → String → ProjectContext T → Exec (Net S T) A → Exec (Console S T) A
  on_client id p m c =
      let (r, n) = m (record { client = p.client; outside = c.outside }) in
      (
        r,
        record c {
          projects = insert id (record p { client = n.client }) c.projects;
          outside = n.outside;
        },
      )

  call_answer : Result Answer × Console S T → Response × Console S T
  call_answer (ok a, c) = (response 200 (answer a), c)
  call_answer (err e, c) = (response 500 (error_reply e), c)

  call_method :
      CallBody
      → ProjectContext T
      → Option (String → Exec (Net S T) Answer)
      → Console S T
      → Response × Console S T
  unfolding call_answer on_client
  call_method q p none c = (response 400 (error_reply (about "Method not found" q.method)), c)
  call_method q p (some handler) c = call_answer (on_client q.project p (handler q.payload) c)

  call_project : ℕ → CallBody → Result (ProjectContext T) → Console S T → Response × Console S T
  unfolding call_method method_registry
  call_project pick q (err e) c = (response 400 (error_reply e), c)
  call_project pick q (ok p) c =
      call_method q p (lookup q.method (method_registry pick (registry_of p.config))) c

  call_bound : ℕ → Result CallBody → Console S T → Response × Console S T
  unfolding call_project get_project_context
  call_bound pick (err e) c = (response 400 (error_reply (failure "Invalid request format")), c)
  call_bound pick (ok q) c = call_project pick q (get_project_context q.project c) c

  unfoldable pub handle_generic_call : ℕ → String → Console S T → Response × Console S T
  unfolding call_bound
  handle_generic_call pick body c = call_bound pick (o.payloads.bind_call body) c
