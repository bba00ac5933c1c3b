-- ===== src/Ops/Tests/Console.antt =====
-- Tests of the console's projects and calls: a project whose services answer nothing but a wallet.
use game_production.Common.{
  ℕ, suc, String, string_key, true, none, [], ◌∷◌, lookup, insert, ok, err, failure, Exec, ◌≡◌,
  refl,
}
use game_production.Rpc.Calls.{Remote, wallet_get_balance}
use game_production.Rpc.Nacos.{NamingClient, get_services}
use game_production.Ops.Console.{
  Console, Outside, Payloads, CallBody, Env, init_projects, handle_generic_call,
  get_project_context, method_registry, on_client,
}
use game_production.Ops.Console.Isolation.{generic_call_isolated, refused_call_changes_nothing}

abbrev absent : {A : Type 0} → Exec ℕ A
absent s = (err (failure "not here"), s)

abbrev remote : Remote ℕ
remote = record {
  get_balance = λ c user s. (ok (record { new_balance = 70; success = true; message = "" }), suc s);
  withdraw = λ c req. absent;
  deposit = λ c req. absent;
  wallet_bet = λ c req. absent;
  validate_token = λ c token. absent;
  record_bet = λ c req. absent;
  get_current_round = λ c user. absent;
  place_bet = λ c user color amount. absent;
  get_state = λ c user. absent;
  round_result = λ c round color. absent;
  unix_nano = λ s. s;
  decimal = λ n. "7";
}

abbrev nacos : NamingClient ℕ
nacos = record {
  register_instance = λ service ip port metadata. absent;
  deregister_instance = λ service ip port. absent;
  select_one_healthy = λ service. absent;
  select_instances = λ service s.
      (ok (record { ip = "10.0.0.2"; port = 1; enable = true; healthy = true } ∷ []), suc s);
  subscribe = λ service s. (ok tt, suc s);
  services_info = λ page size s. (ok ("wallet-service" ∷ []), suc s);
  decimal = λ n. "1";
}

-- A body is the name of its project, and asks for the balance of user 7.
abbrev payloads : Payloads
payloads = record {
  bind_call = λ body. ok (record { project = body; method = "GetBalance"; payload = "" });
  token = λ p. err (failure "no token");
  user_of_balance = λ p. ok 7;
  add_balance = λ p. err (failure "no amount");
  user_of_round = λ p. ok 7;
  user_of_state = λ p. ok 7;
  broadcast = λ p. err (failure "no event");
}

abbrev outside : Outside ℕ String String
outside = record {
  new_nacos = λ config s. (ok tt, suc s);
  nacos = λ config. nacos;
  dial = λ addr s. (ok s, suc s);
  remote = remote;
  payloads = payloads;
  pack = λ round state. ok round;
  gateway_call = λ game p addr. addr;
}

abbrev no_env : Env
no_env key = none

abbrev console : Console ℕ String
unfolding init_projects
console = (init_projects outside no_env (record { projects = []; project_list = []; outside = 0 }))

refused_call_changes_nothing_test : (handle_generic_call outside 3 "poker" console).1 ≡ console
unfolding handle_generic_call get_project_context lookup console init_projects insert
refused_call_changes_nothing_test = refused_call_changes_nothing outside 3 "poker" console refl

abbrev color_game : CallBody
color_game = record { project = "color_game"; method = "GetBalance"; payload = "" }

generic_call_isolated_test :
    (lookup "poker" (handle_generic_call outside 3 "color_game" console).1.projects
      ≡ lookup "poker" console.projects)
    × ((handle_generic_call outside 3 "color_game" console).1.project_list ≡ console.project_list)
generic_call_isolated_test =
    generic_call_isolated outside "poker" 3 "color_game" color_game console refl refl

called_test : (handle_generic_call outside 3 "color_game" console).0.status ≡ 200
unfolding handle_generic_call get_project_context lookup console init_projects method_registry
    on_client insert wallet_get_balance get_services
called_test = refl
