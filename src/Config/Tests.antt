-- ===== src/Config/Tests.antt =====
-- Tests of the configuration.
use game_production.Common.{string_key, ◌==◌, none, some, ◌≡◌, refl, if◌then◌else◌}
use game_production.Config.{Env, load_monolith_config, load_user_config, secret_of_source}

abbrev only_port : Env
only_port key = if key == "GATEWAY_PORT" then some "9000" else none

gateway_port_test : (load_monolith_config only_port (λ s. none)).gateway.server.port ≡ "9000"
unfolding load_monolith_config
gateway_port_test = refl

secret_of_source_test : (load_user_config only_port).jwt.secret ≡ "dev-secret-key"
secret_of_source_test = secret_of_source only_port refl
