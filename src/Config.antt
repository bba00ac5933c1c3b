-- ===== src/Config.antt =====
-- The configuration of the programs: internal/config. The environment and strconv.Atoi are parameters.
mod Tests
use game_production.Common.{ℕ, ◌*◌, String, Option, none, some, or_else, ◌≡◌, refl}
use game_production.Clock.{second}

-- os.LookupEnv
abbrev pub Env : Type 0
Env = String → Option String

pub record ServerConfig : Type 0 where
  pub port : String
  pub http_port : String
  pub name : String
  pub log_level : String

pub record DatabaseConfig : Type 0 where
  pub host : String
  pub port : String
  pub user : String
  pub password : String
  pub name : String

pub record RedisConfig : Type 0 where
  pub host : String
  pub port : String

pub record NacosConfig : Type 0 where
  pub host : String
  pub port : String
  pub namespace_id : String
  pub group : String

pub record JwtConfig : Type 0 where
  pub secret : String
  pub duration : ℕ

pub record WebSocketConfig : Type 0 where
  pub ping_interval : ℕ
  pub write_wait : ℕ
  pub pong_wait : ℕ
  pub max_message_size : ℕ

pub record GatewayConfig : Type 0 where
  pub server : ServerConfig
  pub web_socket : WebSocketConfig
  pub redis : RedisConfig
  pub nacos : NacosConfig

pub record ColorGameConfig : Type 0 where
  pub server : ServerConfig
  pub redis : RedisConfig
  pub database : DatabaseConfig
  pub nacos : NacosConfig
  pub repo_type : String
  pub max_players_per_room : ℕ  -- the one field of GameSettings

pub record UserConfig : Type 0 where
  pub server : ServerConfig
  pub database : DatabaseConfig
  pub redis : RedisConfig
  pub jwt : JwtConfig
  pub nacos : NacosConfig

pub record MonolithConfig : Type 0 where
  pub user : UserConfig
  pub color_game : ColorGameConfig
  pub gateway : GatewayConfig

abbrev hour : ℕ
hour = 3600 * second

module _ (env : Env) where
  unfoldable pub get_env : String → String → String
  get_env key fallback = or_else (env key) fallback

  -- `atoi` is strconv.Atoi, which answers the pattern of an int; a text that is no number counts as not set.
  unfoldable pub get_env_int : (String → Option ℕ) → String → ℕ → ℕ
  get_env_int atoi key fallback = elim (env key) [
    | none ↦ fallback
    | some value ↦ or_else (atoi value) fallback
  ]

  redis_config : RedisConfig
  unfolding get_env
  redis_config = record {
    host = get_env "REDIS_HOST" "localhost";
    port = get_env "REDIS_PORT" "6379";
  }

  nacos_config : NacosConfig
  unfolding get_env
  nacos_config = record {
    host = get_env "NACOS_HOST" "localhost";
    port = get_env "NACOS_PORT" "8848";
    namespace_id = get_env "NACOS_NAMESPACE" "public";
    group = get_env "NACOS_GROUP" "DEFAULT_GROUP";
  }

  db_config : DatabaseConfig
  unfolding get_env
  db_config = record {
    host = get_env "DB_HOST" "localhost";
    port = get_env "DB_PORT" "5432";
    user = get_env "DB_USER" "casino_user";
    password = get_env "DB_PASSWORD" "casino_pass";
    name = get_env "DB_NAME" "casino_db";
  }

  unfoldable pub load_gateway_config : GatewayConfig
  unfolding redis_config nacos_config get_env
  load_gateway_config = record {
    server = record {
      port = get_env "GATEWAY_PORT" "8081";
      http_port = "";
      name = "gateway-service";
      log_level = "";
    };
    web_socket = record {
      ping_interval = 54 * second;
      write_wait = 10 * second;
      pong_wait = 60 * second;
      max_message_size = 512;
    };
    redis = redis_config;
    nacos = nacos_config;
  }

  unfoldable pub load_color_game_config : (String → Option ℕ) → ColorGameConfig
  unfolding redis_config nacos_config db_config get_env get_env_int
  load_color_game_config atoi = record {
    server = record {
      port = get_env "GAME_SERVER_PORT" "50052";
      http_port = "";
      name = "game-service";
      log_level = "";
    };
    redis = redis_config;
    database = db_config;
    nacos = nacos_config;
    repo_type = get_env "COLORGAME_REPO_TYPE" "memory";
    max_players_per_room = get_env_int atoi "GAME_MAX_PLAYERS" 100;
  }

  unfoldable pub load_user_config : UserConfig
  unfolding redis_config nacos_config db_config get_env
  load_user_config = record {
    server = record {
      port = get_env "AUTH_SERVER_PORT" "50051";
      http_port = get_env "AUTH_HTTP_PORT" "8082";
      name = "user-service";
      log_level = get_env "LOG_LEVEL" "info";
    };
    database = db_config;
    redis = redis_config;
    jwt = record { secret = get_env "JWT_SECRET" "dev-secret-key"; duration = 24 * hour };
    nacos = nacos_config;
  }

  -- The port of the gateway is read a second time.
  unfoldable pub load_monolith_config : (String → Option ℕ) → MonolithConfig
  unfolding load_user_config load_color_game_config load_gateway_config get_env
  load_monolith_config atoi = record {
    user = load_user_config;
    color_game = load_color_game_config atoi;
    gateway = record load_gateway_config {
      server = record (load_gateway_config.server) { port = get_env "GATEWAY_PORT" "8081" };
    };
  }

  -- The monolith runs on the configuration that the services load one by one, and all its parts share one
  -- Redis, one Nacos and one database.
  pub monolith_config_agrees :
      (atoi : String → Option ℕ)
      → (load_monolith_config atoi ≡ record {
        user = load_user_config;
        color_game = load_color_game_config atoi;
        gateway = load_gateway_config;
      })
        × (load_user_config.redis ≡ (load_color_game_config atoi).redis)
        × (load_user_config.redis ≡ load_gateway_config.redis)
        × (load_user_config.nacos ≡ (load_color_game_config atoi).nacos)
        × (load_user_config.nacos ≡ load_gateway_config.nacos)
        × (load_user_config.database ≡ (load_color_game_config atoi).database)
  unfolding load_monolith_config load_gateway_config load_user_config load_color_game_config
  monolith_config_agrees atoi = (refl, refl, refl, refl, refl, refl)

  -- Without the variable JWT_SECRET every token is signed with a secret that stands in the source.
  pub secret_of_source : env "JWT_SECRET" ≡ none → load_user_config.jwt.secret ≡ "dev-secret-key"
  unfolding load_user_config get_env
  secret_of_source unset = rw unset refl
