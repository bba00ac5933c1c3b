-- ===== src/Lib.antt =====
-- The colour game: a game management service (GMS) runs rounds, game servers (GS) take bets on them
-- and settle them, a wallet holds the balances, a gateway passes messages to the players,
-- and a user service logs them in.
--
-- How the parts interact. The GMS's state machine opens a round, takes bets for it, draws a colour and
-- announces each phase as an event. The GMS's handler of events stores the round and asks the GS to
-- settle at RESULT. PlaceBet of the GS asks the GMS for the round, charges the wallet, has the GMS
-- count the bet and files it in its repository; SettleRound pops what was filed, stores orders in the
-- database, pays wins into the wallet and tells the players through the gateway.
--
-- Which file models what:
--   Common           results with errors, int64 patterns, lists and maps that the others share
--   Proto            enumerations of shared/proto/colorgame and shared/proto/common
--   Clock, Float     Go's time and float64 (the latter a parameter)
--   Round            internal/modules/color_game/gms/domain/round.go
--   Pool             the job queue of emitEvent and startWorkers in gms/machine/state_machine.go
--   Machine          internal/modules/color_game/gms/machine/state_machine.go: Defs has the state and
--                    the stretches of Start and runRound between two sleeps (`segment`), System the
--                    goroutines around it (`act`, `run`), Shutdown GracefulShutdown
--   Gms              internal/modules/color_game/gms/usecase/gms_uc.go, gms/adapter/local/handler.go
--                    and gms/adapter/grpc/handler.go; Rounds has the table of rounds,
--                    gms/domain/game_round.go and gms/repository/db/game_round_repo.go
--   Bets, MemoryRepo internal/modules/color_game/gs/domain/bet.go, bet_order.go and
--                    gs/repository/memory/bet_repo.go
--   RedisRepo        internal/modules/color_game/gs/repository/redis/bet_repo.go; Documented says what it
--                    expects of Redis
--   Wallet           internal/modules/wallet/mock.go
--   Gs               internal/modules/color_game/gs/usecase/gs_uc.go over the interfaces of
--                    pkg/service (`Services`), whatever implements them
--   World            a whole game server: Gs wired to MemoryRepo, Wallet and Gms as
--                    cmd/color_game/monolith/main.go does (`local`), or with the GMS behind its gRPC
--                    adapter (`grpc`); Ledger is the abstract view of a round
--   Gateway          internal/modules/gateway: Connections has ws/manager.go, Sessions the goroutines that
--                    use it, Requests usecase/gateway_uc.go and gateway_color_game_uc.go; Wagers
--                    puts the requests before a whole game server;
--                    Adapters and Frames have its adapter/local, adapter/grpc and adapter/http
--   User             internal/modules/user: Defs has domain/user.go and repository, Accounts has
--                    usecase/user_uc.go, Handlers the adapters; Documented says what the use case
--                    expects of SQL, bcrypt and JWT
--   Logs             pkg/logger: Logs itself has smart_writer.go, Requests logger.go, middleware.go,
--                    request_id.go and gorm_adapter.go
--   Rpc              pkg/grpc_client: Client has base/client.go and the fan-out of base/gateway.go,
--                    Calls base/wallet.go, base/user.go and color_game/client.go, Profiles the
--                    collection of performance data; Trust puts the user module behind the gateway;
--                    Nacos has pkg/discovery
--   Admin            pkg/admin/server.go, the collection of profiles that each service answers; Delivered
--                    puts the client of Rpc/Profiles at the other end of its stream
--   Ops              cmd/ops/main.go: Sessions the viewers of recorded profiles, Folders their names,
--                    Recordings the recording and the history, Viewers the deletion and the proxy,
--                    Console the projects and the calls of services
--   Config           internal/config
--   Startup          the mains of cmd/color_game/microservices and cmd/color_game/monolith, as far as
--                    they register with Nacos and shut down, and pkg/netutil
--   Robot            cmd/color_game/test_robot/main.go: Robot its logins, Bets its bets, which it sends
--                    to the handler of Gateway/Requests
--   Gs/Adapters      internal/modules/color_game/gs/adapter/local/handler.go and grpc/handler.go
--
-- State is passed explicitly: a call that may fail is an `Exec`, which answers a value or an error and
-- the state, and what was written before an error stays. Pointers to bets are positions in a heap.
-- An int64 is its two's complement pattern, a number below 2 ^ 64, and its operators wrap; durations
-- and times are nanoseconds. One call of the GS is one step: calls do not interleave in World, while
-- the state machine, the job queue and the connections of the gateway are run under every order of actions.
--
-- Fuel: `settle_round` counts the turns of the loop of SettleRound, of which two are enough for the
-- memory repository, since it pops the whole queue at once. Every other loop is structural.
--
-- Not modelled: the log lines, the mutexes (each method is one step), the expiry of keys in Redis, panic
-- recovery in the workers, and the parts that only pass data between libraries: the making
-- of clients and servers in the mains, routes and static files, the set-up of zerolog, generated protocol
-- code. The database, Redis, Nacos, bcrypt, JWT, the snowflake node, bufio, JSON, time.Format, processes, the
-- profilers of the Go runtime and the random numbers are parameters. World has the memory repository only;
-- RedisRepo stands beside it. In its gRPC deployment each call reaches the GMS: the errors of the
-- connection are in Rpc only.
pub mod Common
pub mod Proto
pub mod Clock
pub mod Round
pub mod Pool
pub mod Machine
pub mod Wallet
pub mod Float
pub mod Bets
pub mod MemoryRepo
pub mod RedisRepo
pub mod Gs
pub mod Gms
pub mod World
pub mod Gateway
pub mod User
pub mod Logs
pub mod Rpc
pub mod Admin
pub mod Ops
pub mod Config
pub mod Startup
pub mod Robot
