-- ===== src/Lib.antt =====
-- Verification of goph_keeper, a password keeper: a server that keeps encrypted secrets for its
-- users, and a client that keeps a local copy and synchronises it.
--
-- The server. `Models` has the records of internal/models. `Database` and `Database.Rows` are what
-- the stores see of database/sql: each statement meets a `Reply` with the error of each stage, and
-- an environment gives the replies, the clock and the random bytes as streams with counters.
-- `Repository.Secrets` has the table `secrets` (migrations) and each SQL statement as a function
-- on it; `Repository.PostgresSecrets` the methods of internal/repository/postgres_secret_store.go;
-- `Repository.Memory` and `Repository.PostgresUsers` the two stores of users, against the contract
-- of `Repository.Users`. `Service.Secrets` and `Service.Sync` are internal/service over any store
-- of secrets, and `Service.Postgres` puts them on Postgres. `Auth` and `Auth.Tokens` are
-- internal/auth, over any store of users. `Handlers` and `Handlers.Accounts` are the handlers of
-- internal/handlers, on the requests, answers and middleware of `Handlers.Replies`: functions from
-- a request, whose body and query are given as decoded, to an answer and a state, and
-- `Handlers.Router` is the routes of router.go under /api, on the Postgres stores. `Config` with
-- `Config.Files`, `Config.Load` and `Config.Validate` is internal/config, for server and client;
-- `Storage` is internal/storage, which opens Postgres and migrates it; `Server` is
-- cmd/server/main.go, which puts these together.
--
-- The client. `Client.Device` is its data directory. `Client.LocalRows` has the table
-- `secrets_local` and its statements, `Client.LocalStore` the methods of
-- internal/client/store/local_store.go, `Client.SyncStore`, `Client.TokenStore` and
-- `Client.ParseMeta` the other files of that package, `Client.Crypto` internal/client/crypto,
-- `Client.Service` and `Client.Sync` internal/client/service, over the interface `Client.Api`, and
-- `Client.Http` with `Client.Http.Calls` and `Client.Http.Construct` internal/client/api, over any
-- transport. `Client.Ui` is internal/client/ui: each handler of the menu and the forms as a step on
-- the state that they share. `Client.Commands` is cmd/client/main.go, with the package flag of
-- `Client.Flags` and the opening of the local store in `Client.Commands.Store`; the text of
-- internal/version is `Client.Commands.Main.build_info`. A run works in one of the directories of a
-- machine, the one that its configuration names.
--
-- `Exchange` joins the two sides: a transport that carries the requests of the HTTP client through
-- the router to the handlers, and their answers back.
--
-- Go's (value, error) results are `Outcome`, methods are functions from a state to an outcome and
-- a state (`Run`), and errors keep their wrapping, so that errors.Is is a function on them. A time
-- is a number of nanoseconds since year 1 in UTC. Postgres keeps microseconds, and the local files
-- keep seconds as RFC 3339 texts. Times past the year 9999 are left out: of these the texts compare
-- otherwise, and `time.Parse` refuses what `Format` writes. Loops
-- run over lists, and the loop of retries over the attempts that are left, 10 at the start. Only
-- the decimal digits of an `int` take fuel: 19, the most that 64 bits need.
--
-- Parameters. bcrypt, the JWT library, AES-GCM with scrypt and the table of unicode.ToLower are
-- records of functions with the laws that the code relies on: a hash matches its password, a token
-- that was signed parses until it expires, and what was sealed opens. A failing statement or file
-- operation changes nothing, and each method is one step: Postgres statements are atomic and the
-- mutex of the memory store is held. The two requests that Sync makes at the same time run in
-- either order.
--
-- The JSON and YAML parsers of configurations, the certificates' parser, the Postgres driver and the
-- library of migrations are parameters without laws: each may fail at any call.
--
-- Not modelled: the logging and compressing middleware, /swagger, and JSON, which are libraries';
-- drawing in the terminal, and handlers of the interface that start while a goroutine of another
-- still runs; the timeouts of contexts and the limits of connection pools; the parsing of the
-- server's flags, of which the values are given. The commands and the interface take the API client
-- as the interface `Client.Api`, so that the service and the HTTP client meet only there.
pub mod Base
pub mod Models
pub mod Config
pub mod Database
pub mod Repository
pub mod Service
pub mod Auth
pub mod Handlers
pub mod Exchange
pub mod Storage
pub mod Server
pub mod Client
pub mod Tests
