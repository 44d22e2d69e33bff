-- ===== src/Lib.antt =====
-- TGPlane runs many Telegram sessions on worker nodes. A worker keeps a pool of sessions and serves
-- it over gRPC, with a stream of the updates that the sessions receive. The main node keeps a registry
-- of workers, picks one for each new session, relays calls to them, reconnects their streams, and
-- stores the accounts and the bots.
--
-- The parts, and the files that model them:
--
--   Session/Model, Session/Hook   internal/session/session.go, internal/metrics/session_hook.go: the
--     state of a session, and the Prometheus vectors that the pool's hook keeps.
--   Session/Pool   internal/session/pool.go. `add_session` is `add`, which `Add` and `AddBot` call;
--     `loop_exit` is the end of `runLoop`. A call gives the new pool, the result and the effects:
--     hook calls, cancelled contexts, closed clients, started loops. Pool/Calls has the histories, and
--     Pool/Unordered forgets the order of the map.
--   Worker/Server   internal/worker/server/server.go. `publish` is the body of `dispatch`;
--     `subscribe`, `receive` and `unsubscribe` are the parts of `Subscribe` between which other
--     goroutines run. Server/Bus interleaves them, and a send on a closed channel is a panic,
--     `none`. Server/Handlers has the unary calls.
--   Worker/Client   internal/worker/client/client.go, over a record of gRPC calls; Client/Updates has
--     the receiving loop of `Subscribe`.
--   Worker/Manager   internal/worker/manager/manager.go: the registry; Manager/Balance has the choice
--     of a worker and the assignments, Manager/Drain `DrainWorker`, Manager/Backoff `subscribeLoop`.
--     Manager/Race interleaves calls of `AddWorker` and `RemoveWorker`.
--   Repository   internal/account/memory_repo.go and internal/bot/memory_repo.go, which are one text
--     but for the profile columns and the name of the unique one.
--   Account, Bot   internal/account/service.go and internal/bot/service.go.
--   Auth   internal/auth/service.go and internal/auth/memory_repo.go: the API keys.
--   Bulk   internal/bulk/service.go: what each operation does at one index; Bulk/Parallel has the
--     goroutines of `parallel` and their semaphore, and Bulk/Interleaved their bodies cut at the calls.
--   Stream   internal/stream/publisher.go, and the loop over the stream that the replicator and the
--     dispatcher of the webhooks both have. Redis answers each read.
--   Replication   internal/replication/replicator.go: the row of an update and its insertion.
--   Webhook   internal/webhook/dispatcher.go: Webhook has the delivery of an event to the registered
--     webhooks, Webhook/Events what is made of an entry of the stream, and Webhook/Store the
--     repository, internal/webhook/memory_repo.go.
--   Tdlib   internal/tdlib/client.go: Tdlib/Authorization interleaves the two goroutines of an account
--     with the calls, Tdlib/EventLoop has `RunEventLoop`.
--   Rest   api/rest: Rest/Accounts, Rest/Bots, Rest/Resources, Rest/Workers and Rest/Bulk have the
--     handlers, Rest/Middleware the rate limiter and the check of keys, Rest/Server their order,
--     Rest/Routes the routes that `NewServer` registers. A handler takes what gin makes of the
--     request, and gives the status and the body. Rest/Accounts takes the interface of the repository;
--     Rest/Bots, Rest/Resources and Rest/Bulk stand over the memory repositories.
--   Postgres   the repositories over SQL. Postgres has the forms of statement, and the hypotheses on
--     what PostgreSQL documents of them; Postgres/Rows/Store has the interface `Repository` that the
--     main node's functions take, and its instance over PostgreSQL; Postgres/Rows is internal/account/postgres.go, Postgres/Bots
--     internal/bot/postgres.go, Postgres/Keys internal/auth/postgres.go, Postgres/Webhooks
--     internal/webhook/postgres.go and Postgres/Workers internal/worker/repository.go.
--   Relay   cmd/main/main.go: the handler of the updates, which publishes them to the stream.
--   Restart   cmd/main/main.go: the sessions that a worker is given again, and Restart/Startup the
--     registry when the node starts.
--   Node   cmd/worker/main.go: the TDLib clients that a worker's pool makes.
--   Crypto   internal/crypto/token.go, over a record of the standard library's operations.
--
-- A Go map is an association list in the order in which an iteration visits it, so a statement holds
-- for each order. A pointer that is compared is an address from a counter. A method that holds a lock
-- is one step. An unsigned or signed w-bit number is its bit pattern, with its wrap-around written
-- out. No model runs on fuel: the three attempts of a webhook and of an insertion are counted down,
-- the loops go over a list of sessions, workers, rows or events, and the loops that need not end
-- (`runLoop`, `subscribeLoop`, `RunEventLoop` and the two readers of the stream) go over the list of
-- what happens to them.
--
-- TDLib, the gRPC transport, PostgreSQL, Redis, gin, HTTP, JSON, the token buckets, AES-GCM, base64,
-- hex, the random source and the clock are arguments. For the encryption, for gin's groups, for
-- the connections and for PostgreSQL the laws that their documentation states are fields of a record.
--
-- Not modelled: the log, the request metrics and the web interface, which do not touch the state; the
-- configuration and the rest of cmd, which set the parts up. Where the bodies of a bulk operation
-- interleave, a call of the manager, which asks several workers, is one step.
--
-- Common has the maps, lists, tests and integers that all parts share; Tests runs the theorems at
-- concrete inputs.
pub mod Common
pub mod Session
pub mod Worker
pub mod Repository
pub mod Crypto
pub mod Account
pub mod Bot
pub mod Auth
pub mod Bulk
pub mod Webhook
pub mod Tdlib
pub mod Stream
pub mod Replication
pub mod Rest
pub mod Restart
pub mod Postgres
pub mod Relay
pub mod Node
mod Tests
