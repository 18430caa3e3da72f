-- ===== src/Lib.antt =====
-- The wallet, transaction, fraud, query, notification and identity services of
-- go-fintech-microservices, the workers and the consumer that carry their events, and the gateway's
-- middleware.
--
-- The wallet service (services/wallet) keeps wallets as sequences of events in PostgreSQL, with
-- snapshots of every fiftieth version. The transaction service (services/transaction) keeps
-- transfers between wallets. Each writes rows of an outbox, which a worker publishes to Kafka; the
-- wallet service consumes the transaction service's events: it reserves funds of the source when a
-- transfer is initiated and credits the destination when it is completed. The query service makes
-- balances, statements and statistics of the events, the fraud service profiles, the notification
-- service messages. The identity service keeps users and refresh tokens and signs access tokens,
-- which the gateway checks.
--
-- - Prelude: numbers, lists and tests. `Prelude.Int64` is Go's `int64`, wrapped after each
--   operation. Identifiers and instants are numbers; what `uuid.New` and `time.Now` return is an
--   argument of the handler that calls them.
-- - Errors, Errors.Grpc: pkg/errors/errors.go (`DomainError`, `New`, `Wrap`, `ToGRPC`).
-- - Exec: a handler takes a state to a result and the state it leaves, also beside an error.
-- - Db, Db.Laws, Db.Statements: the database that the repositories call. Each statement takes the
--   next outcome of a schedule: it runs, or is refused, or runs and its reply is lost. A
--   transaction commits what its body left or rolls it back; nothing runs in between. A `Triple`
--   says what the tables are after a call, for every schedule, when it returned a value and when it
--   returned an error. `Db.Smooth` is about calls while no statement fails: that a call returns its
--   value. `Db.Order` is `ORDER BY`.
-- - Kafka: the headers of a record. Kafka.Consumer: pkg/kafka/consumer.go, the records of each
--   fetch, the handler, and the calls that mark records and commit.
-- - Publishing: the workers of services/wallet/internal/adapters/outbound/kafka/outbox_worker.go and
--   of the transaction service, over a repository that is a parameter. `Delivery`, `Loop` and `Steps` hold
--   the invariant of an outbox and the log of its topics; Wallet.Outbox.Publishing and
--   Transaction.Store.Publishing are the two repositories.
-- - Wallet.Domain: services/wallet/internal/domain/wallet.go and events.go. A method returns the
--   wallet that it leaves. `Payloads` holds what is assumed of encoding/json: a payload that was
--   marshalled is read back whole, also from a JSONB column. `Solvency` is about balances and
--   reservations, `Replay` about the replay of events.
-- - Wallet.Store: services/wallet/internal/adapters/outbound/postgres/event_store.go and the tables
--   of services/wallet/migrations. `Append`, `History`, `Consistency`, `Preservation` and
--   `Snapshots` hold the invariant of the tables and the statements that keep it.
-- - Wallet.Outbox: services/wallet/internal/adapters/outbound/postgres/outbox_repo.go.
-- - Wallet.Service: services/wallet/internal/application/wallet_service.go: `CreateWallet`,
--   `GetBalance`, `Deposit`, `Withdraw`, `ReserveForTransaction`, `CreditForTransaction`,
--   `ReleaseReservation` and `load`. What the methods that change a wallet have in common is
--   `change`. `Loading`, `Changing`, `Creating`, `Movements` and `Calls` hold their theorems; each
--   `Success` below them, and that of `Wallet.Store.Append`, is about the same calls while no
--   statement fails.
-- - Wallet.Saga: services/wallet/internal/adapters/inbound/kafka/saga_handler.go (`Handle`).
-- - Transaction.Domain, Transaction.Store, Transaction.Service: services/transaction/internal/domain,
--   its repositories in adapters/outbound/postgres/repos.go, and
--   application/transaction_service.go. `Transaction.Lifecycle` says what a stored transaction goes
--   through; `Requests`, `Starting`, `Deciding`, `Calls`,
--   `Smooth` and `Completing` are about the service's methods.
-- - Query.Domain, Query.Store, Query.Service: services/query: internal/domain/projections.go, the
--   four repositories of internal/adapters/outbound/postgres/repos.go, and `HandleEvent` and the
--   lookups of internal/application/query_service.go. `Handling` is about what an event does,
--   `Ledger` about balances and statements.
-- - Identity.Domain, Identity.Store, Identity.Service, Identity.Server: services/identity:
--   internal/domain, internal/adapters/outbound/postgres, `AuthService` of
--   internal/application/auth_service.go, and server.go and handler.go of
--   internal/adapters/inbound/grpc. `Smooth`, `Accounts`, `Refreshing` and `Revocation` hold the
--   theorems.
-- - Fraud.Domain, Fraud.Profiles, Fraud.Service, Fraud.Server, Fraud.Updater: services/fraud: the
--   rules and `Evaluate` of internal/application/fraud_service.go, the profiles in Redis of
--   internal/adapters/outbound/redis/profile_repo.go, the decision on its way through
--   internal/adapters/inbound/grpc/server.go and the transaction service's
--   internal/adapters/outbound/grpc/fraud_client.go, and the updater of
--   internal/adapters/inbound/kafka/profile_updater.go.
-- - Notification.Service: services/notification: `Handle` of
--   internal/application/notification_service.go, the processed events and `LogSender`.
-- - Gateway.RateLimit: services/gateway/internal/middleware/ratelimit.go, for the calls of one user.
--   Gateway.Authentication: services/gateway/internal/middleware/auth.go, its decision on a path and
--   an Authorization header.
-- - Tests: concrete codecs and databases, and the theorems at them.
--
-- Loops are structural recursion on lists; there is no fuel. A version stays below the largest
-- `int64`, which the theorems that need it have as a hypothesis.
--
-- Parameters of the model: encoding/json and the texts of UUIDs (`EventCodec`, `SagaCodec`,
-- `TransactionCodec`, `ProfileCodec`, `NotificationCodec`, `QueryCodec`); bcrypt, JWT, encoding/hex
-- and random bytes (`Packages`, `Supply`), where `IsReliable` states what is assumed of them; the
-- fraud service as the transaction service calls it (`FraudChecker`); how a publication ends after
-- its retries (`Publication`); the outcomes of statements.
-- Timestamps are not rounded by the database, and an outbox payload comes back as it was written.
--
-- Not modelled: interleaved database transactions, contexts and cancellation, logging, metrics and
-- tracing, the breaker, the wiring of the servers and the gateway's router, generated code, and the
-- fraud client's call over the network. What a worker's or a consumer's loop is woken by is a
-- parameter: a list of steps, or of fetched records.
pub mod Prelude
pub mod Errors
pub mod Exec
pub mod Db
pub mod Kafka
pub mod Wallet
pub mod Transaction
pub mod Fraud
pub mod Notification
pub mod Gateway
pub mod Tests
pub mod Publishing
pub mod Query
pub mod Identity
