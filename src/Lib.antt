-- ===== src/Lib.antt =====
-- Hwala, a payment backend for several tenants: accounts with an available and a held balance, transfers with
-- a fee, holds that are captured or released, a double-entry ledger, checks against fraud, two
-- reconciliations, webhooks by a transactional outbox, and idempotency keys.
--
-- How the parts interact: a request passes the idempotency interceptor. A transfer then asks the security
-- service and the risk engine, and runs one database transaction that moves the money, writes the ledger
-- entries and stores an event in the outbox. A poller moves the events to a queue, or to the dead letters
-- after five attempts; a worker delivers the jobs of the queue. The nightly job and the health of a tenant
-- compare the ledger with the accounts.
--
-- Files:
--   Base              numbers, signed amounts, lists, tables and results that all parts share
--   Db                prisma/schema.prisma: the rows of the tables. Db/Tx: the calls inside a transaction, and
--                     the transaction itself with its catch clause. Db/Measure: the sums that the
--                     theorems are about (money, balances, ledger sums, drift)
--   Velocity          src/security/security.service.ts (enforceTransferVelocity)
--   Audit             src/audit/audit.service.ts
--   Risk              src/risk/risk.service.ts; Risk/Queries models getRiskFlags
--   Transfer          src/transfer/transfer.service.ts. Transfer/Fee, Transfer/Locks and Transfer/Execute model
--                     executeTransfer, Transfer/Hold models holdFunds and releaseHold, Transfer/Capture models
--                     captureHold, Transfer/Cents the rounding of the columns; the other files prove what they do
--   Accounts          src/accounts/accounts.service.ts
--   Bank              what sequences of requests do, on top of Transfer and Accounts: Bank/View and Bank/Tenant are
--                     about the tenants, Bank/Requests about any sequence; Bank/Http models
--                     src/transfer/transfer.controller.ts with its guards, interceptor and DTOs,
--                     Bank/System the sequences of requests to it and to the controllers of Api
--   Reconciliation    src/reconciliation/reconciliation.service.ts (reconcileLedger)
--   Webhook           src/webhook/outbox.processor.ts (Outbox), src/webhook/webhook-dlq.controller.ts (Dlq),
--                     src/transfer/webhook.processor.ts (Delivery); Webhook/Drain is about runs of the poller in
--                     which all calls return, Webhook/Settle about runs in which the queue may fail,
--                     Webhook/Attempts about all runs
--   Idempotency       src/common/interceptors/idempotency/idempotency.interceptor.ts; Idempotency/Commands splits it
--                     into its Redis commands, for their interleavings
--   Auth              src/auth/auth.service.ts; Auth/Jwt models src/auth/jwt.strategy.ts and src/auth/jwt-auth.guard.ts
--   ApiKeys           src/api-keys/api-keys.service.ts
--   Guards            src/auth/api-key.guard.ts, src/auth/roles.guard.ts and src/auth/scopes.guard.ts
--   Api               the controllers of src/auth, src/api-keys, src/accounts, src/audit, src/risk and
--                     src/webhook, with their guards, pipes and DTOs: Api/Routes has the requests and
--                     answers, Api/Dto the bodies; the other files prove what requests do
--   Exchange          src/exchange/exchange.service.ts
--   Metrics           src/common/metrics/metrics.service.ts and metrics.middleware.ts
--   Health            src/health
--   Startup           src/main.ts, src/app.module.ts, src/redis/redis.service.ts and src/prisma/prisma.service.ts: what
--                     they read from the environment
--   Tests             a small bank, on which the theorems are applied
--
-- How the model corresponds to the code: an operation is a function of the database and of an environment,
-- which holds what the code draws from outside: generated keys, the time, the answers of Redis. Keys are
-- numbers, and so is the hash of a request. An amount of money is a signed whole number of cents, a fee rate a
-- number of ten-thousandths; a row that does not fit a column of 12 digits with 2 decimals makes the call
-- throw. An exception is a value, and a transaction that throws gives back the database it began with. Row
-- locks change no row: their order is modelled in Transfer/Locks, and what it gives in Transfer/Deadlock. The
-- loops are structural recursion on lists, so that no fuel is needed. bcrypt, the signature of tokens, the texts of
-- UUIDs, SHA-256 and the validation library are parameters; what a theorem needs of them is among its hypotheses.
--
-- Doubles occur in Exchange and Metrics only: there they are a type with operations that are parameters.
--
-- Not modelled: amounts with fractions of a cent, which the DTOs let through and the columns round, but for what
-- Transfer/Cents has of them; the order that a database gives to rows of equal time, which is that of the table here;
-- commands of others between those of a velocity pipeline, and its single commands failing; bodies in which a property
-- is missing or of another type, which fail their constraints; the opening and closing of the connections to Redis and
-- PostgreSQL, the count of requests that the throttler keeps, dependency injection, HTTP headers, the API documentation
-- and log lines, which are calls
-- and options of libraries; the deployment files.
pub mod Base
pub mod Db
pub mod Velocity
pub mod Audit
pub mod Risk
pub mod Transfer
pub mod Accounts
pub mod Bank
pub mod Reconciliation
pub mod Webhook
pub mod Idempotency
pub mod Auth
pub mod ApiKeys
pub mod Guards
pub mod Api
pub mod Exchange
pub mod Metrics
pub mod Health
pub mod Startup
pub mod Tests
