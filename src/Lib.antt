-- ===== src/Lib.antt =====
-- A verification library of the affiliate platform: the sales, the money, the sessions, the messages
-- and the leases of the API's services, and the pure rules of packages/analytics that they apply.
--
-- The parts, and the code that each models:
--
-- Common (helpers): native numbers, lists that count in them, integers (Common.Int), exact fractions
-- with the rounding of the program (Common.Ratio), sorting, results of operations that may throw.
-- Lifecycle: packages/analytics/src/campaign-lifecycle.ts (Campaign) and payout-lifecycle.ts (Payout):
-- the tables of transitions as functions; Walks follows them over histories.
-- Breaker: packages/analytics/src/circuit-breaker.ts. `admit`, `on_success` and `on_failure` are the
-- functions of the source; Wellformed and Admission prove about sequences of calls.
-- TokenBucket: packages/analytics/src/token-bucket.ts, with `refill` and `consume`.
-- Money: payout-math.ts (Fee), refund-math.ts (Refund), commission-calc.ts and resolve-commission.ts
-- (Commission), attribution.ts (Attribution) of packages/analytics/src.
-- Webhook: apps/api/src/services/webhook.service.ts. The two tables (Tables), `enqueueWebhookEvent`
-- (Enqueue), `attemptDelivery` (Delivery), `drainEndpoint`, `deliverDue` and `replayDelivery` (Drain), and
-- packages/analytics/src/backoff.ts (Backoff).
-- Csv: the streaming reader packages/analytics/src/csv-parse.ts (Reader, Header; Chunks on the cutting of
-- its input) and the writer apps/api/src/lib/csv.ts (Writer).
-- Bisect: packages/analytics/src/bisect.ts.
-- Ledger: the tables of apps/api/prisma/schema.prisma that money moves through, as lists of rows in one
-- record `Store`, and the operations on them: `requestPayout` (Request) and `transition` (Transition)
-- of apps/api/src/services/payout.service.ts, `review` (Review) and `reverse` (Reverse) of
-- conversion.service.ts, `promoteExpiredLocks` (Promote) of apps/api/src/workers/lock-expiry.worker.ts,
-- and the rows that they enqueue for others (Outbox). Faults combines them.
-- Sale: the sale that an affiliate or the platform reports. `report` of
-- apps/api/src/services/conversion.service.ts (Report), the rules of fraud.service.ts (Fraud) and the periods
-- of subscription.service.ts (Subscription), over the rows of Tables; Share is the split between links.
-- Session: the tokens and the sessions of apps/api/src/services/auth.service.ts with
-- apps/api/src/repositories/refresh-token.repository.ts. Tables has the rows, Token the signing, Service
-- the operations as the service composes them, Steps the single database calls as a step relation,
-- which Calls joins to Service.
-- Idempotency: apps/api/src/plugins/idempotency.ts (Plugin) with apps/api/src/lib/fingerprint.ts
-- (Fingerprint), run over sequences of requests by Retry. The hook's insertion and its read are two
-- database calls, so `pre_handler` is given a table for each.
-- Lease: apps/api/src/lib/lease.ts, by which one of several instances runs a job: the steps
-- are the commands that reach Redis, with and without an answer that comes back.
-- Resolver: apps/redirect/src/link-resolver.ts, the redirect's cache of links.
--
-- How they interact: the operations of the ledger call the rules of Money and Lifecycle, and write
-- their messages through Outbox, which uses Webhook. The passes of Webhook ask Breaker before each request.
-- Sale computes commissions with Money.
--
-- How code corresponds to definitions: a service method is a function from the store to a `Result`, an
-- error or the new store with the response. Since a transaction that throws writes nothing, an
-- error carries no store. Where the source checks before it opens its transaction, the definition has
-- two halves (`plan_transition` and `commit_transition`, `plan_review` and `commit_review`,
-- `find_promotable` and `promote`), so that theorems can let other operations run in between. A
-- Prisma `updateMany` is `update_where`, `findFirst` is `find`, a unique index is a test that refuses
-- the write. Environment values (the fee) and clock readings are arguments.
--
-- Numbers: stored amounts are whole cents (columns of type Decimal(n, 2)); a percentage, a share and a
-- refund that a request names are exact fractions, where the source computes in doubles: rounding
-- errors of binary doubles are not modelled. Tokens are counted in units of 1/60000, times in epoch
-- milliseconds. Ids are numbers, since the code only compares them. Recursion is on lists, except
-- in Bisect, whose fuel is the number of items: each half of a batch is shorter than the batch, and in
-- Sale.Subscription, where the digits of a number are written out on a fuel that the number gives: it has
-- at most as many digits as it counts.
--
-- Not modelled: HTTP routes, the other plugins and the web client, metrics and logging; the HTTP
-- server of the redirect, the workers of imports and clicks, the services of relationships, campaigns and tracking, the
-- sending of notifications, and reads for reports. The transport of webhooks, Redis, SHA-256, HMAC, password
-- hashing and the JSON codec are not code of the repository: where a definition uses one it is a parameter.
pub mod Common
pub mod Lifecycle
pub mod Breaker
pub mod Csv
pub mod Bisect
pub mod Session
pub mod Idempotency
pub mod Sale
pub mod Lease
pub mod Resolver
pub mod TokenBucket
pub mod Money
pub mod Webhook
pub mod Ledger
