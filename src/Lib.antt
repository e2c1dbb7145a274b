-- ===== src/Lib.antt =====
-- A payments gateway: a NestJS server that takes payments for organizations and passes them to payment
-- providers (Stripe, Mercado Pago and others). This library models the server's own logic and proves
-- what its parts promise.
--
-- The parts and their files:
-- - World: the state of a running server: the rows of `prisma/schema.prisma`, the jobs for the two queues,
--   the calls that left for the providers, the samples of the metrics, and the clock (World/Tables); a service
--   method as a function of that state which returns or throws (World/Effects), with transactions that
--   take back what was written; Prisma's calls with the constraints of the tables (World/Queries);
--   `src/modules/audit/audit.service.ts` (World/Audit) and `src/modules/metrics/metrics.service.ts`
--   (World/Metrics).
-- - Payments: `src/modules/payments/payment-state.machine.ts` (Payments/Machine),
--   `src/modules/payments/payments.service.ts` with `create` (Payments/Create), `refund`
--   (Payments/Refund), `findAll` and `findOne` (Payments/Listing), and
--   `src/modules/payments/reconciliation.service.ts` (Payments/Reconciliation).
-- - Webhooks: `src/modules/webhooks/webhooks.controller.ts` (Webhooks/Controller), which stores a
--   delivery and queues a job, `src/modules/webhooks/webhook.processor.ts` (Webhooks/Processor), which
--   the queue runs, and `src/modules/webhooks/webhook-secret.service.ts` (Webhooks/Secret).
-- - Providers: `src/modules/providers/provider.interface.ts` as records, and
--   `src/modules/providers/provider.registry.ts` (Providers/Registry);
--   `src/modules/providers/circuit-breaker.service.ts` (Providers/Breaker) keeps the breakers, and
--   `src/modules/providers/routing.service.ts` (Providers/Routing) chooses by them.
-- - Providers/Adapters: `src/modules/providers/adapters/`, a file for each provider with its error
--   mapper below it, and `src/modules/providers/providers.module.ts` (Startup), which starts five of
--   them; Statuses, Failures and Signatures are about all of them.
-- - Tenants: `src/modules/tenants/api-key.service.ts` (Tenants/ApiKeys).
-- - Guards: `src/common/guards/auth.guard.ts`, `src/common/guards/api-key.guard.ts` and
--   `src/modules/firebase/firebase-auth.service.ts` (Guards/Auth),
--   `src/common/guards/tenant.guard.ts`, `src/common/guards/write.guard.ts` and
--   `src/common/guards/roles.guard.ts` (Guards/Access),
--   `src/common/guards/firebase-auth.guard.ts` (Guards/FirebaseAuth, which no route uses),
--   `src/common/guards/tenant-throttler.guard.ts` (Guards/Throttler) and
--   `src/common/guards/pci.guard.ts` (Guards/Pci).
-- - Controllers: `src/modules/payments/payments.controller.ts` (Controllers/Payments),
--   `src/modules/auth/auth.controller.ts` (Controllers/Auth) and
--   `src/modules/tenants/tenants.controller.ts` (Controllers/Tenants): a route is its guards, in their
--   order, and then its handler.
-- - Idempotency: `src/common/interceptors/idempotency.interceptor.ts`.
-- - Pii: `src/common/services/pii.service.ts`.
-- - Errors: `src/common/errors/` and `src/common/filters/all-exceptions.filter.ts` (Errors/Filter).
-- - Server: the payments, the reconciliation and the webhooks on one database, as a list of happenings
--   in any order; Server/Ledger is the abstract ledger that they refine.
-- - Prelude, Json (with Json/Reading, optional chaining on `any` values) and Context hold what the
--   others share; Tests holds concrete inputs.
--
-- How the code is modelled: an amount of a payment is a natural number, that of a refund an
-- integer, as its body is not validated. A time is a number of milliseconds. A lookup in an object
-- literal finds its own keys only: no status of an API or of a webhook, no method and no code is
-- taken to be the name of a property that an object inherits, such as `constructor`, which the code
-- would find; else the status of a provider's answer is any text. A service method runs from its
-- start to its end before the next one begins, and a transaction keeps or takes back all its
-- writes. Of the two queues the model keeps the jobs that were handed to them; which of those a
-- queue takes and when it runs them is left open, and a job may run at any time, also again. A
-- query without an order answers in the order of the table, and so do rows of one time; no result
-- below rests on that. Ids are minted by number. The database is taken to answer, but for the audit
-- table, whose failures the code swallows. Loops are recursion on lists and texts; fuel is used for
-- the decimal digits of a number only, where one more than the number is enough. The diagram of the
-- statuses is the table of `src/modules/payments/payment-state.machine.ts`, unless that of its
-- comment is named.
--
-- What is a parameter: the answers of the providers' APIs, how a breaker ends a call, the ids of the
-- database, the time a provider takes, the HMAC, AES-GCM, bcrypt, nanoid, the Firebase verification,
-- `JSON.parse`, `JSON.stringify`, `Number` of a text, the clock of an adapter and the case of texts.
-- An answer of an API has the documented types for the fields that are read; the body of a webhook is
-- any JSON value, and where a text is read from it that is no text, its `String` form is taken. An
-- amount is below 2^53, so that `Number` of it is exact; its hundredths are kept as a whole number.
--
-- What is not modelled: the inside of a circuit breaker, the checks of a body by class-validator (a
-- parameter of the routes that rely on them, but for the expiry of a key), the health checks, and the
-- modules, the bootstrap and the telemetry, which are calls of libraries. Of a row, `updatedAt` and the
-- columns that no service reads are left out; logging is left out.
pub mod Prelude
pub mod Json
pub mod Errors
pub mod Providers
pub mod Payments
pub mod World
pub mod Context
pub mod Tenants
pub mod Guards
pub mod Idempotency
pub mod Pii
pub mod Server
pub mod Tests
pub mod Webhooks
pub mod Controllers
