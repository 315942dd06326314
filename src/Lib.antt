-- ===== src/Lib.antt =====
-- A verification library of dodo-payments-backend, a payment service in Go: businesses create
-- invoices for their customers and let a payment service provider (PSP) charge them; webhooks
-- tell the businesses what happened.
--
-- The program's parts and their models:
-- - internal/payment/payment.go, the endpoint POST /invoices/:id/pay: Payment/Claim (the first
--   transaction, `claim`), Payment/Finalize (the second one, `finalize`), Payment/Pay (the handler
--   `PayInvoice`). Payment/System is the endpoint under concurrency: a step relation whose steps
--   are whole transactions, calls of the PSP, ends of requests and crashes, in any order; it
--   refines the ledger of Payment/System/Ledger.
-- - internal/db/generate (the queries of sqlc) and internal/db/migrations (the constraints):
--   Db/Models, Db/Enums (`Scan` and `Value`), Db/Queries, on tables that are lists of rows in the
--   order of their insertion. Db/Tx has statements, errors and transactions: a failed statement
--   aborts its transaction, a failed transaction leaves the tables as they were, but for a commit
--   whose acknowledgement is lost: it fails for its caller and may have changed them.
-- - internal/invoice/invoice.go: Invoice/Totals (the loop over the items), Invoice/Dates,
--   Invoice/Create (`CreateInvoice`), Invoice/States (`GetInvoice`, `ListInvoices`, `VoidInvoice`),
--   Invoice/Responses.
-- - internal/webhook/webhook.go: Webhook/Outbox (QueueDeliveries and BuildPayload),
--   Webhook/Signature, Webhook/Worker (`ProcessBatch` and what it calls), Webhook/Endpoints (the
--   handlers `CreateEndpoint`, `ListEndpoints` and `GetEndpoint`). Webhook/Queue is the table of
--   deliveries under concurrency: requests that queue, any number of workers, crashes and leases
--   that run out, in any order.
-- - internal/customer/customer.go: Customer (its three handlers).
-- - internal/auth/auth.go: Auth/Keys, Auth/Middleware. internal/auth/bootstrap.go: Auth/Bootstrap.
-- - internal/publicid/publicid.go: PublicId (Feistel permutation, base 62, codec).
-- - internal/idgen/idgen.go: IdGen/Snowflake (the generator, its clock a list of readings) and
--   IdGen/Codec (public ids by a block cipher, which the program does not use).
-- - internal/psp/psp.go: Psp/Types, Psp/Client. cmd/mockpsp/main.go: Psp/Mock. Payment/Gateway puts
--   the two together over a network that loses or delays replies; what comes after the timeout of
--   the client is an error.
-- - cmd/api/main.go: Api (`setupRouter`: routes, authentication, settings of the PSP client).
-- - internal/middleware/errors.go and what every handler is given: Http.
--   internal/middleware/requestId.go: Http/RequestId.
-- Base holds lists, rows, integers, texts and bits that the parts share.
--
-- How they interact: a handler takes a session (the tables, the ids drawn, the statements run) and
-- gives a response with the session after it. It is given an environment (`Env` of Http): the ids
-- of the generator, which statements fail for the connection and which commits only seem to, the
-- time, and functions of libraries: json.Marshal, PostgreSQL's text of a JSONB value, the codec and
-- SHA-256. The PSP is a function from requests to answers, or `none` where the call fails.
--
-- Numbers and bounds: ids are the 64-bit patterns of the int64 of the source; cents are integers. A
-- transaction of the step relation is one step, for it holds the lock of its invoice row (SELECT
-- FOR UPDATE); a claim whose look-up of the key is older than its lock has a step of its own, and a
-- commit whose acknowledgement is lost is the step of the transaction and then the end of the
-- request. The generator waits for its clock on the list of readings, which ends: a reading beyond
-- the last time in it is enough. Texts are trimmed on as much fuel as they have bytes, and a number
-- n is printed on the fuel n + 1, each of which bounds the rounds.
--
-- Not modelled: `main` of cmd/api (connections, signals), the connection pool, logging and recovery
-- (pure I/O), the loss of the acknowledgement of a statement outside of a transaction, and
-- libraries, which are parameters: among them url.ParseRequestURI, mail.ParseAddress, the block
-- cipher, random bytes, and the HTTP exchange with the reading of JSON.

pub mod Base
pub mod PublicId
pub mod IdGen
pub mod Db
pub mod Http
pub mod Webhook
pub mod Psp
pub mod Auth
pub mod Customer
pub mod Invoice
pub mod Payment
pub mod Api
