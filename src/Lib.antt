-- ===== src/Lib.antt =====
-- A verification library for the tenant billing service: invoices of several tenants, payments
-- through an outside payment provider (PSP), and webhooks through an outbox.
--
-- The program. Handlers (app/routers) take a tenant from its API key, call a service
-- (app/services), commit, and translate exceptions to status codes. The services read and write
-- PostgreSQL through an SQLAlchemy session. A payment commits twice: a pending attempt under the
-- lock of the invoice's row, then, after the PSP has answered, the outcome with the invoice's
-- state and the outbox rows. A worker (app/workers) delivers outbox rows and retries them.
--
-- The files:
--   * Base: shared names, Boolean tests, rows of a table (select, count, update_where) with
--     their lemmas.
--   * Errors: app/exceptions.py, with the failures of database calls.
--   * Model: app/models and the tables of alembic/versions, a record for each table, a data type
--     for each enumeration.
--   * Session: app/database.py and the session as state: committed tables, the tables of the
--     open transaction, and the requests sent to the PSP. An action is a function of the session
--     that returns a result and a session; a raise keeps what was written in the transaction,
--     and what is not committed is lost when the session closes.
--   * World: what is not in the repository, as parameters.
--   * Machine: app/services/invoice_state.py; Machine/Laws has the diagram as a relation.
--   * Psp: app/services/psp_client.py.
--   * Outbox: enqueue_event of app/services/webhook_service.py.
--   * Payment: app/services/payment_service.py. Attempts has the queries and constraints, Start
--     steps 1 and 2, Resolve step 4, and Payment the composition process_payment; Composed puts
--     the two transactions and the call between them together, and Insert, Replay, Outcomes,
--     Effects, Results, Idempotent, Durable, Repeats, Whole, Promises, Answers, Settled and
--     Settlement have the proofs.
--   * Invoices: app/services/invoice_service.py and app/schemas/invoice.py.
--     transition_invoice_state is the composition of check_transition and write_transition.
--     Creation, Outcomes and Listing have the proofs.
--   * Schedule: requests at the same time, as sequences of the pieces between commits, with
--     crashes.
--   * Worker: app/workers/webhook_worker.py. Worker and Worker/Delivery have one poll with its
--     deliveries, Request the signed request, Runs a poll as a transaction and sequences of
--     polls, Loop the process with its tasks, started and stopped by the lifespan of
--     app/main.py. Overlap has two workers at a time. Policy has the retry policy as an
--     automaton, and Moves, Retry, Poll, Measure, Drain, Rounds, Delivers and the modules below
--     Request and Loop the proofs.
--   * Routers: the handlers of app/routers, with what they answer and commit.
--   * MockPsp: mock_psp/main.py, which the tests use as the PSP.
--   * Signing: app/utils/signing.py; Decimal and Numerals have str and int on timestamps,
--     Headers the signature header, Laws the round trip.
--   * Customers: app/services/customer_service.py. Endpoints: the endpoints of
--     app/services/webhook_service.py. Auth: app/utils/api_keys.py and app/dependencies.py. Each
--     has its laws in a module below it, and its handlers in Routers.
--   * Schemas: the checks of app/schemas and of the query parameters, which answer 422;
--     Schemas/Reads the shapes of the answers.
--   * App: app/main.py with the routes of app/routers, from the credentials to the reply. Serve
--     carries a property of the services over to the application; Owners, Commits, Isolation,
--     Keys, Payments and Safety keep tenants apart, Refusals has the requests that reach no
--     handler or only read.
--   * System: requests and polls in any order on the same tables, and the invariant of the
--     tables (one request or poll at a time; Schedule has the payments that overlap); Stored has
--     the invariant, Changes, Creation and Payments what each service does to it.
--   * Tests: runs on concrete inputs.
--
-- Numbers and bounds. UUIDs and times are natural numbers, times in seconds. Amounts and
-- quantities are natural numbers in the services, which Schemas and the CHECK constraints
-- ensure, and whole numbers in a request; a value that does not fit INTEGER or BIGINT, or a text
-- longer than its column, makes the INSERT or UPDATE fail with data_error where a request can
-- cause it (amounts, idempotency key, card token, the PSP's reference and code, the URL of an
-- endpoint, the message of a failed delivery). The width of the request hash is not checked,
-- since a SHA-256 text has 64 characters. The loops of the modelled code run over lists. Only
-- the decimal digits of a number (Signing/Decimal) run on fuel, the number itself, and
-- digit_list-value says that this is enough.
--
-- The database. A SELECT is a selection from the rows in the order of the table; ORDER BY is a
-- stable sort, so that ties stay in the order of the table. Which of several violated
-- constraints PostgreSQL reports is the parameter report. What a repeated SELECT gives for a row
-- that the session has loaded before is the parameter reload, since SQLAlchemy keeps the loaded
-- object by default. Server-drawn identifiers and clock readings are the parameter Draws; a
-- collision of identifiers violates the primary key of payment_attempts, invoices, customers and
-- webhook_endpoints; those of line items and outbox rows are taken as new. Row locks show in
-- Schedule: what runs under the lock of an invoice's row is one event, and what holds no lock
-- can be cut. The lookup of the idempotency key before the lock is left out of the event that
-- begins a payment, so that the events include runs in which the lookup was stale.
--
-- Not modelled: configuration, logging, how the framework parses a request up to a JSON body of
-- the right shape (a body that is no JSON at all is answered before the credentials are looked
-- at), foreign keys as checks of the database, with their cascades, the detail text of
-- PostgreSQL's messages beyond the name of the constraint, characters that a text column
-- refuses, and decimal digits outside 0 to 9, which no header has.
pub mod Base
pub mod Errors
pub mod Model
pub mod Session
pub mod World
pub mod Machine
pub mod Psp
pub mod Outbox
pub mod Payment
pub mod Invoices
pub mod Customers
pub mod Endpoints
pub mod Auth
pub mod Signing
pub mod MockPsp
pub mod Schedule
pub mod Worker
pub mod Schemas
pub mod Routers
pub mod App
pub mod System
mod Tests
