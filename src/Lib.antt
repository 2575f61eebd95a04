-- ===== src/Lib.antt =====
-- lior-paris-wallet: a NestJS service that holds users' wallets, takes deposits through a payment
-- provider and moves money between users. This library models its services and repositories and
-- states what makes them correct.
--
-- The parts, and where they are (paths from the repository's root):
--   src/features/wallet: `Wallet/Repository` has the operations on the tables, `Wallet/Service` the
--     deposits, their settlement by webhooks and the cached balance. `Wallet/Settlement` and
--     `Wallet/Crediting` say what a settlement does on every branch, `Wallet/Booking` and
--     `Wallet/Deposits` what it means for the books.
--     `Wallet/Requests` and `Wallet/Endings` say what a deposit request leaves behind,
--     `Wallet/Balances` what the cache does,
--     `Wallet/Creation` when a wallet is opened. `Wallet/Coherence` and `Wallet/Reads` follow the cache
--     through requests that run one after another, `Wallet/Overlaps` through reads, writes and evictions in
--     any order; `Wallet/Turns` says how requests are made of these.
--     `Wallet/Webhook` is the controller of Stripe's webhook, `Wallet/Webhooks` what a call of it can do.
--     `Wallet/Payment` and `Wallet/Paid` follow a deposit from its request to the credited wallet,
--     `Wallet/Unanswered` one whose provider rejects the call.
--     `Wallet/Tag` makes a wallet's tag (src/shared/utils), `Wallet/Tags` says what it looks like.
--     `Wallet/Controller` has the handlers of wallets and of transfers.
--   src/features/transfers: `Transfers/Repository` and `Transfers/Service`. `Transfers/Movement` and
--     `Transfers/Between` say what a transfer does on every branch, `Transfers/Locking` in which order
--     it locks the wallets, `Transfers/Conservation` and `Transfers/Safety` what it means for the books,
--     `Transfers/Ownership` whose money it takes, `Transfers/Accepted` what event it leaves.
--   src/features/payments: `Payments`, the registry of gateways and the gateway for Stripe.
--   src/shared/circuit-breaker: `CircuitBreaker`, the options of the breaker and what it logs.
--   src/infrastructure/outbox: `Outbox`; `Outbox/Turn` is one turn of the publisher's loop,
--     `Outbox/Delivery` and `Outbox/Retries` what holds whatever fails, `Outbox/Progress` what gets done
--     if nothing fails.
--   src/features/users: `Users/Repository`, `Users/Policy`, `Users/Service` and `Users/Controller`;
--     `Users/Permissions` says who may do what, `Users/Lookups` what a look-up answers, `Users/Pages`
--     where the links of the pages lead.
--   src/features/auth: `Auth`, `Auth/RoleGuard` and `Auth/Controller`; `Auth/Registration` says what a
--     registration leaves and what logins follow it, `Auth/Passwords` what a change of password does.
--   src/features/notifications and src/infrastructure/queue: `Notifications` routes the events,
--     `Notifications/Service` sends the mails and `Notifications/Currency` formats their amounts,
--     `Notifications/Cents` says up to which amount the doubles in between tell the cents;
--     `Notifications/Rounds` says how often a failing notification comes back from the dead letters,
--     `Notifications/Attempts` how often it is attempted,
--     `Notifications/Mails` which mails a transfer sends, `Notifications/Amounts` what an amount's text
--     says.
--   src/shared: `Http/JsonApi` the documents, `Http/Errors` the exception filter, `Http/Pipes` the two
--     pipes over the values of `Http/Json`, `Http/Guards` what a request passes before its handler (with
--     the guards of src/features/auth, in the order of src/app.module.ts), `Http/Logging` the levels of
--     the log. `Http/Refusals` and `Http/Statuses` say what a client is answered, `Http/Envelope` what the
--     pipes take out of a request, `Http/Admission` who comes to a handler. `Http/Serving` puts a handler
--     behind what comes before it, and `Http/Authority` says whose money a request can take. `Http/Schemas`
--     describes the bodies that handlers let in, `Http/Inputs` reads bodies as the handlers' inputs and
--     `Http/Bodies` says which come to a handler. `Http/Tokens`
--     has the secrets of tokens (src/features/auth), `Http/Sessions` what a login's token is good for.
--   src/shared/config: `Config`, with `Config/Numbers` on the numbers it reads and `Config/Connections` on
--     the connections to the database and the cache; src/main.ts: `Bootstrap`, the port and the paths.
--   scripts/seed-admin.ts: `Scripts/SeedAdmin`; `Scripts/Admins` says what it does on every branch,
--     `Scripts/Seeding` what it leaves behind.
--   src/features/*/entities and src/shared: `Entities`, the rows and their unique indexes, and the
--     database as a record of tables.
-- `Pipeline` follows a transfer from its request through the outbox and the queues to the mails,
-- `Pipeline/Deposits` a deposit from its settlement.
-- `Bank` is the abstract specification of the wallets, a bank that knows only balances and takes orders;
-- `Bank/Refinement` relates the tables to it. `Ledger` is the specification of the books: a
-- wallet's balance is the sum of its ledger entries and not negative, no key is booked twice, and
-- all wallets hold together what was deposited. `Interleaving` is the step relation of requests
-- that run at the same time, and `Interleaving/Departures` lets the deletions of users run between
-- the steps. `Prelude` and `Result` are shared: lists as tables, integers, texts,
-- and methods that read and write a state and may throw. `Examples` runs the definitions on a small
-- state.
--
-- How the parts interact: the services call the repositories, those the tables; a settlement and a
-- transfer write an outbox row in the transaction that moves the money, and the publisher copies it
-- to a queue. A method of the program is an `Action`: from a state to a result or an exception,
-- with the state after it, since what was written before a throw stays written outside of a
-- transaction.
--
-- What the repository does not contain is an interface with the documented behaviour that the
-- program relies on: `Orm` for TypeORM over MySQL, `Cache` for cache-manager, `Queue` for BullMQ,
-- in `Payments` the client of Stripe, in `CircuitBreaker` opossum, in `Auth` argon2 and the signing of
-- tokens, in `Wallet/Webhook` the check of a webhook's signature, in `Notifications/Service`
-- SendGrid, in `Http/Guards` passport, in `Http/Pipes` the exceptions of Nest, the parent pipe and
-- the result of zod, in `Http/Schemas` what zod makes of a schema, in `Http/Tokens` the tokens of JWT.
-- `Orm/Memory` and `App/Memory` meet those of the tables and the cache. A row lock is not modelled by
-- itself: the transaction that takes it is one step, which is what the lock brings about.
--
-- Conventions: a uuid is a number, and a new row's uuid is an argument, as is the time. Texts are
-- compared exactly, as under a binary collation; of letters only those of ASCII change their case.
-- Amounts are exact integers, so the rounding of JavaScript's numbers above 2^53 is left out; the rounding of
-- the quotient that a mail prints is written out. Most of logging is left out, and so are the columns of time
-- that the program does not read. Each loop goes over a list or a text; only the digits of a number are
-- counted down with fuel, one round more than the number, which is enough since each round divides by ten, and
-- the binary places of a double are looked for from 59 down, which is what one cent needs.
--
-- Not modelled: the decorators, which set metadata, and those of the classes in src/features/*/dto, which
-- class-validator reads; of src/main.ts and the modules what registers parts with Nest, Express and
-- BullMQ; the tests.
pub mod Prelude
pub mod Result
pub mod Orm
pub mod Http
pub mod Entities
pub mod Store
pub mod Ledger
pub mod App
pub mod Config
pub mod Bootstrap
pub mod Pipeline
pub mod CircuitBreaker
pub mod Payments
pub mod Users
pub mod Auth
pub mod Wallet
pub mod Transfers
pub mod Outbox
pub mod Notifications
pub mod Interleaving
pub mod Scripts
pub mod Bank
mod Examples
