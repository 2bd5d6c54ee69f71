-- ===== src/Lib.antt =====
-- A model of the ledger and transaction engine: a NestJS service over PostgreSQL that keeps
-- accounts, moves money between them with double-entry ledger entries, records an outbox event with
-- every movement, guards requests by idempotency keys, and reconciles balances with the ledger.
--
-- The parts, with their sources from the repository's root:
--
--   Prelude          tests, lists, integers and tables with a primary key, shared by all parts
--   Common           src/common/exceptions/domain.exceptions.ts as a data type (Exceptions); the
--                    numbers of the runtime and of `bigint` columns (Number)
--   Entities         src/modules/*/entities and enums, and the responses of the services
--   Database         the state, the environment, and statements, transactions, try/catch as actions
--   Ledger           src/modules/ledger/ledger.service.ts
--   Outbox           src/modules/outbox/outbox.service.ts
--   Transactions     src/modules/transactions/transactions.service.ts and dto: deposit, withdraw,
--                    transfer, get_transaction; Drafts is their data; Posting, Guards, Locked,
--                    LockOrder, Outcomes and Atomicity hold what their steps guarantee, Draws,
--                    LockedRows and Requests which uuids they use
--   Accounts         src/modules/accounts/accounts.service.ts and dto
--   Idempotency      src/modules/idempotency/idempotency.service.ts: execute and its parts;
--                    Claiming and Fresh are about new keys, Replay about known ones,
--                    Again about second requests; Stored is the record that a request leaves
--   Webhooks         src/modules/webhooks/webhooks.service.ts and dto: Delivery is process_delivery,
--                    Dispatch is dispatch_outbox_event; Attempts, Outcomes and Creation are about them
--   Jobs             src/jobs/jobs.service.ts; Work is any sequence of the work for the webhooks
--   Reconciliation   src/modules/reconciliation/reconciliation.service.ts: run_reconciliation, both
--                    queries
--   Ops              src/modules/ops: the listings for operators, and their routes
--   Controllers      src/modules/{transactions,accounts,webhooks}/*.controller.ts behind the
--                    ValidationPipe of src/main.ts; Validation is the decorators of the DTOs
--   Config           src/config: the validation of the environment and the settings made of it
--   Health           src/modules/health
--   Accounting       what the balances, the ledger and the movements have to do with each other; Expected
--                    is what a movement has to do, with its rows written out; Bank is a bank as a
--                    specification, View and the Refinement files are about it
--   Tests            concrete states and requests
--
-- A service's method is a function of the same name in snake case. It is an `Action`: a function
-- from the state (`World`: the tables, the jobs handed to the queue, the row locks taken, the flags of
-- the services) to a result or an exception and the next state. The constructors of `Exception` are
-- the source's exception classes with their arguments. A method that calls another service calls
-- that service's action: the movements of Transactions call create_entries of Ledger and
-- create_transaction_completed_event of Outbox inside one transaction.
--
-- What is not the program's comes from an `Env`, as functions of the number of steps made so far:
-- the uuids that the database draws, its clock and the runtime's, and the statements that fail for a
-- reason of their own, such as a lost connection. A statement that fails changes nothing; a
-- transaction whose body throws leaves the tables as they were. An insertion fails when its primary
-- key is taken, and that of an idempotency record also when its endpoint and key are; a value out of
-- range for a `bigint` column makes its statement fail. Parameters give the hash of a payload
-- (`execute`), whether a text is a URL (the controllers), what `Number` and `parseInt` make of a text
-- (Config), what the client of Redis does (Health), and what an endpoint answers to a delivery
-- (`process_delivery`), and which of two rows of one date PostgreSQL returns first (Ops), which may
-- differ from one statement to the next. Where the source starts several statements together (`Promise.all`) the model
-- makes them in the order written.
--
-- Numbers: an amount or a balance is an integer, and every sum or difference that the program
-- computes is rounded to 53 significant bits, as IEEE 754 doubles are; SQL sums are exact.
-- The only fuel counts the bits dropped in rounding a number, and is the number itself. A uuid is a
-- number, since the program does no more than compare and sort them; a date is a count of
-- milliseconds. A JSON column holds the object that was put there, not its text.
--
-- Not modelled: logging, column lengths and foreign keys, which the services never rely on; the
-- requests of other processes between the statements of one; the timers that start the jobs; the
-- connection to the database and the migration.
--
-- Limits: uuids are in their canonical form (the source compares the texts of two ids, so that one in
-- upper case, which `IsUUID` accepts, is refused as not found); dates stay within those of a
-- JavaScript `Date`, up to 8.64e15 ms; a lock is noted for every id that a locking `findOne` asks for,
-- whether or not it finds a row.
pub mod Prelude
pub mod Common
pub mod Entities
pub mod Database
pub mod Ledger
pub mod Ops
pub mod Outbox
pub mod Transactions
pub mod Webhooks
pub mod Jobs
pub mod Reconciliation
pub mod Accounts
pub mod Config
pub mod Controllers
pub mod Accounting
pub mod Health
pub mod Idempotency
pub mod Tests
