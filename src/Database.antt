-- ===== src/Database.antt =====
-- The state that the services share, and the actions on it.
--
-- A database statement either fails and changes nothing, or has the effect that SQL documents for
-- it. Which statements fail, which uuids `gen_random_uuid` draws and what the clocks show is not the
-- program's: an `Env` gives it, as functions of the count of steps made so far.
pub mod Ensures
pub mod Keeps
pub mod Cases
pub mod Unused
use distributed_ledger_and_t.Prelude.{
  ℕ, suc, Bool, Option, none, some, List, [], ◌∷◌, ◌++◌, ◌||◌, if◌then◌else◌, ⊤,
}
use distributed_ledger_and_t.Common.Exceptions.{Exception, query_failed, Result, ok, err}
use distributed_ledger_and_t.Entities.{
  Uuid, Time, Account, Transaction, LedgerEntry, OutboxEvent, WebhookSubscription, WebhookDelivery,
  IdempotencyRecord, ReconciliationRun, ReconciliationIssue,
}

-- The tables.
pub record Db : Type 0 where
  pub accounts : List Account
  pub transactions : List Transaction
  pub ledger_entries : List LedgerEntry
  pub idempotency_records : List IdempotencyRecord
  pub outbox_events : List OutboxEvent
  pub webhook_subscriptions : List WebhookSubscription
  pub webhook_deliveries : List WebhookDelivery
  pub reconciliation_runs : List ReconciliationRun
  pub reconciliation_issues : List ReconciliationIssue

abbrev pub empty_db : Db
empty_db = record {
  accounts = [];
  transactions = [];
  ledger_entries = [];
  idempotency_records = [];
  outbox_events = [];
  webhook_subscriptions = [];
  webhook_deliveries = [];
  reconciliation_runs = [];
  reconciliation_issues = [];
}

-- A job that `Queue.add` was called with: its data, its delay, and the two parts of its `jobId`.
pub record Job : Type 0 where
  pub delivery_id : Uuid
  pub delay : ℕ
  pub job_delivery_id : Uuid
  pub job_attempt : ℕ

-- The database, the jobs handed to the queue, the row locks taken so far, and the count of steps.
pub record World : Type 0 where
  pub db : Db
  pub open db use *
  pub queue : List Job
  pub locks : List Uuid
  pub step : ℕ
  -- the fields `running` of ReconciliationService and `outboxRunning` of JobsService
  pub reconciliation_running : Bool
  pub outbox_running : Bool

pub record Env : Type 0 where
  pub gen_random_uuid : ℕ → Uuid
  -- the database's now(), and `Date.now()`
  pub db_now : ℕ → Time
  pub date_now : ℕ → Time
  -- whether a statement fails for a reason of its own, such as a lost connection
  pub fault : ℕ → Bool

abbrev pub next : World → World
next w = record w { step = suc w.step }

abbrev pub Action {ℓ} : Type ℓ → Type ℓ
Action A = World → Result A × World

module _ {ℓ} {A : Type ℓ} where
  abbrev pub pure : A → Action A
  pure a w = (ok a, w)

  abbrev pub throw : Exception → Action A
  throw e w = (err e, w)

  unfoldable pub or_throw : Option A → Exception → Action A
  or_throw none e w = (err e, w)
  or_throw (some a) e w = (ok a, w)

  -- One SQL statement; `violated` says that it breaks a constraint of the schema.
  abbrev pub statement : Env → Bool → A → Db → Action A
  statement env violated a after w =
      if env.fault w.step || violated
      then (err query_failed, next w)
      else (ok a, record (next w) { db = after })

  -- `dataSource.transaction(body)`: the tables are rolled back when `body` throws.
  abbrev pub rolled_back : Db → Result A × World → Result A × World
  rolled_back before (ok a, w) = (ok a, w)
  rolled_back before (err e, w) = (err e, record w { db = before })

  unfoldable pub in_transaction : Action A → Action A
  in_transaction body w = rolled_back w.db (body w)

module _ {ℓ} {A : Type ℓ} where
  abbrev pub handled : Result A → (Exception → Action A) → World → Result A × World
  handled (ok a) handler w = (ok a, w)
  handled (err e) handler w = handler e w

  -- `try { … } catch (error) { … }`: what was written before the throw stays written.
  unfoldable pub try_catch : Action A → (Exception → Action A) → Action A
  try_catch body handler w = let (r, w') = body w in handled r handler w'

  -- `try { … } finally { … }`, for a last block that cannot throw.
  unfoldable pub finally : Action A → (World → World) → Action A
  finally body last w = let (r, w') = body w in (r, last w')

unfoldable pub throw_if : Bool → Exception → Action ⊤
throw_if c e w = (if c then err e else ok tt, w)

-- `new Date()`, `Date.now()`
abbrev pub read_clock : Env → Action Time
read_clock env w = (ok (env.date_now w.step), next w)

module _ {ℓ κ} {A : Type ℓ} {B : Type κ} where
  abbrev pub continue : Result A → (A → Action B) → World → Result B × World
  continue (ok a) f w = f a w
  continue (err e) f w = (err e, w)

  infixl 5 ◌>>=◌
  unfoldable pub ◌>>=◌ : Action A → (A → Action B) → Action B
  ◌>>=◌ m f w = let (r, w') = m w in continue r f w'

module _ {ℓ κ} {A : Type ℓ} {B : Type κ} where
  infixl 5 ◌>>◌
  abbrev pub ◌>>◌ : Action A → Action B → Action B
  m >> n = m >>= λ _. n
