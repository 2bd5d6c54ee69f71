-- ===== src/Entities/Audit.antt =====
-- modules/idempotency and modules/reconciliation: entities and enums.
use distributed_ledger_and_t.Prelude.{ℕ, ℤ, String, Option, Row}
use distributed_ledger_and_t.Common.Exceptions.{Exception}
use distributed_ledger_and_t.Entities.Finance.{Uuid, Time, TransactionResponse, AccountResponse}
use distributed_ledger_and_t.Entities.Events.{WebhookResponse}

pub data IdempotencyStatus : Type 0 where
  processing completed failed : IdempotencyStatus

-- The objects that reach the column `response_body`: the results of the guarded operations, and
-- the response that `normalizeError` makes of an exception, which is a function of it.
pub data Body : Type 0 where
  transaction_body : TransactionResponse → Body
  account_body : AccountResponse → Body
  webhook_body : WebhookResponse → Body
  error_body : Exception → Body

-- `idempotency_records`
pub record IdempotencyRecord : Type 0 where
  pub id : Uuid
  pub endpoint : String
  pub idempotency_key : String
  pub request_hash : String
  pub status : IdempotencyStatus
  pub transaction_id : Option Uuid
  pub response_code : Option ℕ
  pub response_body : Option Body
  pub created_at : Time
  pub updated_at : Time

pub data ReconciliationRunStatus : Type 0 where
  completed failed : ReconciliationRunStatus

-- The object in the column `details` stands in the constructor of the type of the issue:
-- the account, its balance and that of its ledger; the transaction, its debits and its credits.
pub data ReconciliationIssueType : Type 0 where
  account_balance_mismatch : Uuid → ℤ → ℤ → ReconciliationIssueType
  unbalanced_transaction : Uuid → ℤ → ℤ → ReconciliationIssueType

-- `reconciliation_runs`
pub record ReconciliationRun : Type 0 where
  pub id : Uuid
  pub status : ReconciliationRunStatus
  pub total_issues : ℕ
  pub error_message : Option Exception
  pub started_at : Time
  pub completed_at : Option Time
  pub created_at : Time

-- `reconciliation_issues`
pub record ReconciliationIssue : Type 0 where
  pub id : Uuid
  pub run_id : Uuid
  pub issue_type : ReconciliationIssueType
  pub reference_id : Option Uuid
  pub created_at : Time

instance abbrev pub idempotency_record_row : Row IdempotencyRecord
idempotency_record_row = record { key = λ r. r.id }

instance abbrev pub reconciliation_run_row : Row ReconciliationRun
reconciliation_run_row = record { key = λ r. r.id }

instance abbrev pub reconciliation_issue_row : Row ReconciliationIssue
reconciliation_issue_row = record { key = λ i. i.id }
