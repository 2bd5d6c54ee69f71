-- ===== src/Reconciliation.antt =====
-- modules/reconciliation/reconciliation.service.ts.
pub mod Totals
pub mod Sums
pub mod Clean
pub mod Runs
use distributed_ledger_and_t.Prelude.{
  ℕ, suc, ℤ, pos, ◌+ℤ◌, ◌-ℤ◌, eqb_ℤ, Bool, true, false, Option, none, some, List, [], ◌∷◌, ◌++◌,
  map, not, ◌||◌, ◌&&◌, eqb, option_eqb, filter, length, has_row, update_row, ⊤, if◌then◌else◌, ltb,
}
use distributed_ledger_and_t.Common.Exceptions.{Exception}
use distributed_ledger_and_t.Common.Number.{round}
use distributed_ledger_and_t.Entities.{
  Uuid, Time, Account, LedgerEntry, LedgerEntryType, ReconciliationRun, ReconciliationRunStatus,
  ReconciliationIssue, ReconciliationIssueType, account_balance_mismatch, unbalanced_transaction,
  reconciliation_run_row, reconciliation_issue_row,
}
use distributed_ledger_and_t.Database.{
  World, Env, Action, pure, statement, in_transaction, try_catch, finally, read_clock, ◌>>=◌, ◌>>◌,
}

-- CASE WHEN 'credit' THEN amount WHEN 'debit' THEN -amount
abbrev pub signed : LedgerEntryType → ℤ → ℤ
signed LedgerEntryType.credit amount = amount
signed LedgerEntryType.debit amount = pos 0 -ℤ amount

-- CASE WHEN 'debit' THEN amount ELSE 0, and the same of 'credit'
abbrev pub debit_amount : LedgerEntryType → ℤ → ℤ
debit_amount LedgerEntryType.debit amount = amount
debit_amount LedgerEntryType.credit amount = pos 0

abbrev pub credit_amount : LedgerEntryType → ℤ → ℤ
credit_amount LedgerEntryType.debit amount = pos 0
credit_amount LedgerEntryType.credit amount = amount

-- The sum of the signed amounts of the entries that the account is joined with.
unfoldable pub ledger_balance : Uuid → List LedgerEntry → ℤ
ledger_balance account_id [] = pos 0
ledger_balance account_id (e ∷ es) =
    (if option_eqb e.account_id account_id then signed e.entry_type e.amount else pos 0)
    +ℤ ledger_balance account_id es

unfoldable pub debit_total : Uuid → List LedgerEntry → ℤ
debit_total transaction_id [] = pos 0
debit_total transaction_id (e ∷ es) =
    (if eqb e.transaction_id transaction_id then debit_amount e.entry_type e.amount else pos 0)
    +ℤ debit_total transaction_id es

unfoldable pub credit_total : Uuid → List LedgerEntry → ℤ
credit_total transaction_id [] = pos 0
credit_total transaction_id (e ∷ es) =
    (if eqb e.transaction_id transaction_id then credit_amount e.entry_type e.amount else pos 0)
    +ℤ credit_total transaction_id es

-- HAVING … <> a.balance
unfoldable pub is_mismatched : List LedgerEntry → Account → Bool
is_mismatched entries a = not (eqb_ℤ (ledger_balance a.id entries) a.balance)

unfoldable pub find_account_balance_mismatches :
    List Account → List LedgerEntry → List ReconciliationIssueType
unfolding is_mismatched
find_account_balance_mismatches accounts entries =
    map (λ a. account_balance_mismatch a.id (round a.balance) (round (ledger_balance a.id entries)))
      (filter (is_mismatched entries) accounts)

abbrev pub is_member : Uuid → List Uuid → Bool
is_member k [] = false
is_member k (id ∷ ids) = eqb id k || is_member k ids

-- GROUP BY le.transaction_id
unfoldable pub transaction_groups : List LedgerEntry → List Uuid
transaction_groups [] = []
transaction_groups (e ∷ es) =
    let groups = transaction_groups es in
    if is_member e.transaction_id groups then groups else e.transaction_id ∷ groups

unfoldable pub is_unbalanced : List LedgerEntry → Uuid → Bool
is_unbalanced entries transaction_id =
    not (eqb_ℤ (debit_total transaction_id entries) (credit_total transaction_id entries))

unfoldable pub find_unbalanced_transactions : List LedgerEntry → List ReconciliationIssueType
unfolding is_unbalanced
find_unbalanced_transactions entries =
    map
      (λ t.
        unbalanced_transaction t (round (debit_total t entries)) (round (credit_total t entries)))
      (filter (is_unbalanced entries) (transaction_groups entries))

-- Both queries, the account mismatches first.
unfoldable pub find_issues : Env → Action (List ReconciliationIssueType)
find_issues env = do
  account_mismatches ←
      λ w. statement env false (find_account_balance_mismatches w.accounts w.ledger_entries) w.db w
  unbalanced_transactions ←
      λ w. statement env false (find_unbalanced_transactions w.ledger_entries) w.db w
  pure (account_mismatches ++ unbalanced_transactions)

abbrev pub reference_of : ReconciliationIssueType → Uuid
reference_of (account_balance_mismatch account_id _ _) = account_id
reference_of (unbalanced_transaction transaction_id _ _) = transaction_id

unfoldable pub insert_issue : Env → Uuid → ReconciliationIssueType → Action ReconciliationIssue
insert_issue env run_id issue w =
    let row : ReconciliationIssue = record {
      id = env.gen_random_uuid w.step;
      run_id = run_id;
      issue_type = issue;
      reference_id = some (reference_of issue);
      created_at = env.db_now w.step;
    } in
    statement env (has_row row.id w.reconciliation_issues) row
      (record w.db { reconciliation_issues = w.reconciliation_issues ++ row ∷ [] }) w

unfoldable pub insert_issues : Env → Uuid → List ReconciliationIssueType → Action ⊤
insert_issues env run_id [] = pure tt
insert_issues env run_id (i ∷ is) = do insert_issue env run_id i; insert_issues env run_id is

-- `issuesRepository.save(issues)`: an array is saved in one transaction, and not at all if empty.
unfoldable pub save_issues : Env → Uuid → List ReconciliationIssueType → Action ⊤
save_issues env run_id [] = pure tt
save_issues env run_id (i ∷ is) = in_transaction (insert_issues env run_id (i ∷ is))

unfoldable pub insert_run : Env → Time → Action ReconciliationRun
insert_run env started_at w =
    let row : ReconciliationRun = record {
      id = env.gen_random_uuid w.step;
      status = ReconciliationRunStatus.completed;
      total_issues = 0;
      error_message = none;
      started_at = started_at;
      completed_at = none;
      created_at = env.db_now w.step;
    } in
    statement env (has_row row.id w.reconciliation_runs) row
      (record w.db { reconciliation_runs = w.reconciliation_runs ++ row ∷ [] }) w

unfoldable pub update_run : Env → Uuid → (ReconciliationRun → ReconciliationRun) → Action ⊤
update_run env run_id change w =
    statement env false tt
      (record w.db { reconciliation_runs = update_row run_id change w.reconciliation_runs }) w

pub data ReconciliationResult : Type 0 where
  skipped : ReconciliationResult
  finished : Uuid → ReconciliationRunStatus → ℕ → ReconciliationResult

abbrev pub set_running : Bool → World → World
set_running b w = record w { reconciliation_running = b }

-- The body of the `try` block.
unfoldable pub reconcile : Env → ReconciliationRun → Action ReconciliationResult
reconcile env run = do
  issues ← find_issues env
  save_issues env run.id issues
  completed_at ← read_clock env
  update_run env run.id (λ r. record r {
    status = ReconciliationRunStatus.completed;
    total_issues = length issues;
    completed_at = some completed_at;
  })
  pure (finished run.id ReconciliationRunStatus.completed (length issues))

-- The body of the `catch` block.
unfoldable pub record_failure : Env → ReconciliationRun → Exception → Action ReconciliationResult
record_failure env run e = do
  completed_at ← read_clock env
  update_run env run.id (λ r. record r {
    status = ReconciliationRunStatus.failed;
    error_message = some e;
    completed_at = some completed_at;
  })
  pure (finished run.id ReconciliationRunStatus.failed 0)

-- The run is inserted before the `try` block begins.
unfoldable pub start_run : Env → Action ReconciliationResult
start_run env = do
  started_at ← read_clock env
  run ← insert_run env started_at
  finally (try_catch (reconcile env run) (record_failure env run)) (set_running false)

unfoldable pub run_reconciliation : Env → Action ReconciliationResult
run_reconciliation env w =
    if w.reconciliation_running then (pure skipped w) else start_run env (set_running true w)
