-- ===== src/Reconciliation/Runs.antt =====
-- The runs of `runReconciliation` in modules/reconciliation/reconciliation.service.ts.
use distributed_ledger_and_t.Prelude.{
  ℕ, suc, ℤ, pos, ◌+ℤ◌, ◌≤ℤ◌, int_laws, true, false, List, [], ◌≡◌, refl, sym, arith, has_row, All,
  All-find_row, subst, ap, ◌∙◌, find_row-key,
}
use distributed_ledger_and_t.Common.Exceptions.{ok, err, query_failed}
use distributed_ledger_and_t.Entities.{
  Account, ReconciliationRunStatus, account_row, reconciliation_run_row,
}
use distributed_ledger_and_t.Database.{Db, empty_db, World, Env, try_catch, finally, ◌>>=◌}
use distributed_ledger_and_t.Reconciliation.{
  ledger_balance, debit_total, credit_total, find_account_balance_mismatches,
  find_unbalanced_transactions, find_issues, save_issues, insert_run, update_run, reconcile,
  start_run, run_reconciliation, finished, skipped,
}
use distributed_ledger_and_t.Reconciliation.Clean.{no_mismatch_exact, no_imbalance_exact}
use distributed_ledger_and_t.Common.Number.{max_safe_integer}
use distributed_ledger_and_t.Accounting.{shown_balance, total_balance, IsSound}
use distributed_ledger_and_t.Accounting.Requests.{
  Request, IsValid, serve, deposit_amounts, serve-IsSound,
}

empty_db-IsSound : IsSound empty_db
unfolding ledger_balance debit_total credit_total
empty_db-IsSound = record {
  accounts_distinct = tt;
  transactions_distinct = tt;
  nonneg = λ k. omega arith;
  safe = λ k. omega arith;
  matches = λ k. refl;
  balanced = λ t. refl;
}

from_zero : (x : ℤ) → x ≤ℤ max_safe_integer → pos 0 +ℤ x ≤ℤ max_safe_integer
from_zero x h = omega int_laws

pub no_account_mismatches :
    (db : Db) → IsSound db → find_account_balance_mismatches db.accounts db.ledger_entries ≡ []
no_account_mismatches db s = (no_mismatch_exact db.accounts db.ledger_entries).1 (
    All-find_row (λ (a : Account). ledger_balance a.id db.ledger_entries ≡ a.balance) db.accounts
      (λ k a found.
        subst (λ id. ledger_balance id db.ledger_entries ≡ a.balance)
          (sym (find_row-key k db.accounts found)) (sym (s.matches k) ∙ ap shown_balance found))
      s.accounts_distinct)

pub no_unbalanced_transactions :
    (db : Db) → IsSound db → find_unbalanced_transactions db.ledger_entries ≡ []
no_unbalanced_transactions db s = (no_imbalance_exact db.ledger_entries).1 s.balanced

-- Whatever creations of accounts, deposits, withdrawals and transfers are served from an empty
-- database, whatever the environment and the answers: if every amount is at least 1 and all deposits
-- together are at most 2^53 - 1, both queries of reconciliation find nothing.
pub serve_reconciles :
    (env : Env) (rs : List Request) (w : World)
    → w.db ≡ empty_db
    → All IsValid rs
    → deposit_amounts rs ≤ℤ max_safe_integer
    → (find_account_balance_mismatches (serve env rs w).accounts (serve env rs w).ledger_entries
        ≡ [])
      × (find_unbalanced_transactions (serve env rs w).ledger_entries ≡ [])
serve_reconciles env rs w start valid small =
    let sound = serve-IsSound env rs w valid (subst IsSound (sym start) empty_db-IsSound) (
      subst (λ db. total_balance db.accounts +ℤ deposit_amounts rs ≤ℤ max_safe_integer) (sym start)
        (from_zero (deposit_amounts rs) small)) in
    (
      no_account_mismatches (serve env rs w).db sound,
      no_unbalanced_transactions (serve env rs w).db sound,
    )

-- Over sound books, with no failing statement, a fresh uuid for the run and no run active, a run
-- returns as completed with no issue, writes no issue, and is no longer marked as active.
pub run_reconciliation_clean :
    (env : Env) (w : World)
    → IsSound w.db
    → ((n : ℕ) → env.fault n ≡ false)
    → w.reconciliation_running ≡ false
    → has_row (env.gen_random_uuid (suc w.step)) w.reconciliation_runs ≡ false
    → ((run_reconciliation env w).0
        ≡ ok (finished (env.gen_random_uuid (suc w.step)) ReconciliationRunStatus.completed 0))
      × ((run_reconciliation env w).1.reconciliation_running ≡ false)
      × ((run_reconciliation env w).1.reconciliation_issues ≡ w.reconciliation_issues)
unfolding run_reconciliation start_run insert_run finally try_catch reconcile find_issues
    save_issues update_run ◌>>=◌
run_reconciliation_clean env w s quiet idle fresh =
    simp (idle, quiet, fresh, no_account_mismatches w.db s, no_unbalanced_transactions w.db s)
      (refl, refl, refl)

-- With no run active, if the insertion of the run fails, the call throws and leaves a state in which
-- every next call, in whatever environment, is skipped and changes nothing.
pub run_reconciliation_stuck :
    (env : Env) (w : World)
    → w.reconciliation_running ≡ false
    → env.fault (suc w.step) ≡ true
    → let v = (run_reconciliation env w).1 in
      ((run_reconciliation env w).0 ≡ err query_failed)
      × ((later : Env) → run_reconciliation later v ≡ (ok skipped, v))
unfolding run_reconciliation start_run insert_run ◌>>=◌
run_reconciliation_stuck env w idle failing = ground arith
