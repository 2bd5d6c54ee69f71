-- ===== src/Tests/Runs.antt =====
-- Reconciliation runs, over sound books and with a failing insertion.
use distributed_ledger_and_t.Prelude.{false, [], ◌∷◌, ◌≡◌, ◌↔◌, refl, All, eqb, ◌-ℤ◌}
use distributed_ledger_and_t.Common.Exceptions.{ok, err, query_failed}
use distributed_ledger_and_t.Entities.{Uuid, Account, ReconciliationRunStatus, LedgerEntryType}
use distributed_ledger_and_t.Database.{Env}
use distributed_ledger_and_t.Reconciliation.{
  find_account_balance_mismatches, find_unbalanced_transactions, run_reconciliation, finished,
  skipped,
}
use distributed_ledger_and_t.Reconciliation.Sums.{sum_of, on_account, within_transaction}
use distributed_ledger_and_t.Reconciliation.Clean.{
  account_mismatches_exact, unbalanced_transactions_exact,
}
use distributed_ledger_and_t.Reconciliation.Runs.{
  run_reconciliation_clean, run_reconciliation_stuck,
}
use distributed_ledger_and_t.Tests.Books.{calm, alice, carol, entries, opened, books-IsSound}

-- The insertion of the run fails.
abbrev refusing : Env
refusing = record calm { fault = λ n. eqb n 1 }

account_mismatches_exact_example :
    (find_account_balance_mismatches (alice ∷ carol ∷ []) entries ≡ [])
    ↔ All
        (λ (a : Account).
          a.balance
          ≡ sum_of (on_account a.id LedgerEntryType.credit) entries
            -ℤ sum_of (on_account a.id LedgerEntryType.debit) entries)
        (alice ∷ carol ∷ [])
account_mismatches_exact_example = account_mismatches_exact (alice ∷ carol ∷ []) entries

unbalanced_transactions_exact_example : (find_unbalanced_transactions entries ≡ []) ↔ (
    (t : Uuid)
    → sum_of (within_transaction t LedgerEntryType.debit) entries
      ≡ sum_of (within_transaction t LedgerEntryType.credit) entries)
unbalanced_transactions_exact_example = unbalanced_transactions_exact entries

run_reconciliation_clean_example :
    ((run_reconciliation calm opened).0 ≡ ok (finished 1001 ReconciliationRunStatus.completed 0))
    × ((run_reconciliation calm opened).1.reconciliation_running ≡ false)
    × ((run_reconciliation calm opened).1.reconciliation_issues ≡ [])
run_reconciliation_clean_example =
    run_reconciliation_clean calm opened books-IsSound (λ n. refl) refl refl

run_reconciliation_stuck_example :
    let v = (run_reconciliation refusing opened).1 in
    ((run_reconciliation refusing opened).0 ≡ err query_failed)
    × ((later : Env) → run_reconciliation later v ≡ (ok skipped, v))
run_reconciliation_stuck_example = run_reconciliation_stuck refusing opened refl refl
