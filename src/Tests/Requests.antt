-- ===== src/Tests/Requests.antt =====
-- A sequence of requests, one of them refused.
use distributed_ledger_and_t.Prelude.{pos, ◌+ℤ◌, none, List, [], ◌∷◌, ◌≡◌, refl, arith}
use distributed_ledger_and_t.Database.{empty_db}
use distributed_ledger_and_t.Reconciliation.{
  find_account_balance_mismatches, find_unbalanced_transactions,
}
use distributed_ledger_and_t.Reconciliation.Runs.{serve_reconciles}
use distributed_ledger_and_t.Accounting.{IsSound}
use distributed_ledger_and_t.Accounting.Requests.{
  Request, create_account_request, deposit_request, withdraw_request, transfer_request, serve,
  serve-IsSound,
}
use distributed_ledger_and_t.Tests.Books.{calm, opened, idle, books-IsSound}

abbrev day : List Request
day =
    create_account_request (record { currency = "USD"; status = none })
    ∷ create_account_request (record { currency = "USD"; status = none })
    ∷ deposit_request
        (record { account_id = 1000; amount = pos 90; currency = "USD"; description = none })
    ∷ transfer_request (record {
      from_account_id = 1000;
      to_account_id = 1001;
      amount = pos 40;
      currency = "USD";
      description = none;
    })
    ∷ withdraw_request
        (record { account_id = 1001; amount = pos 70; currency = "USD"; description = none })
    ∷ []

serve-IsSound_example : IsSound (serve calm day opened).db
unfolding ◌+ℤ◌
serve-IsSound_example =
    serve-IsSound calm day opened (tt, (tt, (omega arith, (omega arith, (omega arith, tt)))))
      books-IsSound (omega arith)

serve_reconciles_example :
    (find_account_balance_mismatches
        (serve calm day (idle empty_db)).accounts
        (serve calm day (idle empty_db)).ledger_entries
      ≡ [])
    × (find_unbalanced_transactions (serve calm day (idle empty_db)).ledger_entries ≡ [])
unfolding ◌+ℤ◌
serve_reconciles_example =
    serve_reconciles calm day (idle empty_db) refl
      (tt, (tt, (omega arith, (omega arith, (omega arith, tt))))) (omega arith)
