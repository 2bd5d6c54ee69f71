-- ===== src/Tests/Bank.antt =====
-- Requests against the bank that they are to keep, at concrete requests.
use distributed_ledger_and_t.Prelude.{List, [], ◌∷◌, pos, ◌+ℤ◌, none, some, ◌≡◌, refl, arith}
use distributed_ledger_and_t.Transactions.{DepositDto, TransferDto, transfer}
use distributed_ledger_and_t.Accounting.Requests.{
  deposit_request, withdraw_request, transfer_request, serve, Request,
}
use distributed_ledger_and_t.Accounting.Bank.{
  Serves, view, observe, settle, transfer_between, holding,
}
use distributed_ledger_and_t.Accounting.ServeRefinement.{answers, serve_refines}
use distributed_ledger_and_t.Accounting.TransferRefinement.{transfer-refines}
use distributed_ledger_and_t.Tests.Books.{calm, alice, bob, opened, books-IsSound, calm-IsQuiet}

abbrev pay_in : DepositDto
pay_in = record { account_id = 1; amount = pos 30; currency = "USD"; description = none }

-- More than the account holds.
abbrev draw_all : DepositDto
draw_all = record { account_id = 2; amount = pos 60; currency = "USD"; description = none }

abbrev pay_over : TransferDto
pay_over = record {
  from_account_id = 1;
  to_account_id = 2;
  amount = pos 120;
  currency = "USD";
  description = none;
}

abbrev three_requests : List Request
three_requests = deposit_request pay_in ∷ withdraw_request draw_all ∷ transfer_request pay_over ∷ []

serve_refines_example :
    Serves
      (view opened.accounts)
      three_requests
      (answers calm three_requests opened)
      (view (serve calm three_requests opened).accounts)
unfolding ◌+ℤ◌
serve_refines_example =
    serve_refines calm three_requests opened (omega arith, (omega arith, (omega arith, tt)))
      calm-IsQuiet books-IsSound (omega arith)

transfer-refines_example :
    observe (transfer calm pay_over opened)
    ≡ settle (view opened.accounts) (
        transfer_between pay_over
          (view opened.accounts)
          (some (holding alice))
          (some (holding bob)))
unfolding ◌+ℤ◌
transfer-refines_example =
    transfer-refines calm pay_over opened calm-IsQuiet books-IsSound (omega arith) refl
      (omega arith)
