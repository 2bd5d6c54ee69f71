-- ===== src/Tests/Movements.antt =====
-- Movements of money at concrete requests.
use distributed_ledger_and_t.Prelude.{
  [], ◌∷◌, pos, ◌≤ℤ◌, none, some, ◌≡◌, refl, arith, eqb, ◌+ℤ◌, ◌-ℤ◌,
}
use distributed_ledger_and_t.Common.Exceptions.{err, query_failed}
use distributed_ledger_and_t.Entities.{account_row}
use distributed_ledger_and_t.Common.Number.{round, add_number, sub_number}
use distributed_ledger_and_t.Ledger.{
  create_entries, debits, credits, insert_entries, insert_entry, sum_amounts,
}
use distributed_ledger_and_t.Outbox.{create_transaction_completed_event}
use distributed_ledger_and_t.Database.{Env, ◌>>=◌, in_transaction, throw_if, or_throw}
use distributed_ledger_and_t.Database.Ensures.{Returns, Ensures}
use distributed_ledger_and_t.Transactions.{
  DepositDto, TransferDto, deposit, withdraw, transfer, lock_accounts, assert_active_account,
  assert_currency, assert_sufficient_funds, post, insert_transaction, save_accounts,
  save_transaction, to_transaction_response,
}
use distributed_ledger_and_t.Transactions.LockOrder.{IsAscending, transfer_locks_in_order}
use distributed_ledger_and_t.Accounting.Expected.{IsDeposit, IsWithdrawal, IsTransfer}
use distributed_ledger_and_t.Accounting.Movements.{transfer-IsTransfer}
use distributed_ledger_and_t.Accounting.Success.{deposit_succeeds, withdraw_succeeds}
use distributed_ledger_and_t.Accounting.TransferSuccess.{transfer_succeeds}
use distributed_ledger_and_t.Tests.Books.{
  calm, alice, bob, opened, books-IsSound, calm-IsQuiet, alice-IsUsable, bob-IsUsable,
}

abbrev pay_in : DepositDto
pay_in = record { account_id = 1; amount = pos 30; currency = "USD"; description = none }

abbrev pay_over : TransferDto
pay_over = record {
  from_account_id = 1;
  to_account_id = 2;
  amount = pos 30;
  currency = "USD";
  description = some "rent";
}

abbrev pay_back : TransferDto
pay_back = record {
  from_account_id = 2;
  to_account_id = 1;
  amount = pos 30;
  currency = "USD";
  description = none;
}

-- The connection is lost at the insertion of the second ledger entry.
abbrev broken : Env
broken = record calm { fault = λ n. eqb n 4 }

deposit_succeeds_example : Returns (λ r v. IsDeposit pay_in opened r v) (deposit calm pay_in opened)
unfolding ◌+ℤ◌
deposit_succeeds_example =
    deposit_succeeds calm pay_in opened calm-IsQuiet books-IsSound (omega arith) alice
      alice-IsUsable (omega arith)

withdraw_succeeds_example :
    Returns
      (λ r v. (pos 30 ≤ℤ pos 100) × IsWithdrawal pay_in opened r v)
      (withdraw calm pay_in opened)
unfolding ◌+ℤ◌
withdraw_succeeds_example =
    withdraw_succeeds calm pay_in opened calm-IsQuiet books-IsSound (omega arith) alice
      alice-IsUsable (omega arith)

transfer_succeeds_example :
    Returns
      (λ r v. (pos 30 ≤ℤ pos 100) × IsTransfer pay_over opened r v)
      (transfer calm pay_over opened)
unfolding ◌+ℤ◌
transfer_succeeds_example =
    transfer_succeeds calm pay_over opened calm-IsQuiet books-IsSound (omega arith) alice bob
      alice-IsUsable bob-IsUsable refl (omega arith) (omega arith)

transfer-IsTransfer_example :
    Ensures
      (λ r v. (pos 30 ≤ℤ pos 100) × IsTransfer pay_over opened r v)
      (transfer calm pay_over opened)
unfolding ◌+ℤ◌
transfer-IsTransfer_example =
    transfer-IsTransfer calm pay_over opened books-IsSound (omega arith) (omega arith)

transfer_breaks : (transfer broken pay_over opened).0 ≡ err query_failed
unfolding transfer in_transaction ◌>>=◌ lock_accounts throw_if or_throw assert_active_account
    assert_currency assert_sufficient_funds post insert_transaction save_accounts sub_number
    add_number create_entries debits credits insert_entries round insert_entry sum_amounts
    create_transaction_completed_event ◌+ℤ◌ ◌-ℤ◌ save_transaction to_transaction_response
transfer_breaks = refl

transfer_locks_in_order_example :
    Ensures
      (λ r v. (v.locks ≡ 1 ∷ 2 ∷ []) × IsAscending (1 ∷ 2 ∷ []))
      (transfer calm pay_back opened)
transfer_locks_in_order_example = transfer_locks_in_order calm pay_back opened
