-- ===== src/Accounting.antt =====
-- The books as a whole: the balances of modules/accounts against the entries of modules/ledger,
-- under the operations of modules/transactions.
pub mod Effects
pub mod Totals
pub mod Expected
pub mod Movements
pub mod Requests
pub mod Bank
pub mod View
pub mod Refusals
pub mod Refinement
pub mod TransferRefinement
pub mod ServeRefinement
pub mod Soundness
pub mod Success
pub mod TransferSuccess
use distributed_ledger_and_t.Prelude.{
  ℤ, pos, ◌+ℤ◌, ◌≤ℤ◌, Option, none, some, List, [], ◌∷◌, ◌≡◌, find_row, Distinct,
}
use distributed_ledger_and_t.Common.Number.{max_safe_integer}
use distributed_ledger_and_t.Entities.{Uuid, Account, account_row, transaction_row}
use distributed_ledger_and_t.Database.{Db}
use distributed_ledger_and_t.Reconciliation.{ledger_balance, debit_total, credit_total}

-- The balance that the table shows for an id; an id without a row counts as zero.
abbrev pub shown_balance : Option Account → ℤ
shown_balance none = pos 0
shown_balance (some a) = a.balance

abbrev pub balance_of : Uuid → List Account → ℤ
balance_of k accounts = shown_balance (find_row k accounts)

-- All balances together.
abbrev pub total_balance : List Account → ℤ
total_balance [] = pos 0
total_balance (a ∷ as') = a.balance +ℤ total_balance as'

-- The books are sound: primary keys are unique, no balance is negative or too large for a number,
-- every balance is that of the ledger, and the entries of every transaction balance.
pub record IsSound (db : Db) : Type 0 where
  pub accounts_distinct : Distinct db.accounts
  pub transactions_distinct : Distinct db.transactions
  pub nonneg : (k : Uuid) → pos 0 ≤ℤ balance_of k db.accounts
  pub safe : (k : Uuid) → balance_of k db.accounts ≤ℤ max_safe_integer
  pub matches : (k : Uuid) → balance_of k db.accounts ≡ ledger_balance k db.ledger_entries
  pub balanced : (t : Uuid) → debit_total t db.ledger_entries ≡ credit_total t db.ledger_entries
