-- ===== src/Accounting/Effects.antt =====
-- The balances under each operation of modules/transactions/transactions.service.ts.
use distributed_ledger_and_t.Prelude.{
  ℕ, ℤ, pos, ◌+ℤ◌, ◌-ℤ◌, ◌≤ℤ◌, int_laws, true, false, some, List, ◌≡◌, sym, arith, find_row,
  find_row-key, find_row-save_row, save_row, append-Distinct, Distinct, ap, eqb, eqb-eq, eqb_self,
  subst, ◌∙◌, if◌then◌else◌, Bool-cases, inl, inr,
}
use distributed_ledger_and_t.Common.Number.{
  max_safe_integer, add_number, sub_number, add_number-safe, sub_number-safe,
}
use distributed_ledger_and_t.Entities.{
  Uuid, Time, Account, Transaction, LedgerEntry, OutboxEvent, account_row, transaction_row,
}
use distributed_ledger_and_t.Database.{Db, World}
use distributed_ledger_and_t.Ledger.{EntryInput}
use distributed_ledger_and_t.Reconciliation.Totals.{
  ledger_balance-append, debit_total-append, credit_total-append, ledger_balance-rows,
  debit_total-rows, credit_total-rows, input_balance, input_debits, input_credits,
}
use distributed_ledger_and_t.Transactions.{deposit_accounts, withdraw_accounts, transfer_accounts}
use distributed_ledger_and_t.Transactions.{Draft, DepositDto, TransferDto, stamp, save_rows}
use distributed_ledger_and_t.Transactions.Posting.{IsPosting, posted}
use distributed_ledger_and_t.Accounting.{balance_of, shown_balance, IsSound}

-- The books after a posting whose entries move the balances as its accounts do.
pub posting-IsSound :
    (d : Draft) (accounts : List Account) (entries : Uuid → List EntryInput) (at : Time)
    (t : Transaction) (rows : List LedgerEntry) (e : OutboxEvent) (n : ℕ) (w : World)
    → IsSound w.db
    → IsPosting d entries w.transactions t rows e
    → Distinct (save_rows at accounts w.accounts)
    → ((k : Uuid)
        → balance_of k (save_rows at accounts w.accounts)
          ≡ balance_of k w.accounts +ℤ input_balance k (entries t.id))
    → ((k : Uuid) → pos 0 ≤ℤ balance_of k (save_rows at accounts w.accounts))
    → ((k : Uuid) → balance_of k (save_rows at accounts w.accounts) ≤ℤ max_safe_integer)
    → ((k : Uuid) → input_debits k (entries t.id) ≡ input_credits k (entries t.id))
    → IsSound (posted at accounts t rows e n w).db
posting-IsSound d accounts entries at t rows e n w s p distinct moves nonneg safe balances =
    record {
      accounts_distinct = distinct;
      transactions_distinct = append-Distinct w.transactions t p.fresh s.transactions_distinct;
      nonneg = nonneg;
      safe = safe;
      matches = λ k. rw (
        moves k,
        ledger_balance-append k w.ledger_entries rows,
        ledger_balance-rows k (entries t.id) rows p.are_rows,
        s.matches k,
      );
      balanced = λ k. rw (
        debit_total-append k w.ledger_entries rows,
        debit_total-rows k (entries t.id) rows p.are_rows,
        credit_total-append k w.ledger_entries rows,
        credit_total-rows k (entries t.id) rows p.are_rows,
        s.balanced k,
        balances k,
      );
    }

-- A new balance of one account.
balance_of-save_row :
    (k : Uuid) (at : Time) (a : Account) (b : ℤ) (accounts : List Account)
    → find_row a.id accounts ≡ some a
    → balance_of k (save_row (stamp at (record a { balance = b })) accounts)
      ≡ (if eqb a.id k then b else balance_of k accounts)
balance_of-save_row k at a b accounts found =
    ground (arith, find_row-save_row k (stamp at (record a { balance = b })) accounts)

pub sub_as_add : (a b : ℤ) → a -ℤ b ≡ a +ℤ (pos 0 -ℤ b)
sub_as_add a b = omega int_laws

-- How an id's balance moves when account `id` is given `delta`.
abbrev pub moved : Uuid → ℤ → Uuid → ℤ
moved id delta k = if eqb id k then delta else pos 0

pub balance_of-at :
    (k : Uuid) (a : Account) (accounts : List Account)
    → find_row a.id accounts ≡ some a
    → eqb a.id k ≡ true
    → balance_of k accounts ≡ a.balance
balance_of-at k a accounts found same =
    ap shown_balance (subst (λ id. find_row id accounts ≡ some a) (eqb-eq a.id k same) found)

one_moves :
    (k : Uuid) (at : Time) (a : Account) (b delta : ℤ) (accounts : List Account)
    → find_row a.id accounts ≡ some a
    → b ≡ a.balance +ℤ delta
    → balance_of k (save_row (stamp at (record a { balance = b })) accounts)
      ≡ balance_of k accounts +ℤ moved a.id delta k
one_moves k at a b delta accounts found e = elim (Bool-cases (eqb a.id k)) [
  | inl same ↦
      rw (
        balance_of-save_row k at a b accounts found,
        same,
        e,
        balance_of-at k a accounts found same,
      )
  | inr other ↦ rw (balance_of-save_row k at a b accounts found, other) (omega int_laws)
]

-- The row that a request found stands under its own id.
pub own_id :
    (k : Uuid) (a : Account) (accounts : List Account)
    → find_row k accounts ≡ some a
    → find_row a.id accounts ≡ some a
own_id k a accounts found =
    subst (λ id. find_row id accounts ≡ some a) (sym (find_row-key k accounts found)) found

pub account_bounds :
    (a : Account) (db : Db)
    → IsSound db
    → find_row a.id db.accounts ≡ some a
    → (pos 0 ≤ℤ a.balance) × (a.balance ≤ℤ max_safe_integer)
account_bounds a db s found = (
  subst (λ b. pos 0 ≤ℤ b) (balance_of-at a.id a db.accounts found (eqb_self a.id)) (s.nonneg a.id),
  subst (λ b. b ≤ℤ max_safe_integer) (balance_of-at a.id a db.accounts found (eqb_self a.id))
      (s.safe a.id),
)

module _ (dto : DepositDto) (a : Account) (w : World) (at : Time) (s : IsSound w.db)
    (found : find_row a.id w.accounts ≡ some a) (positive : pos 1 ≤ℤ dto.amount) where
  pub deposit_exact :
      a.balance +ℤ dto.amount ≤ℤ max_safe_integer
      → add_number a.balance dto.amount ≡ a.balance +ℤ dto.amount
  deposit_exact small =
      let bounds = account_bounds a w.db s found in
      add_number-safe a.balance dto.amount (omega int_laws) small

  pub withdraw_exact :
      dto.amount ≤ℤ a.balance → sub_number a.balance dto.amount ≡ a.balance +ℤ (pos 0 -ℤ dto.amount)
  withdraw_exact enough =
      let bounds = account_bounds a w.db s found in
      sub_number-safe a.balance dto.amount (omega int_laws) (omega int_laws)
      ∙ sub_as_add a.balance dto.amount

  pub deposit_moves :
      (k : Uuid)
      → a.balance +ℤ dto.amount ≤ℤ max_safe_integer
      → balance_of k (save_rows at (deposit_accounts dto a) w.accounts)
        ≡ balance_of k w.accounts +ℤ moved a.id dto.amount k
  deposit_moves k small =
      one_moves k at a (add_number a.balance dto.amount) dto.amount w.accounts found
        (deposit_exact small)

  pub withdraw_moves :
      (k : Uuid)
      → dto.amount ≤ℤ a.balance
      → balance_of k (save_rows at (withdraw_accounts dto a) w.accounts)
        ≡ balance_of k w.accounts +ℤ moved a.id (pos 0 -ℤ dto.amount) k
  withdraw_moves k enough =
      one_moves k at a (sub_number a.balance dto.amount) (pos 0 -ℤ dto.amount) w.accounts found
        (withdraw_exact enough)

module _ (dto : TransferDto) (from_account to_account : Account) (w : World) (at : Time)
    (s : IsSound w.db) (found_from : find_row from_account.id w.accounts ≡ some from_account)
    (found_to : find_row to_account.id w.accounts ≡ some to_account)
    (positive : pos 1 ≤ℤ dto.amount) (enough : dto.amount ≤ℤ from_account.balance) where
  pub debit_exact :
      sub_number from_account.balance dto.amount ≡ from_account.balance +ℤ (pos 0 -ℤ dto.amount)
  debit_exact =
      let bounds = account_bounds from_account w.db s found_from in
      sub_number-safe from_account.balance dto.amount (omega int_laws) (omega int_laws)
      ∙ sub_as_add from_account.balance dto.amount

  pub credit_exact :
      to_account.balance +ℤ dto.amount ≤ℤ max_safe_integer
      → add_number to_account.balance dto.amount ≡ to_account.balance +ℤ dto.amount
  credit_exact small =
      let bounds = account_bounds to_account w.db s found_to in
      add_number-safe to_account.balance dto.amount (omega int_laws) small

  -- The credited account is still found after the debited one was saved.
  pub found_after_debit :
      eqb from_account.id to_account.id ≡ false
      → find_row to_account.id (
          save_row
            (stamp at
              (record from_account { balance = sub_number from_account.balance dto.amount }))
            w.accounts)
        ≡ some to_account
  found_after_debit differ = find_row-save_row to_account.id _ w.accounts ∙ rw differ found_to

  pub transfer_moves :
      (k : Uuid)
      → eqb from_account.id to_account.id ≡ false
      → to_account.balance +ℤ dto.amount ≤ℤ max_safe_integer
      → balance_of k (save_rows at (transfer_accounts dto from_account to_account) w.accounts)
        ≡ balance_of k w.accounts
          +ℤ moved from_account.id (pos 0 -ℤ dto.amount) k
          +ℤ moved to_account.id dto.amount k
  transfer_moves k differ small =
      one_moves k at to_account (add_number to_account.balance dto.amount) dto.amount _
        (found_after_debit differ) (credit_exact small)
      ∙ ap (λ b. b +ℤ moved to_account.id dto.amount k)
          (one_moves k at from_account (sub_number from_account.balance dto.amount)
            (pos 0 -ℤ dto.amount) w.accounts found_from debit_exact)
