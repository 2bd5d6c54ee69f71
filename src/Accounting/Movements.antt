-- ===== src/Accounting/Movements.antt =====
-- deposit, withdraw and transfer of modules/transactions/transactions.service.ts that return.
use mathlib.Core.Path.{subst₂}
use distributed_ledger_and_t.Prelude.{
  ℕ, ℤ, pos, ◌+ℤ◌, ◌-ℤ◌, ◌≤ℤ◌, int_laws, +ℤ_assoc, some, List, [], ◌∷◌, ◌≡◌, refl, sym, map,
  find_row, find_row-key, save_row, eqb_self, subst, ap, ◌∙◌,
}
use distributed_ledger_and_t.Common.Number.{max_safe_integer, add_number, sub_number}
use distributed_ledger_and_t.Entities.{
  Uuid, Time, Account, Transaction, LedgerEntry, OutboxEvent, account_row,
}
use distributed_ledger_and_t.Database.{World, Env}
use distributed_ledger_and_t.Database.Ensures.{Ensures}
use distributed_ledger_and_t.Ledger.{EntryInput}
use distributed_ledger_and_t.Transactions.{
  Draft, DepositDto, TransferDto, deposit, withdraw, transfer, to_transaction_response, save_rows,
  deposit_draft, deposit_accounts, deposit_entries, withdraw_draft, withdraw_accounts,
  withdraw_entries, transfer_draft, transfer_accounts, transfer_entries, stamp,
}
use distributed_ledger_and_t.Transactions.Posting.{IsPosting, to_transaction_response-Shows, posted}
use distributed_ledger_and_t.Transactions.Guards.{
  locking, locked_by, deposit-Ensures, withdraw-Ensures, transfer-Ensures,
}
use distributed_ledger_and_t.Accounting.{balance_of, total_balance, IsSound}
use distributed_ledger_and_t.Accounting.Expected.{IsMovement, IsDeposit, IsWithdrawal, IsTransfer}
use distributed_ledger_and_t.Accounting.Effects.{
  moved, balance_of-at, own_id, deposit_moves, withdraw_moves, transfer_moves, deposit_exact,
  withdraw_exact, debit_exact, credit_exact, found_after_debit,
}
use distributed_ledger_and_t.Accounting.Soundness.{ids_differ, credited}
use distributed_ledger_and_t.Accounting.Totals.{total_balance-save_row}

-- The total when a balance is set to itself and `delta`.
total_moves :
    (at : Time) (a : Account) (b delta : ℤ) (xs : List Account)
    → find_row a.id xs ≡ some a
    → b ≡ a.balance +ℤ delta
    → total_balance (save_row (stamp at (record a { balance = b })) xs) ≡ total_balance xs +ℤ delta
total_moves at a b delta xs found e =
    cancel _ a.balance (total_balance xs) delta
      (total_balance-save_row at a b xs found ∙ ap (λ x. total_balance xs +ℤ x) e)
  where
    cancel : (t c u d : ℤ) → t +ℤ c ≡ u +ℤ (c +ℤ d) → t ≡ u +ℤ d
    cancel t c u d h = put_back t c ∙ ap (λ x. x -ℤ c) h ∙ take_away u c d
      where
        put_back : (t c : ℤ) → t ≡ t +ℤ c -ℤ c
        put_back t c = omega int_laws

        take_away : (u c d : ℤ) → u +ℤ (c +ℤ d) -ℤ c ≡ u +ℤ d
        take_away u c d = omega int_laws

back_again : (t x : ℤ) → t +ℤ (pos 0 -ℤ x) +ℤ x ≡ t +ℤ pos 0
back_again t x = omega int_laws

posting-IsMovement :
    (d : Draft) (entries : Uuid → List EntryInput) (delta : Uuid → ℤ) (change : ℤ)
    (accounts : List Account) (at : Time) (t : Transaction) (rows : List LedgerEntry)
    (e : OutboxEvent) (n : ℕ) (ids : List Uuid) (w : World)
    → IsPosting d entries w.transactions t rows e
    → ((k : Uuid)
        → balance_of k (save_rows at accounts w.accounts) ≡ balance_of k w.accounts +ℤ delta k)
    → total_balance (save_rows at accounts w.accounts) ≡ total_balance w.accounts +ℤ change
    → IsMovement d entries delta change w
        (to_transaction_response t)
        (posted at accounts t rows e n (locking ids w))
posting-IsMovement d entries delta change accounts at t rows e n ids w p moves total = record {
  transaction = t;
  rows = rows;
  event = e;
  recorded = refl;
  completed = p.completion;
  entered = refl;
  as_asked = p.are_rows;
  announced = refl;
  announces = p.event;
  answered = to_transaction_response-Shows t;
  moves = moves;
  total = total;
  webhook_subscriptions = refl;
  webhook_deliveries = refl;
  reconciliation_runs = refl;
  reconciliation_issues = refl;
}

module _ (env : Env) (dto : DepositDto) (w : World) (s : IsSound w.db)
    (positive : pos 1 ≤ℤ dto.amount) where
  room :
      (a : Account)
      → find_row a.id w.accounts ≡ some a
      → a.id ≡ dto.account_id
      → balance_of dto.account_id w.accounts +ℤ dto.amount ≤ℤ max_safe_integer
      → a.balance +ℤ dto.amount ≤ℤ max_safe_integer
  room a found key small =
      subst (λ b. b +ℤ dto.amount ≤ℤ max_safe_integer)
        (balance_of-at dto.account_id a w.accounts found (rw key (eqb_self dto.account_id))) small

  -- A deposit that returns has moved its account's balance and the total by exactly its amount.
  pub deposit-IsDeposit :
      balance_of dto.account_id w.accounts +ℤ dto.amount ≤ℤ max_safe_integer
      → Ensures (λ r v. IsDeposit dto w r v) (deposit env dto w)
  deposit-IsDeposit small = deposit-Ensures _ env dto w λ a at t rows e n u p.
      let key = find_row-key dto.account_id w.accounts u.found in
      let found = own_id dto.account_id a w.accounts u.found in
      subst
        (λ id.
          IsMovement (deposit_draft dto id) (deposit_entries dto id) (moved id dto.amount)
            dto.amount w (to_transaction_response t)
            (posted at (deposit_accounts dto a) t rows e n (locking (dto.account_id ∷ []) w)))
        key
        (posting-IsMovement (deposit_draft dto a.id) (deposit_entries dto a.id)
          (moved a.id dto.amount) dto.amount (deposit_accounts dto a) at t rows e n _ w p
          (λ k. deposit_moves dto a w at s found positive k (room a found key small))
          (total_moves at a (add_number a.balance dto.amount) dto.amount w.accounts found
            (deposit_exact dto a w at s found positive (room a found key small))))

  -- A withdrawal that returns was covered, and has moved its account's balance and the total by
  -- exactly its amount.
  pub withdraw-IsWithdrawal :
      Ensures
        (λ r v. (dto.amount ≤ℤ balance_of dto.account_id w.accounts) × IsWithdrawal dto w r v)
        (withdraw env dto w)
  withdraw-IsWithdrawal = withdraw-Ensures _ env dto w λ a at t rows e n u enough p.
      let key = find_row-key dto.account_id w.accounts u.found in
      let found = own_id dto.account_id a w.accounts u.found in
      let delta = pos 0 -ℤ dto.amount in
      (
        subst (λ b. dto.amount ≤ℤ b)
            (sym
              (balance_of-at dto.account_id a w.accounts found (rw key (eqb_self dto.account_id))))
            enough,
        subst
            (λ id.
              IsMovement (withdraw_draft dto id) (withdraw_entries dto id) (moved id delta) delta w
                (to_transaction_response t)
                (posted at (withdraw_accounts dto a) t rows e n (locking (dto.account_id ∷ []) w)))
            key
            (posting-IsMovement (withdraw_draft dto a.id) (withdraw_entries dto a.id)
              (moved a.id delta) delta (withdraw_accounts dto a) at t rows e n _ w p
              (λ k. withdraw_moves dto a w at s found positive k enough)
              (total_moves at a (sub_number a.balance dto.amount) delta w.accounts found
                (withdraw_exact dto a w at s found positive enough))),
      )

module _ (env : Env) (dto : TransferDto) (w : World) (s : IsSound w.db)
    (positive : pos 1 ≤ℤ dto.amount) where
  -- Over sound books, in any environment, a transfer of at least 1 that returns, the two balances
  -- together at most 2^53 - 1, was covered by the sender, and did what IsTransfer says: the one completed
  -- transaction from the sender to the receiver, its debit entry for the one and credit entry for the
  -- other, the event and the answer that show it, and the moves of the balances.
  pub transfer-IsTransfer :
      balance_of dto.from_account_id w.accounts +ℤ balance_of dto.to_account_id w.accounts
        ≤ℤ max_safe_integer
      → Ensures
          (λ r v. (dto.amount ≤ℤ balance_of dto.from_account_id w.accounts) × IsTransfer dto w r v)
          (transfer env dto w)
  transfer-IsTransfer small = transfer-Ensures _ env dto w λ a b at t rows e n differ u v enough p.
      let key_a = find_row-key dto.from_account_id w.accounts u.found in
      let key_b = find_row-key dto.to_account_id w.accounts v.found in
      let found_a = own_id dto.from_account_id a w.accounts u.found in
      let found_b = own_id dto.to_account_id b w.accounts v.found in
      let shown_a = balance_of-at a.id a w.accounts found_a (eqb_self a.id) in
      let shown_b = balance_of-at b.id b w.accounts found_b (eqb_self b.id) in
      let differ' = ids_differ a b dto w u.found v.found differ in
      let room : b.balance +ℤ dto.amount ≤ℤ max_safe_integer =
        subst (λ x. x +ℤ dto.amount ≤ℤ max_safe_integer) shown_b
          (credited dto a b w shown_a shown_b enough key_a key_b small) in
      let debit = pos 0 -ℤ dto.amount in
      (
        subst (λ x. dto.amount ≤ℤ x)
            (sym (
              balance_of-at dto.from_account_id a w.accounts found_a
                (rw key_a (eqb_self dto.from_account_id))))
            enough,
        subst₂
            (λ i j.
              IsMovement (transfer_draft dto i j) (transfer_entries dto i j)
                (λ k. moved i debit k +ℤ moved j dto.amount k) (pos 0) w (to_transaction_response t)
                (posted at (transfer_accounts dto a b) t rows e n
                  (locking (map (λ c. c.id) (locked_by dto w)) w)))
            key_a key_b
            (posting-IsMovement (transfer_draft dto a.id b.id) (transfer_entries dto a.id b.id)
              (λ k. moved a.id debit k +ℤ moved b.id dto.amount k) (pos 0)
              (transfer_accounts dto a b) at t rows e n _ w p
              (λ k.
                transfer_moves dto a b w at s found_a found_b positive enough k differ' room
                ∙ +ℤ_assoc (balance_of k w.accounts) (moved a.id debit k) (moved b.id dto.amount k))
              (total_moves at b (add_number b.balance dto.amount) dto.amount _
                  (found_after_debit dto a b w at s found_a found_b positive enough differ')
                  (credit_exact dto a b w at s found_a found_b positive enough room)
                ∙ ap (λ x. x +ℤ dto.amount)
                    (total_moves at a (sub_number a.balance dto.amount) debit w.accounts found_a
                      (debit_exact dto a b w at s found_a found_b positive enough))
                ∙ back_again (total_balance w.accounts) dto.amount)),
      )
