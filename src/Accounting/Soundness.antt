-- ===== src/Accounting/Soundness.antt =====
-- The books under each operation of modules/transactions/transactions.service.ts.
use distributed_ledger_and_t.Prelude.{
  ℕ, ℤ, pos, ◌+ℤ◌, ◌-ℤ◌, ◌≤ℤ◌, int_laws, +ℤ_assoc, Bool, true, false, some, List, [], ◌∷◌, ◌≡◌,
  refl, sym, find_row, find_row-key, save_row-Distinct, Distinct, eqb, if◌then◌else◌, Bool-cases,
  inl, inr, subst, ap, ◌∙◌, eqb-eq, eqb_self,
}
use distributed_ledger_and_t.Common.Number.{max_safe_integer}
use distributed_ledger_and_t.Entities.{
  Uuid, Time, Account, Transaction, LedgerEntry, OutboxEvent, account_row,
}
use distributed_ledger_and_t.Database.{World, Env}
use distributed_ledger_and_t.Database.Ensures.{all_or_nothing}
use distributed_ledger_and_t.Reconciliation.Totals.{input_balance, input_debits, input_credits}
use distributed_ledger_and_t.Transactions.{deposit_accounts, withdraw_accounts, transfer_accounts}
use distributed_ledger_and_t.Transactions.{
  Draft, DepositDto, TransferDto, deposit, withdraw, transfer, deposit_draft, deposit_entries,
  withdraw_draft, withdraw_entries, transfer_draft, transfer_entries, stamp, save_rows,
}
use distributed_ledger_and_t.Ledger.{EntryInput}
use distributed_ledger_and_t.Transactions.Posting.{IsPosting, posted}
use distributed_ledger_and_t.Transactions.Guards.{
  deposit-Ensures, withdraw-Ensures, transfer-Ensures,
}
use distributed_ledger_and_t.Transactions.Atomicity.{
  deposit_atomic, withdraw_atomic, transfer_atomic,
}
use distributed_ledger_and_t.Accounting.{balance_of, IsSound}
use distributed_ledger_and_t.Accounting.Effects.{
  posting-IsSound, moved, balance_of-at, own_id, account_bounds, deposit_moves, withdraw_moves,
  transfer_moves,
}

abbrev InRange : ℤ → Type 0
InRange x = (pos 0 ≤ℤ x) × (x ≤ℤ max_safe_integer)

-- A balance that moves by `delta` at one id stays in range, if it does so at that id.
moved_bounds :
    (k id : Uuid) (delta : ℤ) (accounts : List Account)
    → InRange (balance_of k accounts)
    → InRange (balance_of id accounts +ℤ delta)
    → InRange (balance_of k accounts +ℤ moved id delta k)
moved_bounds k id delta accounts before at_id = elim (Bool-cases (eqb id k)) [
  | inl same ↦
      rw same (subst (λ j. InRange (balance_of j accounts +ℤ delta)) (eqb-eq id k same) at_id)
  | inr other ↦ rw other (omega int_laws)
]

-- The two entries of a posting balance, whichever side is the debit.
debit_first :
    (b : Bool) (x : ℤ)
    → (if b then x else pos 0) +ℤ ((if b then pos 0 else pos 0) +ℤ pos 0)
      ≡ (if b then pos 0 else pos 0) +ℤ ((if b then x else pos 0) +ℤ pos 0)
debit_first true x = omega int_laws
debit_first false x = refl

drop_zeros : (x : ℤ) → x ≡ x +ℤ (pos 0 +ℤ pos 0)
drop_zeros x = omega int_laws

save_rows-Distinct :
    (at : Time) (accounts rows : List Account)
    → Distinct rows
    → Distinct (save_rows at accounts rows)
save_rows-Distinct at [] rows d = d
save_rows-Distinct at (a ∷ as') rows d =
    save_rows-Distinct at as' _ (save_row-Distinct (stamp at a) rows d)

-- Soundness after a posting, from the moves that it makes.
from_moves :
    (d : Draft) (accounts : List Account) (entries : Uuid → List EntryInput) (delta : Uuid → ℤ)
    (at : Time) (t : Transaction) (rows : List LedgerEntry) (e : OutboxEvent) (n : ℕ) (w : World)
    → IsSound w.db
    → IsPosting d entries w.transactions t rows e
    → Distinct (save_rows at accounts w.accounts)
    → ((k : Uuid)
        → balance_of k (save_rows at accounts w.accounts) ≡ balance_of k w.accounts +ℤ delta k)
    → ((k : Uuid) → delta k ≡ input_balance k (entries t.id))
    → ((k : Uuid) → InRange (balance_of k w.accounts +ℤ delta k))
    → ((k : Uuid) → input_debits k (entries t.id) ≡ input_credits k (entries t.id))
    → IsSound (posted at accounts t rows e n w).db
from_moves d accounts entries delta at t rows e n w s p distinct moves same range balances =
    posting-IsSound d accounts entries at t rows e n w s p distinct
      (λ k. moves k ∙ ap (λ x. balance_of k w.accounts +ℤ x) (same k))
      (λ k. subst (λ x. pos 0 ≤ℤ x) (sym (moves k)) (range k).0)
      (λ k. subst (λ x. x ≤ℤ max_safe_integer) (sym (moves k)) (range k).1) balances

-- A deposit that leaves a safe integer keeps the books sound, whatever its outcome.
pub deposit-IsSound :
    (env : Env) (dto : DepositDto) (w : World)
    → IsSound w.db
    → pos 1 ≤ℤ dto.amount
    → balance_of dto.account_id w.accounts +ℤ dto.amount ≤ℤ max_safe_integer
    → IsSound (deposit env dto w).1.db
deposit-IsSound env dto w s positive small =
    all_or_nothing IsSound w (deposit env dto w) (deposit_atomic env w dto) s (
      deposit-Ensures _ env dto w λ a at t rows e n u p.
        let found = own_id dto.account_id a w.accounts u.found in
        let key = find_row-key dto.account_id w.accounts u.found in
        let shown = balance_of-at a.id a w.accounts found (eqb_self a.id) in
        let room =
          subst (λ id. balance_of id w.accounts +ℤ dto.amount ≤ℤ max_safe_integer) (sym key)
            small in
        from_moves (deposit_draft dto a.id) (deposit_accounts dto a) (deposit_entries dto a.id)
          (moved a.id dto.amount) at t rows e n w s p
          (save_rows-Distinct at (deposit_accounts dto a) w.accounts s.accounts_distinct)
          (λ k.
            deposit_moves dto a w at s found positive k
              (subst (λ b. b +ℤ dto.amount ≤ℤ max_safe_integer) shown room))
          (λ k. drop_zeros (moved a.id dto.amount k))
          (λ k.
            let lo = s.nonneg a.id in
            moved_bounds k a.id dto.amount w.accounts (s.nonneg k, s.safe k) (omega int_laws, room))
          (λ k. sym (debit_first (eqb t.id k) dto.amount)))

-- A withdrawal keeps the books sound, whatever its outcome.
pub withdraw-IsSound :
    (env : Env) (dto : DepositDto) (w : World)
    → IsSound w.db
    → pos 1 ≤ℤ dto.amount
    → IsSound (withdraw env dto w).1.db
withdraw-IsSound env dto w s positive =
    all_or_nothing IsSound w (withdraw env dto w) (withdraw_atomic env w dto) s (
      withdraw-Ensures _ env dto w λ a at t rows e n u enough p.
        let found = own_id dto.account_id a w.accounts u.found in
        let shown = balance_of-at a.id a w.accounts found (eqb_self a.id) in
        let delta = pos 0 -ℤ dto.amount in
        from_moves (withdraw_draft dto a.id) (withdraw_accounts dto a) (withdraw_entries dto a.id)
          (moved a.id delta) at t rows e n w s p
          (save_rows-Distinct at (withdraw_accounts dto a) w.accounts s.accounts_distinct)
          (λ k. withdraw_moves dto a w at s found positive k enough)
          (λ k. drop_zeros (moved a.id delta k))
          (λ k.
            moved_bounds k a.id delta w.accounts (s.nonneg k, s.safe k)
              (subst (λ b. InRange (b +ℤ delta)) (sym shown)
                (let bounds = account_bounds a w.db s found in omega int_laws)))
          (λ k. debit_first (eqb t.id k) dto.amount))

-- The same for a transfer of `x` between two ids.
transferred_bounds :
    (k from to : Uuid) (x : ℤ) (accounts : List Account)
    → InRange (balance_of k accounts)
    → InRange (balance_of from accounts +ℤ (pos 0 -ℤ x))
    → InRange (balance_of to accounts +ℤ x)
    → InRange (balance_of k accounts +ℤ (moved from (pos 0 -ℤ x) k +ℤ moved to x k))
transferred_bounds k from to x accounts before at_from at_to = elim (Bool-cases (eqb to k)) [
  | inl same ↦ elim (Bool-cases (eqb from k)) [
    | inl both ↦ rw (same, both) (omega int_laws)
    | inr only ↦
        rw (same, only)
          (let here = subst (λ j. InRange (balance_of j accounts +ℤ x)) (eqb-eq to k same) at_to in
            omega int_laws)
  ]
  | inr other ↦
      rw other
        (let here = moved_bounds k from (pos 0 -ℤ x) accounts before at_from in omega int_laws)
]

pub ids_differ :
    (a b : Account) (dto : TransferDto) (w : World)
    → find_row dto.from_account_id w.accounts ≡ some a
    → find_row dto.to_account_id w.accounts ≡ some b
    → eqb dto.from_account_id dto.to_account_id ≡ false
    → eqb a.id b.id ≡ false
ids_differ a b dto w found_a found_b h =
    subst (λ i. eqb i b.id ≡ false) (sym (find_row-key dto.from_account_id w.accounts found_a))
      (subst (λ j. eqb dto.from_account_id j ≡ false)
        (sym (find_row-key dto.to_account_id w.accounts found_b)) h)

-- The credited account has room for what the debited one covers.
pub credited :
    (dto : TransferDto) (a b : Account) (w : World)
    → balance_of a.id w.accounts ≡ a.balance
    → balance_of b.id w.accounts ≡ b.balance
    → dto.amount ≤ℤ a.balance
    → a.id ≡ dto.from_account_id
    → b.id ≡ dto.to_account_id
    → balance_of dto.from_account_id w.accounts +ℤ balance_of dto.to_account_id w.accounts
      ≤ℤ max_safe_integer
    → balance_of b.id w.accounts +ℤ dto.amount ≤ℤ max_safe_integer
credited dto a b w shown_a shown_b enough key_a key_b small =
    let here : balance_of a.id w.accounts +ℤ balance_of b.id w.accounts ≤ℤ max_safe_integer =
      rw (key_a, key_b) small in
    let covered = subst (λ x. dto.amount ≤ℤ x) (sym shown_a) enough in omega int_laws

move_last_zero : (a b : ℤ) → a +ℤ b ≡ a +ℤ (b +ℤ pos 0)
move_last_zero a b = omega int_laws

-- A transfer between accounts whose balances together are a safe integer keeps the books sound,
-- whatever its outcome.
pub transfer-IsSound :
    (env : Env) (dto : TransferDto) (w : World)
    → IsSound w.db
    → pos 1 ≤ℤ dto.amount
    → balance_of dto.from_account_id w.accounts +ℤ balance_of dto.to_account_id w.accounts
      ≤ℤ max_safe_integer
    → IsSound (transfer env dto w).1.db
transfer-IsSound env dto w s positive small =
    all_or_nothing IsSound w (transfer env dto w) (transfer_atomic env w dto) s (
      transfer-Ensures _ env dto w λ a b at t rows e n differ u v enough p.
        let found_a = own_id dto.from_account_id a w.accounts u.found in
        let found_b = own_id dto.to_account_id b w.accounts v.found in
        let differ' = ids_differ a b dto w u.found v.found differ in
        let shown_a = balance_of-at a.id a w.accounts found_a (eqb_self a.id) in
        let shown_b = balance_of-at b.id b w.accounts found_b (eqb_self b.id) in
        let room =
          credited dto a b w shown_a shown_b enough
            (find_row-key dto.from_account_id w.accounts u.found)
            (find_row-key dto.to_account_id w.accounts v.found) small in
        let debit = pos 0 -ℤ dto.amount in
        from_moves (transfer_draft dto a.id b.id) (transfer_accounts dto a b)
          (transfer_entries dto a.id b.id) (λ k. moved a.id debit k +ℤ moved b.id dto.amount k) at t
          rows e n w s p
          (save_rows-Distinct at (transfer_accounts dto a b) w.accounts s.accounts_distinct)
          (λ k.
            transfer_moves dto a b w at s found_a found_b positive enough k differ'
              (subst (λ x. x +ℤ dto.amount ≤ℤ max_safe_integer) shown_b room)
            ∙ +ℤ_assoc (balance_of k w.accounts) (moved a.id debit k) (moved b.id dto.amount k))
          (λ k. move_last_zero (moved a.id debit k) (moved b.id dto.amount k))
          (λ k.
            transferred_bounds k a.id b.id dto.amount w.accounts (s.nonneg k, s.safe k)
              (subst (λ x. InRange (x +ℤ debit)) (sym shown_a)
                (let bounds = account_bounds a w.db s found_a in omega int_laws))
              (let lo = s.nonneg b.id in (omega int_laws, room)))
          (λ k. debit_first (eqb t.id k) dto.amount))
