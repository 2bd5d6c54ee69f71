-- ===== src/Transactions/Guards.antt =====
-- The checks that modules/transactions/transactions.service.ts makes before it writes.
use distributed_ledger_and_t.Prelude.{
  ℕ, ℤ, Bool, true, false, some, List, [], ◌∷◌, ◌++◌, ◌≡◌, refl, sym, arith, not, find_row, eqb,
  eq_iff, str_eq, ◌≤ℤ◌, ltb_ℤ, sort_by, insert_sorted, filter, leb, if◌then◌else◌, String, ⊤, map,
  Bool-cases, inl, inr, ◌∙◌,
}
use distributed_ledger_and_t.Entities.{
  Uuid, Time, Account, Transaction, LedgerEntry, OutboxEvent, TransactionResponse, is_active,
  account_row,
}
use distributed_ledger_and_t.Database.{World, Env}
use distributed_ledger_and_t.Database.Ensures.{
  Ensures, Ensures-bind, Ensures-statement, Ensures-throw_if, Ensures-or_throw,
  Ensures-in_transaction,
}
use distributed_ledger_and_t.Transactions.{deposit_accounts, withdraw_accounts, transfer_accounts}
use distributed_ledger_and_t.Transactions.{
  DepositDto, TransferDto, lock_account, lock_accounts, accounts_by_id, is_in,
  assert_active_account, assert_currency, assert_sufficient_funds, deposit, withdraw, transfer,
  deposit_draft, deposit_entries, withdraw_draft, withdraw_entries, transfer_draft,
  transfer_entries, to_transaction_response,
}
use distributed_ledger_and_t.Transactions.Posting.{IsPosting, posted, post-Ensures}

not-false : (a : Bool) → not a ≡ false → a ≡ true
not-false a h = ground arith

covered : (balance amount : ℤ) → ltb_ℤ balance amount ≡ false → amount ≤ℤ balance
covered balance amount h = ground arith

module _ (P : ⊤ → World → Type 0) (w : World) where
  assert_active_account-Ensures :
      (account : Account)
      → (is_active account.status ≡ true → P tt w)
      → Ensures P (assert_active_account account w)
  unfolding assert_active_account
  assert_active_account-Ensures account k =
      Ensures-throw_if P _ _ w λ passed. k (not-false (is_active account.status) passed)

  assert_currency-Ensures :
      (expected actual : String)
      → (expected ≡ actual → P tt w)
      → Ensures P (assert_currency expected actual w)
  unfolding assert_currency
  assert_currency-Ensures expected actual k =
      Ensures-throw_if P _ _ w
        λ passed. k ((eq_iff expected actual).0 (not-false (str_eq expected actual) passed))

  assert_sufficient_funds-Ensures :
      (balance amount : ℤ)
      → (amount ≤ℤ balance → P tt w)
      → Ensures P (assert_sufficient_funds balance amount w)
  unfolding assert_sufficient_funds
  assert_sufficient_funds-Ensures balance amount k =
      Ensures-throw_if P _ _ w λ passed. k (covered balance amount passed)

-- An account that a request may use: found under the id, active, in the currency of the request.
pub record IsUsable (id : Uuid) (currency : String) (w : World) (account : Account) : Type 0 where
  pub found : find_row id w.accounts ≡ some account
  pub is_active : is_active account.status ≡ true
  pub same_currency : account.currency ≡ currency

-- The state with the row locks that a request took.
abbrev pub locking : List Uuid → World → World
locking ids w = record w { locks = w.locks ++ ids }

-- The first row with an id in a sorted selection is the first with that id in the table.
find_row-insert_sorted :
    (k : Uuid) (a : Account) (xs : List Account)
    → find_row k (insert_sorted (λ a b. leb a.id b.id) a xs)
      ≡ (if eqb a.id k then some a else find_row k xs)
find_row-insert_sorted k a [] = refl
find_row-insert_sorted k a (x ∷ xs) = ground (arith, find_row-insert_sorted k a xs)

find_row-sort_by :
    (k : Uuid) (xs : List Account) → find_row k (sort_by (λ a b. leb a.id b.id) xs) ≡ find_row k xs
find_row-sort_by k [] = refl
find_row-sort_by k (x ∷ xs) =
    rw (find_row-insert_sorted k x (sort_by (λ a b. leb a.id b.id) xs), find_row-sort_by k xs)

find_row-filter :
    (k : Uuid) (ids : List Uuid) (xs : List Account)
    → is_in k ids ≡ true
    → find_row k (filter (λ a. is_in a.id ids) xs) ≡ find_row k xs
find_row-filter k ids [] h = refl
find_row-filter k ids (x ∷ xs) h = ground (arith, find_row-filter k ids xs h)

pub find_row-accounts_by_id :
    (k : Uuid) (ids : List Uuid) (xs : List Account)
    → is_in k ids ≡ true
    → find_row k (accounts_by_id ids xs) ≡ find_row k xs
find_row-accounts_by_id k ids xs h =
    find_row-sort_by k (filter (λ a. is_in a.id ids) xs) ∙ find_row-filter k ids xs h

module _ (P : TransactionResponse → World → Type 0) (env : Env) (dto : DepositDto) (w : World) where
  pub deposit-Ensures :
      ((account : Account) (at : Time) (t : Transaction) (rows : List LedgerEntry) (e : OutboxEvent)
          (n : ℕ)
        → IsUsable dto.account_id dto.currency w account
        → IsPosting
            (deposit_draft dto account.id)
            (deposit_entries dto account.id)
            w.transactions
            t
            rows
            e
        → P
            (to_transaction_response t)
            (posted at (deposit_accounts dto account) t rows e n (locking (dto.account_id ∷ []) w)))
      → Ensures P (deposit env dto w)
  unfolding deposit lock_account
  deposit-Ensures k = Ensures-in_transaction P _ w (
      Ensures-bind P _ _ w (
        Ensures-statement _ env _ _ _ _ λ _. Ensures-bind P _ _ _ (
          Ensures-or_throw _ _ _ _ λ account found. Ensures-bind P _ _ _ (
            assert_active_account-Ensures _ _ account λ is_active. Ensures-bind P _ _ _ (
              assert_currency-Ensures _ _ account.currency dto.currency λ same.
                post-Ensures P env _ _ _ _ λ at t rows e n p.
                  k account at t rows e n
                    (record { found = found; is_active = is_active; same_currency = same }) p)))))

  pub withdraw-Ensures :
      ((account : Account) (at : Time) (t : Transaction) (rows : List LedgerEntry) (e : OutboxEvent)
          (n : ℕ)
        → IsUsable dto.account_id dto.currency w account
        → dto.amount ≤ℤ account.balance
        → IsPosting
            (withdraw_draft dto account.id)
            (withdraw_entries dto account.id)
            w.transactions
            t
            rows
            e
        → P (to_transaction_response t) (
            posted at (withdraw_accounts dto account) t rows e n (locking (dto.account_id ∷ []) w)))
      → Ensures P (withdraw env dto w)
  unfolding withdraw lock_account
  withdraw-Ensures k = Ensures-in_transaction P _ w (
      Ensures-bind P _ _ w (
        Ensures-statement _ env _ _ _ _ λ _. Ensures-bind P _ _ _ (
          Ensures-or_throw _ _ _ _ λ account found. Ensures-bind P _ _ _ (
            assert_active_account-Ensures _ _ account λ is_active. Ensures-bind P _ _ _ (
              assert_currency-Ensures _ _ account.currency dto.currency λ same.
                Ensures-bind P _ _ _ (
                  assert_sufficient_funds-Ensures _ _ account.balance dto.amount λ enough.
                    post-Ensures P env _ _ _ _ λ at t rows e n.
                      k account at t rows e n
                        (record { found = found; is_active = is_active; same_currency = same })
                        enough))))))

-- Both ids of a transfer are among the ids that it locks.
pub from_is_in : (a b : Uuid) → is_in a (sort_by leb (a ∷ b ∷ [])) ≡ true
from_is_in a b = ground arith

pub to_is_in : (a b : Uuid) → is_in b (sort_by leb (a ∷ b ∷ [])) ≡ true
to_is_in a b = ground arith

-- The accounts that a transfer locks, in the order in which it locks them.
abbrev pub locked_by : TransferDto → World → List Account
locked_by dto w =
    accounts_by_id (sort_by leb (dto.from_account_id ∷ dto.to_account_id ∷ [])) w.accounts

module _ (P : TransactionResponse → World → Type 0) (env : Env) (dto : TransferDto)
    (w : World) where
  in_table :
      (id : Uuid) (account : Account)
      → is_in id (sort_by leb (dto.from_account_id ∷ dto.to_account_id ∷ [])) ≡ true
      → find_row id (locked_by dto w) ≡ some account
      → find_row id w.accounts ≡ some account
  in_table id account among found = sym (find_row-accounts_by_id id _ w.accounts among) ∙ found

  pub transfer-Ensures :
      ((from_account to_account : Account) (at : Time) (t : Transaction) (rows : List LedgerEntry)
          (e : OutboxEvent) (n : ℕ)
        → eqb dto.from_account_id dto.to_account_id ≡ false
        → IsUsable dto.from_account_id dto.currency w from_account
        → IsUsable dto.to_account_id dto.currency w to_account
        → dto.amount ≤ℤ from_account.balance
        → IsPosting
            (transfer_draft dto from_account.id to_account.id)
            (transfer_entries dto from_account.id to_account.id)
            w.transactions
            t
            rows
            e
        → P (to_transaction_response t) (
            posted at
              (transfer_accounts dto from_account to_account)
              t
              rows
              e
              n
              (locking (map (λ a. a.id) (locked_by dto w)) w)))
      → Ensures P (transfer env dto w)
  unfolding transfer lock_accounts
  transfer-Ensures k = elim (Bool-cases (eqb dto.from_account_id dto.to_account_id)) [
    | inl same ↦ rw same tt
    | inr differ ↦ rw differ (
        Ensures-in_transaction P _ w (
          Ensures-bind P _ _ w (
            Ensures-statement _ env _ _ _ _ λ _. Ensures-bind P _ _ _ (
              Ensures-throw_if _ _ _ _ λ two. Ensures-bind P _ _ _ (
                Ensures-or_throw _ _ _ _ λ from_account found_from. Ensures-bind P _ _ _ (
                  Ensures-or_throw _ _ _ _ λ to_account found_to. Ensures-bind P _ _ _ (
                    assert_active_account-Ensures _ _ from_account λ from_active.
                      Ensures-bind P _ _ _ (
                        assert_active_account-Ensures _ _ to_account λ to_active.
                          Ensures-bind P _ _ _ (
                            assert_currency-Ensures _ _ from_account.currency _ λ from_same.
                              Ensures-bind P _ _ _ (
                                assert_currency-Ensures _ _ to_account.currency _ λ to_same.
                                  Ensures-bind P _ _ _ (
                                    assert_sufficient_funds-Ensures _ _ from_account.balance
                                      dto.amount
                                      λ enough. post-Ensures P env _ _ _ _ λ at t rows e n.
                                        k from_account to_account at t rows e n differ
                                          (record {
                                            found =
                                                in_table dto.from_account_id from_account
                                                  (from_is_in dto.from_account_id dto.to_account_id)
                                                  found_from;
                                            is_active = from_active;
                                            same_currency = from_same;
                                          })
                                          (record {
                                            found =
                                                in_table dto.to_account_id to_account
                                                  (to_is_in dto.from_account_id dto.to_account_id)
                                                  found_to;
                                            is_active = to_active;
                                            same_currency = to_same;
                                          })
                                          enough)))))))))))
  ]
