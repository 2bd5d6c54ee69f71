-- ===== src/Accounting/TransferSuccess.antt =====
-- The transfers of modules/transactions whose checks pass.
use mathlib.Core.Path.{subst₂}
use distributed_ledger_and_t.Prelude.{
  ℤ, pos, ◌+ℤ◌, ◌-ℤ◌, ◌≤ℤ◌, int_laws, true, false, [], ◌∷◌, ◌≡◌, refl, sym, eqb, eq_iff, subst, ap,
  ◌∙◌, arith,
}
use distributed_ledger_and_t.Common.Number.{max_safe_integer, add_number, sub_number, fits_bigint}
use distributed_ledger_and_t.Entities.{Account, account_row}
use distributed_ledger_and_t.Database.{World, Env}
use distributed_ledger_and_t.Database.Ensures.{
  Returns, Returns-Ensures, Returns-bind, Returns-statement, Returns-in_transaction,
  Returns-or_throw, Returns-throw_if,
}
use distributed_ledger_and_t.Ledger.{debits, credits}
use distributed_ledger_and_t.Transactions.{
  TransferDto, lock_accounts, assert_active_account, assert_currency, assert_sufficient_funds,
  overflows, transfer, transfer_draft, transfer_accounts, account_entry,
}
use distributed_ledger_and_t.Transactions.Guards.{
  IsUsable, find_row-accounts_by_id, from_is_in, to_is_in,
}
use distributed_ledger_and_t.Transactions.Locked.{two_locked}
use distributed_ledger_and_t.Transactions.Outcomes.{IsQuiet, post-IsOk}
use distributed_ledger_and_t.Accounting.{balance_of, shown_balance, IsSound}
use distributed_ledger_and_t.Accounting.Effects.{own_id, account_bounds, debit_exact, credit_exact}
use distributed_ledger_and_t.Accounting.Expected.{IsTransfer}
use distributed_ledger_and_t.Accounting.Movements.{transfer-IsTransfer}
use distributed_ledger_and_t.Accounting.Success.{not-true, eqb_ℤ-self, fits_safe, not_short}

fits_two :
    (a b : Account) (x y : ℤ)
    → fits_bigint x ≡ true
    → fits_bigint y ≡ true
    → overflows (record a { balance = x } ∷ record b { balance = y } ∷ []) ≡ false
fits_two a b x y fits_x fits_y = rw (fits_x, fits_y) refl

module _ (env : Env) (dto : TransferDto) (w : World) (q : IsQuiet env w) (s : IsSound w.db)
    (positive : pos 1 ≤ℤ dto.amount) (a b : Account)
    (u : IsUsable dto.from_account_id dto.currency w a)
    (v : IsUsable dto.to_account_id dto.currency w b)
    (differ : eqb dto.from_account_id dto.to_account_id ≡ false) where
  bounds_from : (pos 0 ≤ℤ a.balance) × (a.balance ≤ℤ max_safe_integer)
  bounds_from = account_bounds a w.db s (own_id dto.from_account_id a w.accounts u.found)

  bounds_to : (pos 0 ≤ℤ b.balance) × (b.balance ≤ℤ max_safe_integer)
  bounds_to = account_bounds b w.db s (own_id dto.to_account_id b w.accounts v.found)

  debit_fits : dto.amount ≤ℤ a.balance → fits_bigint (sub_number a.balance dto.amount) ≡ true
  debit_fits enough =
      let bounds = bounds_from in
      subst (λ x. fits_bigint x ≡ true)
        (sym (
          debit_exact dto a b w 0 s (own_id dto.from_account_id a w.accounts u.found)
            (own_id dto.to_account_id b w.accounts v.found) positive enough))
        (fits_safe (a.balance +ℤ (pos 0 -ℤ dto.amount)) (omega int_laws) (omega int_laws))

  credit_fits :
      dto.amount ≤ℤ a.balance
      → b.balance +ℤ dto.amount ≤ℤ max_safe_integer
      → fits_bigint (add_number b.balance dto.amount) ≡ true
  credit_fits enough small =
      let bounds = bounds_to in
      subst (λ x. fits_bigint x ≡ true)
        (sym (
          credit_exact dto a b w 0 s (own_id dto.from_account_id a w.accounts u.found)
            (own_id dto.to_account_id b w.accounts v.found) positive enough small))
        (fits_safe (b.balance +ℤ dto.amount) (omega int_laws) small)

  amount_fits : dto.amount ≤ℤ a.balance → fits_bigint dto.amount ≡ true
  amount_fits enough =
      let bounds = bounds_from in fits_safe dto.amount (omega int_laws) (omega int_laws)

  transfer_goes_through :
      dto.amount ≤ℤ a.balance
      → a.balance +ℤ b.balance ≤ℤ max_safe_integer
      → Returns (λ r v. Unit) (transfer env dto w)
  unfolding transfer lock_accounts assert_active_account assert_currency assert_sufficient_funds
      debits credits
  transfer_goes_through covered room =
      let from_found =
        find_row-accounts_by_id dto.from_account_id _ w.accounts
          (from_is_in dto.from_account_id dto.to_account_id)
        ∙ u.found in
      let to_found =
        find_row-accounts_by_id dto.to_account_id _ w.accounts
          (to_is_in dto.from_account_id dto.to_account_id)
        ∙ v.found in
      let two = two_locked dto w a b s.accounts_distinct differ u.found v.found in
      let credited : b.balance +ℤ dto.amount ≤ℤ max_safe_integer = omega int_laws in
      rw differ (
        Returns-in_transaction _ _ w (
          Returns-bind _ _ _ w (
            Returns-statement _ env _ _ _ _ (q.no_fault _) refl (
              Returns-bind _ _ _ _ (
                Returns-throw_if _ _ _ _ (rw two refl) (
                  Returns-bind _ _ _ _ (
                    Returns-or_throw _ _ a _ _ from_found (
                      Returns-bind _ _ _ _ (
                        Returns-or_throw _ _ b _ _ to_found (
                          Returns-bind _ _ _ _ (
                            Returns-throw_if _ _ _ _ (not-true u.is_active) (
                              Returns-bind _ _ _ _ (
                                Returns-throw_if _ _ _ _ (not-true v.is_active) (
                                  Returns-bind _ _ _ _ (
                                    Returns-throw_if _ _ _ _
                                      (not-true
                                        ((eq_iff a.currency dto.currency).1 u.same_currency))
                                      (Returns-bind _ _ _ _ (
                                        Returns-throw_if _ _ _ _
                                          (not-true
                                            ((eq_iff b.currency dto.currency).1 v.same_currency))
                                          (Returns-bind _ _ _ _ (
                                            Returns-throw_if _ _ _ _
                                              (not_short a.balance dto.amount covered)
                                              (post-IsOk env (transfer_draft dto a.id b.id)
                                                (transfer_accounts dto a b)
                                                (λ t.
                                                  account_entry t a.id _ dto.amount dto.currency)
                                                (λ t.
                                                  account_entry t b.id _ dto.amount dto.currency)
                                                w q _ refl (omega arith) (amount_fits covered)
                                                (fits_two a b (sub_number a.balance dto.amount)
                                                  (add_number b.balance dto.amount)
                                                  (debit_fits covered)
                                                  (credit_fits covered credited))
                                                (λ t. amount_fits covered)
                                                (λ t. amount_fits covered)
                                                (λ t.
                                                  eqb_ℤ-self (add_number (pos 0) dto.amount) _
                                                    refl)))))))))))))))))))))

  -- Over sound books, with no failing statement and fresh uuids, a transfer of at least 1 between two
  -- different accounts that are active and in its currency, covered by the sender, the two balances
  -- together at most 2^53 - 1, returns: it records the completed transaction, its debit and credit
  -- entries and its outbox event, answers with that transaction, takes the amount from the sender and
  -- gives it to the receiver, moves no other balance, and leaves the total as it was.
  pub transfer_succeeds :
      dto.amount ≤ℤ balance_of dto.from_account_id w.accounts
      → balance_of dto.from_account_id w.accounts +ℤ balance_of dto.to_account_id w.accounts
        ≤ℤ max_safe_integer
      → Returns
          (λ r v. (dto.amount ≤ℤ balance_of dto.from_account_id w.accounts) × IsTransfer dto w r v)
          (transfer env dto w)
  transfer_succeeds enough small =
      Returns-Ensures _ (transfer env dto w)
        (transfer_goes_through (subst (λ x. dto.amount ≤ℤ x) (ap shown_balance u.found) enough) (
          subst₂ (λ x y. x +ℤ y ≤ℤ max_safe_integer) (ap shown_balance u.found)
            (ap shown_balance v.found) small))
        (transfer-IsTransfer env dto w s positive small)
