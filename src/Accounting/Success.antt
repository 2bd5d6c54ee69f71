-- ===== src/Accounting/Success.antt =====
-- The deposits and withdrawals of modules/transactions whose checks pass.
use distributed_ledger_and_t.Prelude.{
  ℤ, pos, negsuc, ◌+ℤ◌, ◌-ℤ◌, ◌≤ℤ◌, int_laws, Bool, true, false, [], ◌∷◌, ◌≡◌, refl, sym, arith,
  not, eqb_ℤ, eq_iff, subst, ap, ltb_ℤ,
}
use distributed_ledger_and_t.Common.Number.{max_safe_integer, add_number, sub_number, fits_bigint}
use distributed_ledger_and_t.Entities.{Account, account_row}
use distributed_ledger_and_t.Database.{World, Env}
use distributed_ledger_and_t.Database.Ensures.{
  Returns, Returns-Ensures, Returns-bind, Returns-statement, Returns-in_transaction,
  Returns-or_throw, Returns-throw_if,
}
use distributed_ledger_and_t.Ledger.{debits, credits}
use distributed_ledger_and_t.Transactions.{
  DepositDto, lock_account, assert_active_account, assert_currency, assert_sufficient_funds,
  overflows, deposit, withdraw, deposit_draft, deposit_accounts, withdraw_draft, withdraw_accounts,
  account_entry, settlement_entry,
}
use distributed_ledger_and_t.Transactions.Guards.{IsUsable}
use distributed_ledger_and_t.Transactions.Outcomes.{IsQuiet, post-IsOk}
use distributed_ledger_and_t.Accounting.{balance_of, shown_balance, IsSound}
use distributed_ledger_and_t.Accounting.Effects.{
  own_id, account_bounds, deposit_exact, withdraw_exact,
}
use distributed_ledger_and_t.Accounting.Expected.{IsDeposit, IsWithdrawal}
use distributed_ledger_and_t.Accounting.Movements.{deposit-IsDeposit, withdraw-IsWithdrawal}

pub not-true : {a : Bool} → a ≡ true → not a ≡ false
not-true e = rw e refl

pub eqb_ℤ-self : (a b : ℤ) → a ≡ b → eqb_ℤ a b ≡ true
eqb_ℤ-self a b e = ground arith

-- A number between zero and the largest safe integer has room in a `bigint` column.
pub fits_safe : (a : ℤ) → pos 0 ≤ℤ a → a ≤ℤ max_safe_integer → fits_bigint a ≡ true
fits_safe (pos n) lo hi = ground arith
fits_safe (negsuc n) lo hi = absurd (omega arith)

pub fits_one :
    (a : Account) (b : ℤ) → fits_bigint b ≡ true → overflows (record a { balance = b } ∷ []) ≡ false
fits_one a b fits = rw fits refl

pub not_short : (balance amount : ℤ) → amount ≤ℤ balance → ltb_ℤ balance amount ≡ false
not_short balance amount h = ground arith

module _ (env : Env) (dto : DepositDto) (w : World) (q : IsQuiet env w) (s : IsSound w.db)
    (positive : pos 1 ≤ℤ dto.amount) (a : Account)
    (u : IsUsable dto.account_id dto.currency w a) where
  deposit_fits :
      a.balance +ℤ dto.amount ≤ℤ max_safe_integer
      → fits_bigint (add_number a.balance dto.amount) ≡ true
  deposit_fits small =
      let found = own_id dto.account_id a w.accounts u.found in
      let bounds = account_bounds a w.db s found in
      subst (λ b. fits_bigint b ≡ true) (sym (deposit_exact dto a w 0 s found positive small))
        (fits_safe (a.balance +ℤ dto.amount) (omega int_laws) small)

  amount_fits : a.balance +ℤ dto.amount ≤ℤ max_safe_integer → fits_bigint dto.amount ≡ true
  amount_fits small =
      let bounds = account_bounds a w.db s (own_id dto.account_id a w.accounts u.found) in
      fits_safe dto.amount (omega int_laws) (omega int_laws)

  shown : balance_of dto.account_id w.accounts ≡ a.balance
  shown = ap shown_balance u.found

  -- Over sound books, with no failing statement and fresh uuids, a deposit of at least 1 to an active
  -- account in its currency, the new balance at most 2^53 - 1, returns: it records the completed
  -- transaction, its two entries and its outbox event, answers with that transaction, and adds the
  -- amount to that balance and to the total and to no other balance.
  pub deposit_succeeds :
      balance_of dto.account_id w.accounts +ℤ dto.amount ≤ℤ max_safe_integer
      → Returns (λ r v. IsDeposit dto w r v) (deposit env dto w)
  unfolding deposit lock_account assert_active_account assert_currency debits credits
  deposit_succeeds small =
      let room = subst (λ b. b +ℤ dto.amount ≤ℤ max_safe_integer) shown small in
      Returns-Ensures _ (deposit env dto w)
        (Returns-in_transaction _ _ w (
          Returns-bind _ _ _ w (
            Returns-statement _ env _ _ _ _ (q.no_fault _) refl (
              Returns-bind _ _ _ _ (
                Returns-or_throw _ _ a _ _ u.found (
                  Returns-bind _ _ _ _ (
                    Returns-throw_if _ _ _ _ (not-true u.is_active) (
                      Returns-bind _ _ _ _ (
                        Returns-throw_if _ _ _ _
                          (not-true ((eq_iff a.currency dto.currency).1 u.same_currency))
                          (post-IsOk env (deposit_draft dto a.id) (deposit_accounts dto a)
                            (λ t. account_entry t a.id _ dto.amount dto.currency)
                            (λ t. settlement_entry t _ dto.amount dto.currency) w q _ refl
                            (omega arith) (amount_fits room)
                            (fits_one a (add_number a.balance dto.amount) (deposit_fits room))
                            (λ t. amount_fits room) (λ t. amount_fits room)
                            (λ t. eqb_ℤ-self (add_number (pos 0) dto.amount) _ refl)))))))))))
        (deposit-IsDeposit env dto w s positive small)

  withdraw_fits : dto.amount ≤ℤ a.balance → fits_bigint (sub_number a.balance dto.amount) ≡ true
  withdraw_fits enough =
      let found = own_id dto.account_id a w.accounts u.found in
      let bounds = account_bounds a w.db s found in
      subst (λ b. fits_bigint b ≡ true) (sym (withdraw_exact dto a w 0 s found positive enough))
        (fits_safe (a.balance +ℤ (pos 0 -ℤ dto.amount)) (omega int_laws) (omega int_laws))

  covered_fits : dto.amount ≤ℤ a.balance → fits_bigint dto.amount ≡ true
  covered_fits enough =
      let bounds = account_bounds a w.db s (own_id dto.account_id a w.accounts u.found) in
      fits_safe dto.amount (omega int_laws) (omega int_laws)

  -- Over sound books, with no failing statement and fresh uuids, a withdrawal of at least 1 from an
  -- active account in its currency that covers it returns: it records the completed transaction, its two
  -- entries and its outbox event, answers with that transaction, and takes the amount from that balance
  -- and from the total and from no other balance.
  pub withdraw_succeeds :
      dto.amount ≤ℤ balance_of dto.account_id w.accounts
      → Returns
          (λ r v. (dto.amount ≤ℤ balance_of dto.account_id w.accounts) × IsWithdrawal dto w r v)
          (withdraw env dto w)
  unfolding withdraw lock_account assert_active_account assert_currency assert_sufficient_funds
      debits credits
  withdraw_succeeds enough =
      let covered = subst (λ b. dto.amount ≤ℤ b) shown enough in
      Returns-Ensures _ (withdraw env dto w)
        (Returns-in_transaction _ _ w (
          Returns-bind _ _ _ w (
            Returns-statement _ env _ _ _ _ (q.no_fault _) refl (
              Returns-bind _ _ _ _ (
                Returns-or_throw _ _ a _ _ u.found (
                  Returns-bind _ _ _ _ (
                    Returns-throw_if _ _ _ _ (not-true u.is_active) (
                      Returns-bind _ _ _ _ (
                        Returns-throw_if _ _ _ _
                          (not-true ((eq_iff a.currency dto.currency).1 u.same_currency))
                          (Returns-bind _ _ _ _ (
                            Returns-throw_if _ _ _ _ (not_short a.balance dto.amount covered) (
                              post-IsOk env (withdraw_draft dto a.id) (withdraw_accounts dto a)
                                (λ t. account_entry t a.id _ dto.amount dto.currency)
                                (λ t. settlement_entry t _ dto.amount dto.currency) w q _ refl
                                (omega arith) (covered_fits covered)
                                (fits_one a (sub_number a.balance dto.amount)
                                  (withdraw_fits covered))
                                (λ t. covered_fits covered) (λ t. covered_fits covered)
                                (λ t. eqb_ℤ-self (add_number (pos 0) dto.amount) _ refl)))))))))))))
        (withdraw-IsWithdrawal env dto w s positive)
