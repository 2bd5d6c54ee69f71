-- ===== src/Accounting/Refusals.antt =====
-- The requests that modules/transactions/transactions.service.ts refuses when no statement fails.
use distributed_ledger_and_t.Prelude.{
  ℕ, ltb_ℤ, true, false, Option, none, some, ◌≡◌, ◌∙◌, not, eqb, length, find_row, str_eq,
  Bool-cases, inl, inr, Distinct,
}
use distributed_ledger_and_t.Common.Exceptions.{
  err, account_not_found, account_inactive, currency_mismatch, insufficient_funds,
}
use distributed_ledger_and_t.Entities.{Account, is_active, account_row}
use distributed_ledger_and_t.Database.{World, Env, throw_if, or_throw, in_transaction, ◌>>=◌}
use distributed_ledger_and_t.Transactions.{
  DepositDto, TransferDto, lock_account, lock_accounts, assert_active_account, assert_currency,
  assert_sufficient_funds, deposit, withdraw, transfer, missing_accounts,
}
use distributed_ledger_and_t.Transactions.Guards.{
  locked_by, find_row-accounts_by_id, from_is_in, to_is_in,
}
use distributed_ledger_and_t.Transactions.Locked.{two_locked}

module _ (env : Env) (no_fault : (n : ℕ) → env.fault n ≡ false) (dto : DepositDto) (w : World) where
  pub deposit_missing :
      find_row dto.account_id w.accounts ≡ none
      → (deposit env dto w).0 ≡ err (account_not_found dto.account_id)
  unfolding deposit lock_account in_transaction or_throw throw_if ◌>>=◌
  deposit_missing missing = simp (no_fault, missing)

  pub withdraw_missing :
      find_row dto.account_id w.accounts ≡ none
      → (withdraw env dto w).0 ≡ err (account_not_found dto.account_id)
  unfolding withdraw lock_account in_transaction or_throw throw_if ◌>>=◌
  withdraw_missing missing = simp (no_fault, missing)

  module _ (a : Account) (found : find_row dto.account_id w.accounts ≡ some a) where
    pub deposit_inactive :
        is_active a.status ≡ false → (deposit env dto w).0 ≡ err (account_inactive a.id)
    unfolding deposit lock_account in_transaction or_throw assert_active_account throw_if ◌>>=◌
    deposit_inactive blocked = simp (no_fault, found, blocked)

    pub withdraw_inactive :
        is_active a.status ≡ false → (withdraw env dto w).0 ≡ err (account_inactive a.id)
    unfolding withdraw lock_account in_transaction or_throw assert_active_account throw_if ◌>>=◌
    withdraw_inactive blocked = simp (no_fault, found, blocked)

    module _ (active : is_active a.status ≡ true) where
      pub deposit_mismatch :
          str_eq a.currency dto.currency ≡ false
          → (deposit env dto w).0 ≡ err (currency_mismatch a.currency dto.currency)
      unfolding deposit lock_account in_transaction or_throw assert_active_account assert_currency
          throw_if ◌>>=◌
      deposit_mismatch other = simp (no_fault, found, active, other)

      pub withdraw_mismatch :
          str_eq a.currency dto.currency ≡ false
          → (withdraw env dto w).0 ≡ err (currency_mismatch a.currency dto.currency)
      unfolding withdraw lock_account in_transaction or_throw assert_active_account assert_currency
          throw_if ◌>>=◌
      withdraw_mismatch other = simp (no_fault, found, active, other)

      pub withdraw_short :
          str_eq a.currency dto.currency ≡ true
          → ltb_ℤ a.balance dto.amount ≡ true
          → (withdraw env dto w).0 ≡ err (insufficient_funds a.balance dto.amount)
      unfolding withdraw lock_account in_transaction or_throw assert_active_account assert_currency
          assert_sufficient_funds throw_if ◌>>=◌
      withdraw_short same short = simp (no_fault, found, active, same, short)

module _ (env : Env) (no_fault : (n : ℕ) → env.fault n ≡ false) (dto : TransferDto) (w : World)
    (differ : eqb dto.from_account_id dto.to_account_id ≡ false) where
  found_from :
      {o : Option Account}
      → find_row dto.from_account_id w.accounts ≡ o
      → find_row dto.from_account_id (locked_by dto w) ≡ o
  found_from h =
      find_row-accounts_by_id dto.from_account_id _ w.accounts
        (from_is_in dto.from_account_id dto.to_account_id)
      ∙ h

  found_to :
      {o : Option Account}
      → find_row dto.to_account_id w.accounts ≡ o
      → find_row dto.to_account_id (locked_by dto w) ≡ o
  found_to h =
      find_row-accounts_by_id dto.to_account_id _ w.accounts
        (to_is_in dto.from_account_id dto.to_account_id)
      ∙ h

  pub transfer_from_missing :
      find_row dto.from_account_id w.accounts ≡ none
      → (transfer env dto w).0 ≡ err (missing_accounts dto)
  unfolding transfer lock_accounts in_transaction or_throw throw_if ◌>>=◌
  transfer_from_missing missing = elim (Bool-cases (not (eqb (length (locked_by dto w)) 2))) [
    | inl fewer ↦ simp (no_fault, differ, fewer)
    | inr two ↦ simp (no_fault, differ, two, found_from missing)
  ]

  pub transfer_to_missing :
      (a : Account)
      → find_row dto.from_account_id w.accounts ≡ some a
      → find_row dto.to_account_id w.accounts ≡ none
      → (transfer env dto w).0 ≡ err (missing_accounts dto)
  unfolding transfer lock_accounts in_transaction or_throw throw_if ◌>>=◌
  transfer_to_missing a found missing = elim (Bool-cases (not (eqb (length (locked_by dto w)) 2))) [
    | inl fewer ↦ simp (no_fault, differ, fewer)
    | inr two ↦ simp (no_fault, differ, two, found_from found, found_to missing)
  ]

  module _ (a b : Account) (distinct : Distinct w.accounts)
      (from_found : find_row dto.from_account_id w.accounts ≡ some a)
      (to_found : find_row dto.to_account_id w.accounts ≡ some b) where
    two : length (locked_by dto w) ≡ 2
    two = two_locked dto w a b distinct differ from_found to_found

    pub transfer_from_inactive :
        is_active a.status ≡ false → (transfer env dto w).0 ≡ err (account_inactive a.id)
    unfolding transfer lock_accounts in_transaction or_throw assert_active_account throw_if ◌>>=◌
    transfer_from_inactive blocked =
        simp (no_fault, differ, two, found_from from_found, found_to to_found, blocked)

    module _ (from_active : is_active a.status ≡ true) where
      pub transfer_to_inactive :
          is_active b.status ≡ false → (transfer env dto w).0 ≡ err (account_inactive b.id)
      unfolding transfer lock_accounts in_transaction or_throw assert_active_account throw_if ◌>>=◌
      transfer_to_inactive blocked =
          simp
            (no_fault, differ, two, found_from from_found, found_to to_found, from_active, blocked)

      module _ (to_active : is_active b.status ≡ true) where
        pub transfer_from_mismatch :
            str_eq a.currency dto.currency ≡ false
            → (transfer env dto w).0 ≡ err (currency_mismatch a.currency dto.currency)
        unfolding transfer lock_accounts in_transaction or_throw assert_active_account
            assert_currency throw_if ◌>>=◌
        transfer_from_mismatch other = simp (
          no_fault,
          differ,
          two,
          found_from from_found,
          found_to to_found,
          from_active,
          to_active,
          other,
        )

        module _ (from_same : str_eq a.currency dto.currency ≡ true) where
          pub transfer_to_mismatch :
              str_eq b.currency dto.currency ≡ false
              → (transfer env dto w).0 ≡ err (currency_mismatch b.currency dto.currency)
          unfolding transfer lock_accounts in_transaction or_throw assert_active_account
              assert_currency throw_if ◌>>=◌
          transfer_to_mismatch other = simp (
            no_fault,
            differ,
            two,
            found_from from_found,
            found_to to_found,
            from_active,
            to_active,
            from_same,
            other,
          )

          pub transfer_short :
              str_eq b.currency dto.currency ≡ true
              → ltb_ℤ a.balance dto.amount ≡ true
              → (transfer env dto w).0 ≡ err (insufficient_funds a.balance dto.amount)
          unfolding transfer lock_accounts in_transaction or_throw assert_active_account
              assert_currency assert_sufficient_funds throw_if ◌>>=◌
          transfer_short to_same short = simp (
            no_fault,
            differ,
            two,
            found_from from_found,
            found_to to_found,
            from_active,
            to_active,
            from_same,
            to_same,
            short,
          )
