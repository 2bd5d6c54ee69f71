-- ===== src/Transactions/Atomicity.antt =====
-- The transactions of modules/transactions/transactions.service.ts that throw.
use distributed_ledger_and_t.Prelude.{◌≡◌, Bool-cases, inl, inr, eqb, true}
use distributed_ledger_and_t.Common.Exceptions.{Exception, err, same_account_transfer}
use distributed_ledger_and_t.Database.{World, Env}
use distributed_ledger_and_t.Database.Ensures.{in_transaction_atomic}
use distributed_ledger_and_t.Transactions.{DepositDto, TransferDto, deposit, withdraw, transfer}

module _ (env : Env) (w : World) where
  pub deposit_atomic :
      (dto : DepositDto) (e : Exception)
      → (deposit env dto w).0 ≡ err e
      → (deposit env dto w).1.db ≡ w.db
  unfolding deposit
  deposit_atomic dto e h = in_transaction_atomic _ w h

  pub withdraw_atomic :
      (dto : DepositDto) (e : Exception)
      → (withdraw env dto w).0 ≡ err e
      → (withdraw env dto w).1.db ≡ w.db
  unfolding withdraw
  withdraw_atomic dto e h = in_transaction_atomic _ w h

  -- A transfer that throws, at whichever guard or statement, leaves all tables as they were.
  pub transfer_atomic :
      (dto : TransferDto) (e : Exception)
      → (transfer env dto w).0 ≡ err e
      → (transfer env dto w).1.db ≡ w.db
  unfolding transfer
  transfer_atomic dto e h = elim (Bool-cases (eqb dto.from_account_id dto.to_account_id)) [
    | inl same ↦ rw same
    | inr differ ↦ rw differ (in_transaction_atomic _ w (rw differ at h))
  ]

  pub transfer_same :
      (dto : TransferDto)
      → eqb dto.from_account_id dto.to_account_id ≡ true
      → transfer env dto w ≡ (err (same_account_transfer dto.from_account_id), w)
  unfolding transfer
  transfer_same dto same = rw same
