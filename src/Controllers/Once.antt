-- ===== src/Controllers/Once.antt =====
-- The routes of modules/transactions/transactions.controller.ts when a request comes again with its key.
use distributed_ledger_and_t.Prelude.{
  ◌+ℤ◌, ◌≤ℤ◌, String, Bool, true, false, none, some, ◌≡◌, eqb, str_eq,
}
use distributed_ledger_and_t.Common.Number.{max_safe_integer}
use distributed_ledger_and_t.Entities.{Account, idempotency_record_row}
use distributed_ledger_and_t.Database.{World, Env}
use distributed_ledger_and_t.Database.Ensures.{Returns-and, Returns-weaken}
use distributed_ledger_and_t.Idempotency.{find_key}
use distributed_ledger_and_t.Idempotency.Claiming.{claimed}
use distributed_ledger_and_t.Transactions.{DepositDto, TransferDto, deposit, transfer}
use distributed_ledger_and_t.Transactions.Guards.{IsUsable}
use distributed_ledger_and_t.Transactions.Outcomes.{IsQuiet}
use distributed_ledger_and_t.Accounting.{balance_of, IsSound}
use distributed_ledger_and_t.Accounting.Expected.{IsDeposit, IsTransfer}
use distributed_ledger_and_t.Accounting.Success.{deposit_succeeds}
use distributed_ledger_and_t.Accounting.TransferSuccess.{transfer_succeeds}
use distributed_ledger_and_t.Controllers.{
  Payload, movement_payload, transfer_payload, deposit_operation, transfer_operation, post_deposit,
  post_transfer,
}
use distributed_ledger_and_t.Controllers.Validation.{
  is_currency, is_valid_deposit, is_valid_transfer, validated,
}
use distributed_ledger_and_t.Controllers.Routes.{records_ignored, amount_valid}
use distributed_ledger_and_t.Controllers.Claims.{
  IsOnce, claimed-IsQuiet, deposit-leaves, transfer-leaves, once,
}

module _ (is_url : String → Bool) (hash : Payload → String) (env : Env) (key : String) (w : World)
    (q : IsQuiet env w) (s : IsSound w.db) (present : str_eq key "" ≡ false) where
  -- Over sound books, with no failing statement and fresh uuids, a valid request to deposit, with a key
  -- that is not empty and has no record, to an active account in its currency, the new balance at most
  -- 2^53 - 1: it is answered by a transaction, this one deposit was made as IsDeposit has it, and the
  -- same request, in any state with the records that the first left, gets the same answer and changes no
  -- table.
  pub post_deposit-IsOnce :
      (dto : DepositDto) (a : Account)
      → find_key "POST:/transactions/deposit" key w.idempotency_records ≡ none
      → is_valid_deposit dto ≡ true
      → IsUsable dto.account_id dto.currency w a
      → balance_of dto.account_id w.accounts +ℤ dto.amount ≤ℤ max_safe_integer
      → IsOnce (post_deposit is_url hash env (some key) dto) (IsDeposit dto) w
  unfolding post_deposit validated deposit_operation
  post_deposit-IsOnce dto a absent valid u small =
      let endpoint : String = "POST:/transactions/deposit" in
      let v = claimed hash env endpoint key (movement_payload dto) w in
      rw valid (
        once hash env endpoint key (movement_payload dto) w _ _ _ _ (deposit env dto) q present
          absent
          (Returns-and _ _ (deposit env dto v)
            (deposit_succeeds env dto v
              (claimed-IsQuiet hash env endpoint key (movement_payload dto) w q)
              (records_ignored w.db _ s) (amount_valid dto.amount (is_currency dto.currency) valid)
              a
              (record { found = u.found; is_active = u.is_active; same_currency = u.same_currency })
              small)
            (deposit-leaves env dto v)))

  -- Over sound books, with no failing statement and fresh uuids, a valid request to transfer, with a key
  -- that is not empty and has no record, between two different active accounts in its currency, covered
  -- by the sender, the two balances together at most 2^53 - 1: it is answered by a transaction, this one
  -- transfer was made as IsTransfer has it, and the same request, in any state with the records that the
  -- first left, gets the same answer and changes no table.
  pub post_transfer-IsOnce :
      (dto : TransferDto) (a b : Account)
      → find_key "POST:/transactions/transfer" key w.idempotency_records ≡ none
      → is_valid_transfer dto ≡ true
      → IsUsable dto.from_account_id dto.currency w a
      → IsUsable dto.to_account_id dto.currency w b
      → eqb dto.from_account_id dto.to_account_id ≡ false
      → dto.amount ≤ℤ balance_of dto.from_account_id w.accounts
      → balance_of dto.from_account_id w.accounts +ℤ balance_of dto.to_account_id w.accounts
        ≤ℤ max_safe_integer
      → IsOnce (post_transfer is_url hash env (some key) dto) (IsTransfer dto) w
  unfolding post_transfer validated transfer_operation
  post_transfer-IsOnce dto a b absent valid from to differ enough small =
      let endpoint : String = "POST:/transactions/transfer" in
      let v = claimed hash env endpoint key (transfer_payload dto) w in
      rw valid (
        once hash env endpoint key (transfer_payload dto) w _ _ _ _ (transfer env dto) q present
          absent
          (Returns-and _ _ (transfer env dto v)
            (Returns-weaken _ _ (transfer env dto v) (λ r x h. h.1)
              (transfer_succeeds env dto v
                (claimed-IsQuiet hash env endpoint key (transfer_payload dto) w q)
                (records_ignored w.db _ s)
                (amount_valid dto.amount (is_currency dto.currency) valid) a b
                (record {
                  found = from.found;
                  is_active = from.is_active;
                  same_currency = from.same_currency;
                })
                (record {
                  found = to.found;
                  is_active = to.is_active;
                  same_currency = to.same_currency;
                })
                differ enough small))
            (transfer-leaves env dto v)))
