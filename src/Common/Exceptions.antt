-- ===== src/Common/Exceptions.antt =====
-- common/exceptions/domain.exceptions.ts, with the errors that the database driver raises.
use distributed_ledger_and_t.Prelude.{ℕ, ℤ, String}

-- One constructor for each exception class, with its constructor's arguments. `query_failed` is
-- TypeORM's QueryFailedError, `entity_not_found` its EntityNotFoundError of `findOneOrFail`;
-- `webhook_delivery_failed` is the Error of `processDelivery`, `fetch_failed` what `fetch` throws,
-- `type_error` the access to a property of null, `queue_failed` what `Queue.add` throws, and
-- `bad_request` the BadRequestException of Nest's ValidationPipe.
pub data Exception : Type 0 where
  account_not_found : ℕ → Exception
  accounts_not_found : ℕ → ℕ → Exception
  transaction_not_found : ℕ → Exception
  account_inactive : ℕ → Exception
  currency_mismatch : String → String → Exception
  insufficient_funds : ℤ → ℤ → Exception
  same_account_transfer : ℕ → Exception
  idempotency_key_required : Exception
  idempotency_key_processing : Exception
  idempotency_payload_mismatch : Exception
  unbalanced_ledger_entries : ℤ → ℤ → Exception
  query_failed : Exception
  entity_not_found : Exception
  webhook_delivery_failed : ℕ → String → Exception
  fetch_failed : Exception
  type_error : Exception
  queue_failed : Exception
  bad_request : Exception

-- The HTTP status of the base class that each exception extends; a plain Error is answered by 500.
abbrev pub status_code : Exception → ℕ
status_code (account_not_found _) = 404
status_code (accounts_not_found _ _) = 404
status_code (transaction_not_found _) = 404
status_code (account_inactive _) = 400
status_code (currency_mismatch _ _) = 400
status_code (insufficient_funds _ _) = 400
status_code (same_account_transfer _) = 400
status_code idempotency_key_required = 409
status_code idempotency_key_processing = 409
status_code idempotency_payload_mismatch = 409
status_code (unbalanced_ledger_entries _ _) = 500
status_code query_failed = 500
status_code entity_not_found = 500
status_code (webhook_delivery_failed _ _) = 500
status_code fetch_failed = 500
status_code type_error = 500
status_code queue_failed = 500
status_code bad_request = 400

pub data Result {ℓ} (A : Type ℓ) : Type ℓ where
  ok : A → Result A
  err : Exception → Result A
