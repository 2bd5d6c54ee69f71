-- ===== src/Controllers.antt =====
-- The controllers of modules/transactions, modules/accounts and modules/webhooks, behind the
-- ValidationPipe of main.ts.
pub mod Validation
pub mod Requests
pub mod Routes
pub mod Soundness
pub mod Claims
pub mod Once
use distributed_ledger_and_t.Prelude.{ℕ, String, Bool, Option, none, some}
use distributed_ledger_and_t.Entities.{
  Uuid, transaction_body, account_body, webhook_body, Body, TransactionResponse,
}
use distributed_ledger_and_t.Database.{World, Env, Action, pure, ◌>>=◌}
use distributed_ledger_and_t.Accounts.{
  CreateAccountDto, BalanceResponse, StatementResponse, create_account, get_balance, get_statement,
}
use distributed_ledger_and_t.Transactions.{
  DepositDto, TransferDto, deposit, withdraw, transfer, get_transaction,
}
use distributed_ledger_and_t.Webhooks.{RegisterWebhookDto, register_webhook}
use distributed_ledger_and_t.Idempotency.{Outcome, execute}
use distributed_ledger_and_t.Controllers.Validation.{
  is_valid_account, is_valid_deposit, is_valid_transfer, is_valid_limit, is_valid_webhook,
  validated,
}

-- The bodies of the POST requests, as they are hashed.
pub data Payload : Type 0 where
  account_payload : CreateAccountDto → Payload
  movement_payload : DepositDto → Payload
  transfer_payload : TransferDto → Payload
  webhook_payload : RegisterWebhookDto → Payload

abbrev pub transaction_outcome : TransactionResponse → Outcome
transaction_outcome transaction = record {
  status_code = 201;
  body = transaction_body transaction;
  transaction_id = some transaction.id;
}

unfoldable pub deposit_operation : Env → DepositDto → Action Outcome
deposit_operation env dto = do transaction ← deposit env dto; pure (transaction_outcome transaction)

unfoldable pub withdraw_operation : Env → DepositDto → Action Outcome
withdraw_operation env dto = do
  transaction ← withdraw env dto
  pure (transaction_outcome transaction)

unfoldable pub transfer_operation : Env → TransferDto → Action Outcome
transfer_operation env dto = do
  transaction ← transfer env dto
  pure (transaction_outcome transaction)

unfoldable pub account_operation : Env → CreateAccountDto → Action Outcome
account_operation env dto = do
  account ← create_account env dto
  pure (record { status_code = 201; body = account_body account; transaction_id = none })

unfoldable pub webhook_operation : Env → RegisterWebhookDto → Action Outcome
webhook_operation env dto = do
  webhook ← register_webhook env dto
  pure (record { status_code = 201; body = webhook_body webhook; transaction_id = none })

module _ (is_url : String → Bool) (create_payload_hash : Payload → String) (env : Env) where
  unfoldable pub post_deposit : Option String → DepositDto → Action Body
  post_deposit key dto = validated (is_valid_deposit dto) (
      execute create_payload_hash env "POST:/transactions/deposit" key (movement_payload dto)
        (deposit_operation env dto))

  unfoldable pub post_withdraw : Option String → DepositDto → Action Body
  post_withdraw key dto = validated (is_valid_deposit dto) (
      execute create_payload_hash env "POST:/transactions/withdraw" key (movement_payload dto)
        (withdraw_operation env dto))

  unfoldable pub post_transfer : Option String → TransferDto → Action Body
  post_transfer key dto = validated (is_valid_transfer dto) (
      execute create_payload_hash env "POST:/transactions/transfer" key (transfer_payload dto)
        (transfer_operation env dto))

  unfoldable pub post_account : Option String → CreateAccountDto → Action Body
  post_account key dto = validated (is_valid_account dto) (
      execute create_payload_hash env "POST:/accounts" key (account_payload dto)
        (account_operation env dto))

  unfoldable pub post_webhook : Option String → RegisterWebhookDto → Action Body
  post_webhook key dto = validated (is_valid_webhook is_url dto) (
      execute create_payload_hash env "POST:/webhooks" key (webhook_payload dto)
        (webhook_operation env dto))

unfoldable pub transaction_route : Env → Uuid → Action TransactionResponse
transaction_route env transaction_id = get_transaction env transaction_id

unfoldable pub balance_route : Env → Uuid → Action BalanceResponse
balance_route env account_id = get_balance env account_id

unfoldable pub statement_route : Env → Uuid → Option ℕ → Action StatementResponse
statement_route env account_id limit =
    validated (is_valid_limit limit) (get_statement env account_id limit)
