-- ===== src/Controllers/Requests.antt =====
-- The requests that the controllers take, and sequences of them.
use distributed_ledger_and_t.Prelude.{
  ℕ, ℤ, pos, ◌+ℤ◌, String, Bool, Option, List, [], ◌∷◌, if◌then◌else◌,
}
use distributed_ledger_and_t.Entities.{Uuid}
use distributed_ledger_and_t.Database.{World, Env}
use distributed_ledger_and_t.Accounts.{CreateAccountDto}
use distributed_ledger_and_t.Transactions.{DepositDto, TransferDto}
use distributed_ledger_and_t.Webhooks.{RegisterWebhookDto}
use distributed_ledger_and_t.Controllers.Validation.{is_valid_deposit}
use distributed_ledger_and_t.Controllers.{
  Payload, post_deposit, post_withdraw, post_transfer, post_account, post_webhook,
  transaction_route, balance_route, statement_route,
}

-- The POST requests have the header `Idempotency-Key`, or lack it.
pub data HttpRequest : Type 0 where
  posted_deposit : Option String → DepositDto → HttpRequest
  posted_withdraw : Option String → DepositDto → HttpRequest
  posted_transfer : Option String → TransferDto → HttpRequest
  posted_account : Option String → CreateAccountDto → HttpRequest
  posted_webhook : Option String → RegisterWebhookDto → HttpRequest
  asked_transaction : Uuid → HttpRequest
  asked_balance : Uuid → HttpRequest
  asked_statement : Uuid → Option ℕ → HttpRequest

module _ (is_url : String → Bool) (create_payload_hash : Payload → String) (env : Env) where
  -- The state after a request, whatever its answer.
  unfoldable pub handle : HttpRequest → World → World
  handle (posted_deposit key dto) w = (post_deposit is_url create_payload_hash env key dto w).1
  handle (posted_withdraw key dto) w = (post_withdraw is_url create_payload_hash env key dto w).1
  handle (posted_transfer key dto) w = (post_transfer is_url create_payload_hash env key dto w).1
  handle (posted_account key dto) w = (post_account is_url create_payload_hash env key dto w).1
  handle (posted_webhook key dto) w = (post_webhook is_url create_payload_hash env key dto w).1
  handle (asked_transaction id) w = (transaction_route env id w).1
  handle (asked_balance id) w = (balance_route env id w).1
  handle (asked_statement id limit) w = (statement_route env id limit w).1

  unfoldable pub handle_all : List HttpRequest → World → World
  handle_all [] w = w
  handle_all (r ∷ rs) w = handle_all rs (handle r w)

-- What a request can add to the balances: a valid deposit its amount.
abbrev pub added : HttpRequest → ℤ
added (posted_deposit key dto) = if is_valid_deposit dto then dto.amount else pos 0
added _ = pos 0

abbrev pub all_added : List HttpRequest → ℤ
all_added [] = pos 0
all_added (r ∷ rs) = added r +ℤ all_added rs
