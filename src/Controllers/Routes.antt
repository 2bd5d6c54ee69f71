-- ===== src/Controllers/Routes.antt =====
-- The books of modules/transactions under each route of the controllers.
use distributed_ledger_and_t.Prelude.{
  ℕ, ℤ, pos, ◌+ℤ◌, ◌≤ℤ◌, int_laws, String, Bool, true, false, Option, List, ◌≡◌, refl, arith, ◌&&◌,
}
use distributed_ledger_and_t.Common.Number.{max_safe_integer}
use distributed_ledger_and_t.Entities.{Uuid, WebhookSubscription}
use distributed_ledger_and_t.Database.{Db, World, Env, Action, pure, ◌>>=◌}
use distributed_ledger_and_t.Database.Keeps.{Keeps, statement-Keeps, bind-Keeps, or_throw-Keeps}
use distributed_ledger_and_t.Idempotency.{Outcome, execute}
use distributed_ledger_and_t.Idempotency.Effects.{Ignores, Leads, bind-after, execute-Leads}
use distributed_ledger_and_t.Transactions.{
  DepositDto, TransferDto, deposit, withdraw, transfer, get_transaction,
}
use distributed_ledger_and_t.Accounts.{
  CreateAccountDto, create_account, get_balance, get_statement, find_account,
}
use distributed_ledger_and_t.Webhooks.{RegisterWebhookDto, register_webhook}
use distributed_ledger_and_t.Ledger.{get_account_statement}
use distributed_ledger_and_t.Accounting.{IsSound}
use distributed_ledger_and_t.Accounting.Requests.{
  Request, create_account_request, deposit_request, withdraw_request, transfer_request, IsValid,
  perform, deposit_amount, IsSoundWithin, perform_lem,
}
use distributed_ledger_and_t.Controllers.{
  Payload, deposit_operation, withdraw_operation, transfer_operation, account_operation,
  webhook_operation, post_deposit, post_withdraw, post_transfer, post_account, post_webhook,
  transaction_route, balance_route, statement_route,
}
use distributed_ledger_and_t.Controllers.Validation.{
  is_amount, is_currency, is_valid_deposit, validated,
}

pub records_ignored : Ignores IsSound
records_ignored db records s = record {
  accounts_distinct = s.accounts_distinct;
  transactions_distinct = s.transactions_distinct;
  nonneg = s.nonneg;
  safe = s.safe;
  matches = s.matches;
  balanced = s.balanced;
}

within_ignores : (limit : ℤ) → Ignores (IsSoundWithin limit)
within_ignores limit db records s = (records_ignored db records s.0, s.1)

with_subscriptions :
    (limit : ℤ) (db : Db) (rows : List WebhookSubscription)
    → IsSoundWithin limit db
    → IsSoundWithin limit (record db { webhook_subscriptions = rows })
with_subscriptions limit db rows s = (
  record {
    accounts_distinct = s.0.accounts_distinct;
    transactions_distinct = s.0.transactions_distinct;
    nonneg = s.0.nonneg;
    safe = s.0.safe;
    matches = s.0.matches;
    balanced = s.0.balanced;
  },
  s.1,
)

pub amount_valid : (amount : ℤ) (rest : Bool) → (is_amount amount && rest) ≡ true → pos 1 ≤ℤ amount
amount_valid amount rest h = ground arith

validated-Keeps {ℓ} :
    {A : Type ℓ} (P : Db → Type 0) (valid : Bool) (handler : Action A)
    → Keeps P handler
    → Keeps P (validated valid handler)
unfolding validated
validated-Keeps P true handler k = k
validated-Keeps P false handler k = λ w p. p

-- A request of the services, at most `limit` in all the balances before it.
module _ (env : Env) (limit : ℤ) where
  performs :
      (r : Request) (w : World)
      → IsValid r
      → limit +ℤ deposit_amount r ≤ℤ max_safe_integer
      → IsSoundWithin limit w.db
      → IsSoundWithin (limit +ℤ deposit_amount r) (perform env r w).db
  performs r w valid small s =
      let bound = s.1 in
      let after = perform_lem env r w valid s.0 (omega int_laws) in
      (after.0, let total = after.1 in omega int_laws)

  wider :
      (amount : ℤ)
      → pos 1 ≤ℤ amount
      → (db : Db) → IsSoundWithin limit db
      → IsSoundWithin (limit +ℤ amount) db
  wider amount positive db s = (s.0, let bound = s.1 in omega int_laws)

  pub as_before : (db : Db) → IsSoundWithin limit db → IsSoundWithin (limit +ℤ pos 0) db
  as_before db s = (s.0, let bound = s.1 in omega int_laws)

  no_more : limit ≤ℤ max_safe_integer → limit +ℤ pos 0 ≤ℤ max_safe_integer
  no_more small = omega int_laws

  -- A handler of a request that adds nothing.
  validated-Leads {ℓ} :
      {A : Type ℓ} (valid : Bool) (handler : Action A)
      → (valid ≡ true → Leads (IsSoundWithin limit) (IsSoundWithin (limit +ℤ pos 0)) handler)
      → Leads (IsSoundWithin limit) (IsSoundWithin (limit +ℤ pos 0)) (validated valid handler)
  unfolding validated
  validated-Leads true handler leads = leads refl
  validated-Leads false handler leads = λ w s. as_before w.db s

  -- What a controller makes of the response of a service.
  operates :
      {A : Type 0} (amount : ℤ) (m : Action A) (outcome : A → Outcome)
      → Leads (IsSoundWithin limit) (IsSoundWithin (limit +ℤ amount)) m
      → Leads (IsSoundWithin limit) (IsSoundWithin (limit +ℤ amount)) (do a ← m; pure (outcome a))
  operates amount m outcome leads =
      bind-after (IsSoundWithin limit) (IsSoundWithin (limit +ℤ amount)) m _ leads (λ _ w p. p)

  -- The route of a request of the services.
  module _ (create_payload_hash : Payload → String) where
    guards :
        (amount : ℤ) (operation : Action Outcome)
        → ((db : Db) → IsSoundWithin limit db → IsSoundWithin (limit +ℤ amount) db)
        → Leads (IsSoundWithin limit) (IsSoundWithin (limit +ℤ amount)) operation
        → (endpoint : String) (key : Option String) (payload : Payload)
        → Leads
            (IsSoundWithin limit)
            (IsSoundWithin (limit +ℤ amount))
            (execute create_payload_hash env endpoint key payload operation)
    guards amount operation weaken leads =
        execute-Leads (IsSoundWithin limit) (IsSoundWithin (limit +ℤ amount)) (within_ignores limit)
          (within_ignores (limit +ℤ amount)) weaken env operation leads create_payload_hash

    module _ (is_url : String → Bool) where
      pub post_deposit-Leads :
          (key : Option String) (dto : DepositDto)
          → is_valid_deposit dto ≡ true
          → limit +ℤ dto.amount ≤ℤ max_safe_integer
          → Leads
              (IsSoundWithin limit)
              (IsSoundWithin (limit +ℤ dto.amount))
              (post_deposit is_url create_payload_hash env key dto)
      unfolding post_deposit validated deposit_operation perform
      post_deposit-Leads key dto valid small =
          let positive = amount_valid dto.amount (is_currency dto.currency) valid in
          rw valid (
            guards dto.amount (deposit_operation env dto) (wider dto.amount positive)
              (operates dto.amount (deposit env dto) _
                (λ w s. performs (deposit_request dto) w positive small s))
              "POST:/transactions/deposit" key _)

      module _ (small : limit ≤ℤ max_safe_integer) where
        -- The operation of a request that adds nothing, and what guards it.
        guards_more :
            (operation : Action Outcome)
            → Leads (IsSoundWithin limit) (IsSoundWithin (limit +ℤ pos 0)) operation
            → (endpoint : String) (key : Option String) (payload : Payload)
            → Leads
                (IsSoundWithin limit)
                (IsSoundWithin (limit +ℤ pos 0))
                (execute create_payload_hash env endpoint key payload operation)
        guards_more operation leads = guards (pos 0) operation as_before leads

        pub post_withdraw-Leads :
            (key : Option String) (dto : DepositDto)
            → Leads
                (IsSoundWithin limit)
                (IsSoundWithin (limit +ℤ pos 0))
                (post_withdraw is_url create_payload_hash env key dto)
        unfolding post_withdraw withdraw_operation perform
        post_withdraw-Leads key dto = validated-Leads _ _ (λ valid.
            guards_more (withdraw_operation env dto)
              (operates (pos 0) (withdraw env dto) _ (λ w s.
                performs (withdraw_request dto) w
                  (amount_valid dto.amount (is_currency dto.currency) valid) (no_more small) s))
              "POST:/transactions/withdraw" key _)

        pub post_transfer-Leads :
            (key : Option String) (dto : TransferDto)
            → Leads
                (IsSoundWithin limit)
                (IsSoundWithin (limit +ℤ pos 0))
                (post_transfer is_url create_payload_hash env key dto)
        unfolding post_transfer transfer_operation perform
        post_transfer-Leads key dto = validated-Leads _ _ (λ valid.
            guards_more (transfer_operation env dto)
              (operates (pos 0) (transfer env dto) _ (λ w s.
                performs (transfer_request dto) w
                  (amount_valid dto.amount (is_currency dto.currency) valid) (no_more small) s))
              "POST:/transactions/transfer" key _)

        pub post_account-Leads :
            (key : Option String) (dto : CreateAccountDto)
            → Leads
                (IsSoundWithin limit)
                (IsSoundWithin (limit +ℤ pos 0))
                (post_account is_url create_payload_hash env key dto)
        unfolding post_account account_operation perform
        post_account-Leads key dto = validated-Leads _ _ (λ valid.
            guards_more (account_operation env dto)
              (operates (pos 0) (create_account env dto) _
                (λ w s. performs (create_account_request dto) w tt (no_more small) s))
              "POST:/accounts" key _)

        pub post_webhook-Leads :
            (key : Option String) (dto : RegisterWebhookDto)
            → Leads
                (IsSoundWithin limit)
                (IsSoundWithin (limit +ℤ pos 0))
                (post_webhook is_url create_payload_hash env key dto)
        unfolding post_webhook webhook_operation register_webhook
        post_webhook-Leads key dto = validated-Leads _ _ (λ valid.
            guards_more (webhook_operation env dto)
              (operates (pos 0) (register_webhook env dto) _ (λ w s. as_before _ (
                statement-Keeps (IsSoundWithin limit) env _ _ _ w s
                  (with_subscriptions limit w.db _ s))))
              "POST:/webhooks" key _)

-- The routes that only read.
module _ (P : Db → Type 0) (env : Env) where
  pub transaction_route-Keeps : (id : Uuid) → Keeps P (transaction_route env id)
  unfolding transaction_route get_transaction
  transaction_route-Keeps id =
      bind-Keeps P _ _ (λ w p. statement-Keeps P env _ _ _ w p p)
        (λ found. bind-Keeps P _ _ (or_throw-Keeps P found _) (λ _ w p. p))

  find_account-Keeps : (id : Uuid) → Keeps P (find_account env id)
  unfolding find_account
  find_account-Keeps id =
      bind-Keeps P _ _ (λ w p. statement-Keeps P env _ _ _ w p p)
        (λ found. or_throw-Keeps P found _)

  pub balance_route-Keeps : (id : Uuid) → Keeps P (balance_route env id)
  unfolding balance_route get_balance
  balance_route-Keeps id = bind-Keeps P _ _ (find_account-Keeps id) (λ _ w p. p)

  pub statement_route-Keeps :
      (id : Uuid) (limit : Option ℕ) → Keeps P (statement_route env id limit)
  unfolding statement_route get_statement get_account_statement
  statement_route-Keeps id limit = validated-Keeps P _ _ (
      bind-Keeps P _ _ (find_account-Keeps id)
        (λ _. bind-Keeps P _ _ (λ w p. statement-Keeps P env _ _ _ w p p) (λ _ w p. p)))
