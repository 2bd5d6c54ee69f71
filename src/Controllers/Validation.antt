-- ===== src/Controllers/Validation.antt =====
-- The decorators of the DTOs of modules/transactions, modules/accounts and modules/webhooks, which the
-- ValidationPipe of main.ts checks. That ids are uuids and amounts are integers is in their types.
use Prim.Native.Char.{Char, code}
use Prim.Native.String.{count}
use distributed_ledger_and_t.Prelude.{
  ℕ, ℤ, pos, leb_ℤ, String, Bool, true, false, Option, none, some, ◌&&◌, leb, if◌then◌else◌,
}
use distributed_ledger_and_t.Common.Exceptions.{bad_request}
use distributed_ledger_and_t.Database.{Action, throw}
use distributed_ledger_and_t.Accounts.{CreateAccountDto}
use distributed_ledger_and_t.Transactions.{DepositDto, TransferDto}
use distributed_ledger_and_t.Webhooks.{RegisterWebhookDto}

abbrev pub is_upper : Char → Bool
is_upper c = leb 65 (code c) && leb (code c) 90

-- `@Length(3, 3)` and `@Matches(/^[A-Z]{3}$/)`
abbrev pub is_currency : String → Bool
is_currency (String.◌∷◌ a (String.◌∷◌ b (String.◌∷◌ c String.[]))) =
    is_upper a && is_upper b && is_upper c
is_currency _ = false

-- `@IsInt() @Min(1)`
abbrev pub is_amount : ℤ → Bool
is_amount amount = leb_ℤ (pos 1) amount

abbrev pub is_valid_deposit : DepositDto → Bool
is_valid_deposit dto = is_amount dto.amount && is_currency dto.currency

abbrev pub is_valid_transfer : TransferDto → Bool
is_valid_transfer dto = is_amount dto.amount && is_currency dto.currency

abbrev pub is_valid_account : CreateAccountDto → Bool
is_valid_account dto = is_currency dto.currency

-- `@IsOptional() @IsInt() @Min(1) @Max(100)`
abbrev pub is_valid_limit : Option ℕ → Bool
is_valid_limit none = true
is_valid_limit (some limit) = leb 1 limit && leb limit 100

-- `@IsUrl(…)` is of the package class-validator.
module _ (is_url : String → Bool) where
  abbrev pub is_valid_webhook : RegisterWebhookDto → Bool
  is_valid_webhook dto = is_url dto.target_url && leb 8 (count dto.secret)

-- The pipe answers an invalid body or query with a BadRequestException, before the handler runs.
unfoldable pub validated {ℓ} : {A : Type ℓ} → Bool → Action A → Action A
validated valid handler = if valid then handler else throw bad_request
