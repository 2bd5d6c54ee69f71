-- ===== src/Accounts.antt =====
-- modules/accounts/accounts.service.ts and its DTOs.
use mathlib.Core.Option
use distributed_ledger_and_t.Prelude.{
  ℕ, ℤ, pos, String, false, Option, List, [], ◌∷◌, ◌++◌, map, has_row, find_row,
}
use distributed_ledger_and_t.Common.Exceptions.{account_not_found}
use distributed_ledger_and_t.Entities.{
  Uuid, Time, Account, AccountStatus, AccountResponse, Transaction, TransactionType,
  TransactionStatus, LedgerEntry, account_row,
}
use distributed_ledger_and_t.Database.{World, Env, Action, pure, statement, or_throw, ◌>>=◌}
use distributed_ledger_and_t.Ledger.{get_account_statement}

pub record CreateAccountDto : Type 0 where
  pub currency : String
  pub status : Option AccountStatus

abbrev pub new_account : Env → CreateAccountDto → World → Account
new_account env dto w = record {
  id = env.gen_random_uuid w.step;
  currency = dto.currency;
  balance = pos 0;
  status = Option.get_or dto.status AccountStatus.active;
  created_at = env.db_now w.step;
  updated_at = env.db_now w.step;
}

unfoldable pub insert_account : Env → CreateAccountDto → Action Account
insert_account env dto w =
    let row = new_account env dto w in
    statement env (has_row row.id w.accounts) row
      (record w.db { accounts = w.accounts ++ row ∷ [] }) w

abbrev pub to_account_response : Account → AccountResponse
to_account_response a = record {
  id = a.id;
  currency = a.currency;
  balance = a.balance;
  status = a.status;
  created_at = a.created_at;
}

unfoldable pub create_account : Env → CreateAccountDto → Action AccountResponse
create_account env dto = do
  saved_account ← insert_account env dto
  pure (to_account_response saved_account)

pub record BalanceResponse : Type 0 where
  pub account_id : Uuid
  pub currency : String
  pub balance : ℤ
  pub status : AccountStatus
  pub updated_at : Time

abbrev pub to_balance_response : Account → BalanceResponse
to_balance_response a = record {
  account_id = a.id;
  currency = a.currency;
  balance = a.balance;
  status = a.status;
  updated_at = a.updated_at;
}

unfoldable pub find_account : Env → Uuid → Action Account
find_account env account_id = do
  found ← λ w. statement env false (find_row account_id w.accounts) w.db w
  or_throw found (account_not_found account_id)

unfoldable pub get_balance : Env → Uuid → Action BalanceResponse
get_balance env account_id = do
  account ← find_account env account_id
  pure (to_balance_response account)

-- An entry with what the statement shows of its transaction.
pub record StatementEntry : Type 0 where
  pub entry : LedgerEntry
  pub transaction_type : Option TransactionType
  pub transaction_status : Option TransactionStatus
  pub description : Option (Option String)

abbrev pub to_statement_entry : LedgerEntry × Option Transaction → StatementEntry
to_statement_entry (e, t) = record {
  entry = e;
  transaction_type = Option.map (λ (t : Transaction). t.type) t;
  transaction_status = Option.map (λ (t : Transaction). t.status) t;
  description = Option.map (λ (t : Transaction). t.description) t;
}

pub record StatementResponse : Type 0 where
  pub account_id : Uuid
  pub currency : String
  pub entries : List StatementEntry

-- `query.limit ?? 20`
unfoldable pub get_statement : Env → Uuid → Option ℕ → Action StatementResponse
get_statement env account_id limit = do
  account ← find_account env account_id
  entries ← get_account_statement env account_id (Option.get_or limit 20)
  pure (record {
    account_id = account.id;
    currency = account.currency;
    entries = map to_statement_entry entries;
  })
