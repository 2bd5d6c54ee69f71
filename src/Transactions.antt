-- ===== src/Transactions.antt =====
-- modules/transactions/transactions.service.ts and its DTOs.
mod Drafts
pub mod Guards
pub mod Posting
pub mod Atomicity
pub mod Outcomes
pub mod Locked
pub mod LockOrder
pub mod Draws
pub mod LockedRows
pub mod Requests
pub use Drafts.*
use distributed_ledger_and_t.Prelude.{
  ℕ, ℤ, pos, String, Bool, true, false, Option, none, some, List, [], ◌∷◌, ◌++◌, map, not, ◌||◌,
  ltb_ℤ, has_row, find_row, save_row, filter, sort_by, leb, eqb, length, ⊤, str_eq, if◌then◌else◌,
}
use distributed_ledger_and_t.Common.Exceptions.{
  Exception, account_not_found, accounts_not_found, account_inactive, currency_mismatch,
  insufficient_funds, same_account_transfer, transaction_not_found,
}
use distributed_ledger_and_t.Common.Number.{add_number, sub_number, fits_bigint}
use distributed_ledger_and_t.Entities.{
  Uuid, Time, Account, Transaction, TransactionType, TransactionStatus, LedgerEntryType, is_active,
  TransactionResponse, account_row, transaction_row,
}
use distributed_ledger_and_t.Database.{
  Db, World, Env, Action, pure, throw, statement, in_transaction, or_throw, throw_if, read_clock,
  ◌>>=◌, ◌>>◌,
}
use distributed_ledger_and_t.Ledger.{EntryInput, create_entries}
use distributed_ledger_and_t.Outbox.{create_transaction_completed_event}

-- `findOne` with the lock mode `pessimistic_write`.
unfoldable pub lock_account : Env → Uuid → Action (Option Account)
lock_account env id w =
    statement env false (find_row id w.accounts) w.db (record w { locks = w.locks ++ id ∷ [] })

abbrev pub is_in : Uuid → List Uuid → Bool
is_in k [] = false
is_in k (id ∷ ids) = eqb k id || is_in k ids

abbrev pub accounts_by_id : List Uuid → List Account → List Account
accounts_by_id ids accounts = sort_by (λ a b. leb a.id b.id) (filter (λ a. is_in a.id ids) accounts)

-- `find` with `In(ids)`, in ascending order of `id`, with the lock mode `pessimistic_write`.
unfoldable pub lock_accounts : Env → List Uuid → Action (List Account)
lock_accounts env ids w =
    let found = accounts_by_id ids w.accounts in
    statement env false found w.db (record w { locks = w.locks ++ map (λ a. a.id) found })

unfoldable pub assert_active_account : Account → Action ⊤
assert_active_account account =
    throw_if (not (is_active account.status)) (account_inactive account.id)

unfoldable pub assert_currency : String → String → Action ⊤
assert_currency account_currency request_currency =
    throw_if (not (str_eq account_currency request_currency))
      (currency_mismatch account_currency request_currency)

unfoldable pub assert_sufficient_funds : ℤ → ℤ → Action ⊤
assert_sufficient_funds balance amount =
    throw_if (ltb_ℤ balance amount) (insufficient_funds balance amount)

abbrev pub pending_row : Env → Draft → World → Transaction
pending_row env d w = record {
  id = env.gen_random_uuid w.step;
  type = d.type;
  status = TransactionStatus.pending;
  amount = d.amount;
  currency = d.currency;
  from_account_id = d.from_account_id;
  to_account_id = d.to_account_id;
  description = d.description;
  error_code = none;
  completed_at = none;
  created_at = env.db_now w.step;
  updated_at = env.db_now w.step;
}

unfoldable pub insert_transaction : Env → Draft → Action Transaction
insert_transaction env d w =
    let row = pending_row env d w in
    statement env (not (fits_bigint d.amount) || has_row row.id w.transactions) row
      (record w.db { transactions = w.transactions ++ row ∷ [] }) w

unfoldable pub save_transaction : Env → Transaction → Action Transaction
save_transaction env t w =
    let row : Transaction = record t { updated_at = env.db_now w.step } in
    statement env (not (fits_bigint t.amount)) row
      (record w.db { transactions = save_row row w.transactions }) w

abbrev pub overflows : List Account → Bool
overflows [] = false
overflows (a ∷ as') = not (fits_bigint a.balance) || overflows as'

abbrev pub stamp : Time → Account → Account
stamp now a = record a { updated_at = now }

abbrev pub save_rows : Time → List Account → List Account → List Account
save_rows now [] rows = rows
save_rows now (a ∷ as') rows = save_rows now as' (save_row (stamp now a) rows)

-- `manager.save(AccountEntity, accounts)`
unfoldable pub save_accounts : Env → List Account → Action ⊤
save_accounts env accounts w =
    statement env (overflows accounts) tt
      (record w.db { accounts = save_rows (env.db_now w.step) accounts w.accounts }) w

unfoldable pub to_transaction_response : Transaction → TransactionResponse
to_transaction_response t = record {
  id = t.id;
  type = t.type;
  status = t.status;
  amount = t.amount;
  currency = t.currency;
  from_account_id = t.from_account_id;
  to_account_id = t.to_account_id;
  description = t.description;
  completed_at = t.completed_at;
  created_at = t.created_at;
}

-- What the three services do alike once their checks have passed: the pending transaction, the
-- accounts with their new balances, the entries, the completed transaction, its outbox event.
unfoldable pub post :
    Env → Draft → List Account → (Uuid → List EntryInput) → Action TransactionResponse
post env draft accounts entries = do
  transaction ← insert_transaction env draft
  save_accounts env accounts
  create_entries env (entries transaction.id)
  now ← read_clock env
  let completed : Transaction = record transaction {
    status = TransactionStatus.completed;
    completed_at = some now;
  }
  saved_transaction ← save_transaction env completed
  create_transaction_completed_event env saved_transaction none
  pure (to_transaction_response saved_transaction)

unfoldable pub deposit : Env → DepositDto → Action TransactionResponse
deposit env dto = in_transaction (do
  found ← lock_account env dto.account_id
  account ← or_throw found (account_not_found dto.account_id)
  assert_active_account account
  assert_currency account.currency dto.currency
  post env (deposit_draft dto account.id) (deposit_accounts dto account)
      (deposit_entries dto account.id))

unfoldable pub withdraw : Env → DepositDto → Action TransactionResponse
withdraw env dto = in_transaction (do
  found ← lock_account env dto.account_id
  account ← or_throw found (account_not_found dto.account_id)
  assert_active_account account
  assert_currency account.currency dto.currency
  assert_sufficient_funds account.balance dto.amount
  post env (withdraw_draft dto account.id) (withdraw_accounts dto account)
      (withdraw_entries dto account.id))

unfoldable pub transfer : Env → TransferDto → Action TransactionResponse
transfer env dto =
    if eqb dto.from_account_id dto.to_account_id
    then throw (same_account_transfer dto.from_account_id)
    else in_transaction (do
      let ordered_ids = sort_by leb (dto.from_account_id ∷ dto.to_account_id ∷ [])
      accounts ← lock_accounts env ordered_ids
      throw_if (not (eqb (length accounts) 2)) (missing_accounts dto)
      from_account ← or_throw (find_row dto.from_account_id accounts) (missing_accounts dto)
      to_account ← or_throw (find_row dto.to_account_id accounts) (missing_accounts dto)
      assert_active_account from_account
      assert_active_account to_account
      assert_currency from_account.currency dto.currency
      assert_currency to_account.currency dto.currency
      assert_sufficient_funds from_account.balance dto.amount
      post env (transfer_draft dto from_account.id to_account.id)
          (transfer_accounts dto from_account to_account)
          (transfer_entries dto from_account.id to_account.id))

unfoldable pub get_transaction : Env → Uuid → Action TransactionResponse
get_transaction env transaction_id = do
  found ← λ w. statement env false (find_row transaction_id w.transactions) w.db w
  transaction ← or_throw found (transaction_not_found transaction_id)
  pure (to_transaction_response transaction)
