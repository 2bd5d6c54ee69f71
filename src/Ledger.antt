-- ===== src/Ledger.antt =====
-- modules/ledger/ledger.service.ts.
use mathlib.Core.List.{foldl}
use distributed_ledger_and_t.Prelude.{
  ℕ, ℤ, pos, String, Bool, Option, List, [], ◌∷◌, ◌++◌, map, not, ◌||◌, eqb_ℤ, has_row, find_row,
  filter, sort_by, take, leb, option_eqb,
}
use distributed_ledger_and_t.Common.Exceptions.{unbalanced_ledger_entries}
use distributed_ledger_and_t.Common.Number.{add_number, fits_bigint}
use distributed_ledger_and_t.Entities.{
  Uuid, LedgerEntryType, is_debit, is_credit, LedgerEntry, Transaction,
}
use distributed_ledger_and_t.Entities.{ledger_entry_row, transaction_row}
use distributed_ledger_and_t.Database.{World, Env, Action, pure, statement, throw_if, ◌>>=◌, ◌>>◌}

-- The objects that `createEntries` is given; a missing `ledgerAccount` becomes null.
pub record EntryInput : Type 0 where
  pub transaction_id : Uuid
  pub account_id : Option Uuid
  pub ledger_account : Option String
  pub entry_type : LedgerEntryType
  pub amount : ℤ
  pub currency : String

-- `reduce((sum, entry) => sum + entry.amount, 0)`
unfoldable pub sum_amounts : List EntryInput → ℤ
sum_amounts entries = foldl (λ sum e. add_number sum e.amount) (pos 0) entries

unfoldable pub debits : List EntryInput → ℤ
unfolding sum_amounts
debits entries = sum_amounts (filter (λ e. is_debit e.entry_type) entries)

unfoldable pub credits : List EntryInput → ℤ
unfolding sum_amounts
credits entries = sum_amounts (filter (λ e. is_credit e.entry_type) entries)

-- The row that the insertion of an entry at this step of the state adds.
abbrev pub entry_row : Env → EntryInput → World → LedgerEntry
entry_row env e w = record {
  id = env.gen_random_uuid w.step;
  transaction_id = e.transaction_id;
  account_id = e.account_id;
  ledger_account = e.ledger_account;
  entry_type = e.entry_type;
  amount = e.amount;
  currency = e.currency;
  created_at = env.db_now w.step;
}

unfoldable pub insert_entry : Env → EntryInput → Action LedgerEntry
insert_entry env e w =
    let row = entry_row env e w in
    statement env (not (fits_bigint e.amount) || has_row row.id w.ledger_entries) row
      (record w.db { ledger_entries = w.ledger_entries ++ row ∷ [] }) w

-- `manager.save(LedgerEntryEntity, entries)`
unfoldable pub insert_entries : Env → List EntryInput → Action (List LedgerEntry)
insert_entries env [] = pure []
insert_entries env (e ∷ es) = do
  row ← insert_entry env e
  rows ← insert_entries env es
  pure (row ∷ rows)

unfoldable pub create_entries : Env → List EntryInput → Action (List LedgerEntry)
create_entries env entries = do
  throw_if (not (eqb_ℤ (debits entries) (credits entries)))
      (unbalanced_ledger_entries (debits entries) (credits entries))
  insert_entries env entries

-- `relations: { transaction: true }`
abbrev pub with_transaction : List Transaction → LedgerEntry → LedgerEntry × Option Transaction
with_transaction transactions e = (e, find_row e.transaction_id transactions)

unfoldable pub get_account_statement :
    Env → Uuid → ℕ → Action (List (LedgerEntry × Option Transaction))
get_account_statement env account_id limit w =
    let found = filter (λ e. option_eqb e.account_id account_id) w.ledger_entries in
    let newest_first = sort_by (λ a b. leb b.created_at a.created_at) found in
    statement env Bool.false (map (with_transaction w.transactions) (take limit newest_first)) w.db
      w
