-- ===== src/Tests/Books.antt =====
-- Three accounts whose balances are those of their ledger, in an environment without failures.
use distributed_ledger_and_t.Prelude.{
  ℤ, pos, ◌+ℤ◌, false, Option, none, some, List, [], ◌∷◌, refl, arith, eqb, ◌+◌, Bool-cases, inl,
  inr, eqb-eq, sym,
}
use distributed_ledger_and_t.Entities.{
  Uuid, Account, AccountStatus, Transaction, TransactionType, TransactionStatus, LedgerEntry,
  LedgerEntryType, account_row,
}
use distributed_ledger_and_t.Database.{Db, empty_db, World, Env}
use distributed_ledger_and_t.Reconciliation.{ledger_balance, debit_total, credit_total}
use distributed_ledger_and_t.Transactions.Outcomes.{IsQuiet}
use distributed_ledger_and_t.Transactions.Guards.{IsUsable}
use distributed_ledger_and_t.Accounting.{IsSound}

abbrev pub calm : Env
calm = record {
  gen_random_uuid = λ n. 1000 + n;
  db_now = λ n. n;
  date_now = λ n. n;
  fault = λ n. false;
}

abbrev pub alice : Account
alice = record {
  id = 1;
  currency = "USD";
  balance = pos 100;
  status = AccountStatus.active;
  created_at = 0;
  updated_at = 0;
}

abbrev pub bob : Account
bob = record {
  id = 2;
  currency = "USD";
  balance = pos 50;
  status = AccountStatus.active;
  created_at = 0;
  updated_at = 0;
}

abbrev pub carol : Account
carol = record {
  id = 3;
  currency = "EUR";
  balance = pos 0;
  status = AccountStatus.blocked;
  created_at = 0;
  updated_at = 0;
}

abbrev old_deposit : Uuid → Uuid → ℤ → Transaction
old_deposit id account_id amount = record {
  id = id;
  type = TransactionType.deposit;
  status = TransactionStatus.completed;
  amount = amount;
  currency = "USD";
  from_account_id = none;
  to_account_id = some account_id;
  description = none;
  error_code = none;
  completed_at = some 0;
  created_at = 0;
  updated_at = 0;
}

abbrev old_entry : Uuid → Uuid → Option Uuid → LedgerEntryType → ℤ → LedgerEntry
old_entry id transaction_id account_id entry_type amount = record {
  id = id;
  transaction_id = transaction_id;
  account_id = account_id;
  ledger_account = none;
  entry_type = entry_type;
  amount = amount;
  currency = "USD";
  created_at = 0;
}

abbrev pub entries : List LedgerEntry
entries =
    old_entry 20 10 (some 1) LedgerEntryType.credit (pos 100)
    ∷ old_entry 21 10 none LedgerEntryType.debit (pos 100)
    ∷ old_entry 22 11 (some 2) LedgerEntryType.credit (pos 50)
    ∷ old_entry 23 11 none LedgerEntryType.debit (pos 50)
    ∷ []

abbrev pub books : Db
books = record empty_db {
  accounts = alice ∷ bob ∷ carol ∷ [];
  transactions = old_deposit 10 1 (pos 100) ∷ old_deposit 11 2 (pos 50) ∷ [];
  ledger_entries = entries;
}

abbrev pub idle : Db → World
idle db = record {
  db = db;
  queue = [];
  locks = [];
  step = 0;
  reconciliation_running = false;
  outbox_running = false;
}

abbrev pub opened : World
opened = idle books

pub books-IsSound : IsSound books
unfolding ledger_balance debit_total credit_total ◌+ℤ◌
books-IsSound = record {
  accounts_distinct = (refl, (refl, (refl, tt)));
  transactions_distinct = (refl, (refl, tt));
  nonneg = λ k. ground arith;
  safe = λ k. ground arith;
  matches = λ k. elim (Bool-cases (eqb 1 k)) [
    | inl first ↦ rw (sym (eqb-eq 1 k first)) refl
    | inr other ↦ elim (Bool-cases (eqb 2 k)) [
      | inl second ↦ rw (sym (eqb-eq 2 k second)) refl
      | inr another ↦ elim (Bool-cases (eqb 3 k)) [
        | inl third ↦ rw (sym (eqb-eq 3 k third)) refl
        | inr none_of_them ↦ rw (other, another, none_of_them) refl
      ]
    ]
  ];
  balanced = λ t. elim (Bool-cases (eqb 10 t)) [
    | inl first ↦ rw (sym (eqb-eq 10 t first)) refl
    | inr other ↦ elim (Bool-cases (eqb 11 t)) [
      | inl second ↦ rw (sym (eqb-eq 11 t second)) refl
      | inr neither ↦ rw (other, neither) refl
    ]
  ];
}

pub calm-IsQuiet : IsQuiet calm opened
calm-IsQuiet = record {
  no_fault = λ n. refl;
  draws_once = λ m n e. omega arith;
  unused = record {
    accounts = λ n h. ground arith;
    transactions = λ n h. ground arith;
    ledger_entries = λ n h. ground arith;
    outbox_events = λ n h. refl;
    idempotency_records = λ n h. refl;
  };
}

pub alice-IsUsable : IsUsable 1 "USD" opened alice
alice-IsUsable = record { found = refl; is_active = refl; same_currency = refl }

pub bob-IsUsable : IsUsable 2 "USD" opened bob
bob-IsUsable = record { found = refl; is_active = refl; same_currency = refl }
