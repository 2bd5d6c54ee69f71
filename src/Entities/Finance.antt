-- ===== src/Entities/Finance.antt =====
-- modules/accounts, modules/transactions, modules/ledger: entities and enums.
use distributed_ledger_and_t.Prelude.{ℕ, ℤ, String, Bool, true, false, Option, Row}

abbrev pub Uuid : Type 0
Uuid = ℕ

abbrev pub Time : Type 0
Time = ℕ

pub data AccountStatus : Type 0 where
  active blocked : AccountStatus

pub data TransactionType : Type 0 where
  deposit withdrawal transfer : TransactionType

pub data TransactionStatus : Type 0 where
  pending completed failed : TransactionStatus

pub data LedgerEntryType : Type 0 where
  debit credit : LedgerEntryType

abbrev pub is_active : AccountStatus → Bool
is_active AccountStatus.active = true
is_active AccountStatus.blocked = false

abbrev pub is_debit : LedgerEntryType → Bool
is_debit LedgerEntryType.debit = true
is_debit LedgerEntryType.credit = false

abbrev pub is_credit : LedgerEntryType → Bool
is_credit LedgerEntryType.debit = false
is_credit LedgerEntryType.credit = true

-- `accounts`
pub record Account : Type 0 where
  pub id : Uuid
  pub currency : String
  pub balance : ℤ
  pub status : AccountStatus
  pub created_at : Time
  pub updated_at : Time

-- `transactions`
pub record Transaction : Type 0 where
  pub id : Uuid
  pub type : TransactionType
  pub status : TransactionStatus
  pub amount : ℤ
  pub currency : String
  pub from_account_id : Option Uuid
  pub to_account_id : Option Uuid
  pub description : Option String
  pub error_code : Option String
  pub completed_at : Option Time
  pub created_at : Time
  pub updated_at : Time

-- `ledger_entries`
pub record LedgerEntry : Type 0 where
  pub id : Uuid
  pub transaction_id : Uuid
  pub account_id : Option Uuid
  pub ledger_account : Option String
  pub entry_type : LedgerEntryType
  pub amount : ℤ
  pub currency : String
  pub created_at : Time

instance abbrev pub account_row : Row Account
account_row = record { key = λ a. a.id }

instance abbrev pub transaction_row : Row Transaction
transaction_row = record { key = λ t. t.id }

instance abbrev pub ledger_entry_row : Row LedgerEntry
ledger_entry_row = record { key = λ e. e.id }

-- What `toTransactionResponse` returns.
pub record TransactionResponse : Type 0 where
  pub id : Uuid
  pub type : TransactionType
  pub status : TransactionStatus
  pub amount : ℤ
  pub currency : String
  pub from_account_id : Option Uuid
  pub to_account_id : Option Uuid
  pub description : Option String
  pub completed_at : Option Time
  pub created_at : Time

-- What `createAccount` returns.
pub record AccountResponse : Type 0 where
  pub id : Uuid
  pub currency : String
  pub balance : ℤ
  pub status : AccountStatus
  pub created_at : Time
