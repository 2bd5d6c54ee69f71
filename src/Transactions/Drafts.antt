-- ===== src/Transactions/Drafts.antt =====
-- The DTOs of modules/transactions, and the objects that its service makes of them.
use distributed_ledger_and_t.Prelude.{ℤ, String, Option, none, some, List, [], ◌∷◌}
use distributed_ledger_and_t.Common.Exceptions.{Exception, accounts_not_found}
use distributed_ledger_and_t.Common.Number.{add_number, sub_number}
use distributed_ledger_and_t.Entities.{
  Uuid, Account, TransactionType, LedgerEntryType, account_row, transaction_row,
}
use distributed_ledger_and_t.Ledger.{EntryInput}

-- `DepositDto`, and `WithdrawDto`, which extends it.
pub record DepositDto : Type 0 where
  pub account_id : Uuid
  pub amount : ℤ
  pub currency : String
  pub description : Option String

pub record TransferDto : Type 0 where
  pub from_account_id : Uuid
  pub to_account_id : Uuid
  pub amount : ℤ
  pub currency : String
  pub description : Option String

-- The object that a service passes to `manager.create(TransactionEntity, …)`.
pub record Draft : Type 0 where
  pub type : TransactionType
  pub amount : ℤ
  pub currency : String
  pub from_account_id : Option Uuid
  pub to_account_id : Option Uuid
  pub description : Option String

abbrev pub account_entry : Uuid → Uuid → LedgerEntryType → ℤ → String → EntryInput
account_entry transaction_id account_id entry_type amount currency = record {
  transaction_id = transaction_id;
  account_id = some account_id;
  ledger_account = none;
  entry_type = entry_type;
  amount = amount;
  currency = currency;
}

abbrev pub settlement_entry : Uuid → LedgerEntryType → ℤ → String → EntryInput
settlement_entry transaction_id entry_type amount currency = record {
  transaction_id = transaction_id;
  account_id = none;
  ledger_account = some "external_settlement";
  entry_type = entry_type;
  amount = amount;
  currency = currency;
}

abbrev pub deposit_draft : DepositDto → Uuid → Draft
deposit_draft dto account_id = record {
  type = TransactionType.deposit;
  amount = dto.amount;
  currency = dto.currency;
  from_account_id = none;
  to_account_id = some account_id;
  description = dto.description;
}

abbrev pub deposit_entries : DepositDto → Uuid → Uuid → List EntryInput
deposit_entries dto account_id transaction_id =
    account_entry transaction_id account_id LedgerEntryType.credit dto.amount dto.currency
    ∷ settlement_entry transaction_id LedgerEntryType.debit dto.amount dto.currency
    ∷ []

-- The rows to save, with the balances changed.
abbrev pub deposit_accounts : DepositDto → Account → List Account
deposit_accounts dto account =
    record account { balance = add_number account.balance dto.amount } ∷ []

abbrev pub withdraw_draft : DepositDto → Uuid → Draft
withdraw_draft dto account_id = record {
  type = TransactionType.withdrawal;
  amount = dto.amount;
  currency = dto.currency;
  from_account_id = some account_id;
  to_account_id = none;
  description = dto.description;
}

abbrev pub withdraw_entries : DepositDto → Uuid → Uuid → List EntryInput
withdraw_entries dto account_id transaction_id =
    account_entry transaction_id account_id LedgerEntryType.debit dto.amount dto.currency
    ∷ settlement_entry transaction_id LedgerEntryType.credit dto.amount dto.currency
    ∷ []

abbrev pub withdraw_accounts : DepositDto → Account → List Account
withdraw_accounts dto account =
    record account { balance = sub_number account.balance dto.amount } ∷ []

abbrev pub transfer_draft : TransferDto → Uuid → Uuid → Draft
transfer_draft dto from_id to_id = record {
  type = TransactionType.transfer;
  amount = dto.amount;
  currency = dto.currency;
  from_account_id = some from_id;
  to_account_id = some to_id;
  description = dto.description;
}

abbrev pub transfer_entries : TransferDto → Uuid → Uuid → Uuid → List EntryInput
transfer_entries dto from_id to_id transaction_id =
    account_entry transaction_id from_id LedgerEntryType.debit dto.amount dto.currency
    ∷ account_entry transaction_id to_id LedgerEntryType.credit dto.amount dto.currency
    ∷ []

abbrev pub missing_accounts : TransferDto → Exception
missing_accounts dto = accounts_not_found dto.from_account_id dto.to_account_id

abbrev pub transfer_accounts : TransferDto → Account → Account → List Account
transfer_accounts dto from_account to_account =
    record from_account { balance = sub_number from_account.balance dto.amount }
    ∷ record to_account { balance = add_number to_account.balance dto.amount }
    ∷ []
