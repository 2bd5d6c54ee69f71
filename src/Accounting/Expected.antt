-- ===== src/Accounting/Expected.antt =====
-- What a deposit, a withdrawal and a transfer of modules/transactions have to do.
use distributed_ledger_and_t.Prelude.{ℤ, pos, ◌+ℤ◌, ◌-ℤ◌, none, some, List, [], ◌∷◌, ◌++◌, ◌≡◌}
use distributed_ledger_and_t.Entities.{
  Uuid, Transaction, TransactionType, LedgerEntryType, LedgerEntry, OutboxEvent,
  TransactionResponse,
}
use distributed_ledger_and_t.Database.{World}
use distributed_ledger_and_t.Ledger.{EntryInput}
use distributed_ledger_and_t.Transactions.{Draft, DepositDto, TransferDto}
use distributed_ledger_and_t.Transactions.Posting.{IsCompletionOf, IsEventOf, AreRowsOf, Shows}
use distributed_ledger_and_t.Accounting.{balance_of, total_balance}
use distributed_ledger_and_t.Accounting.Effects.{moved}

-- From `w` to `v` a transaction was recorded, announced and answered, with the entries that are
-- asked for; each balance moved by `delta` and all together by `change`; the tables of webhooks and
-- of reconciliation stayed.
pub record IsMovement (d : Draft) (entries : Uuid → List EntryInput) (delta : Uuid → ℤ) (change : ℤ)
    (w : World) (r : TransactionResponse) (v : World) : Type 0 where
  pub transaction : Transaction
  pub rows : List LedgerEntry
  pub event : OutboxEvent
  pub recorded : v.transactions ≡ w.transactions ++ transaction ∷ []
  pub completed : IsCompletionOf d transaction
  pub entered : v.ledger_entries ≡ w.ledger_entries ++ rows
  pub as_asked : AreRowsOf (entries transaction.id) rows
  pub announced : v.outbox_events ≡ w.outbox_events ++ event ∷ []
  pub announces : IsEventOf transaction event
  pub answered : Shows transaction r
  pub moves : (k : Uuid) → balance_of k v.accounts ≡ balance_of k w.accounts +ℤ delta k
  pub total : total_balance v.accounts ≡ total_balance w.accounts +ℤ change
  pub webhook_subscriptions : v.webhook_subscriptions ≡ w.webhook_subscriptions
  pub webhook_deliveries : v.webhook_deliveries ≡ w.webhook_deliveries
  pub reconciliation_runs : v.reconciliation_runs ≡ w.reconciliation_runs
  pub reconciliation_issues : v.reconciliation_issues ≡ w.reconciliation_issues

-- What a deposit, a withdrawal and a transfer have to do, each with the transaction and the two
-- entries written out.
abbrev pub IsDeposit : DepositDto → World → TransactionResponse → World → Type 0
IsDeposit dto =
    IsMovement
      (record {
        type = TransactionType.deposit;
        amount = dto.amount;
        currency = dto.currency;
        from_account_id = none;
        to_account_id = some dto.account_id;
        description = dto.description;
      })
      (λ t.
        record {
          transaction_id = t;
          account_id = some dto.account_id;
          ledger_account = none;
          entry_type = LedgerEntryType.credit;
          amount = dto.amount;
          currency = dto.currency;
        }
        ∷ record {
          transaction_id = t;
          account_id = none;
          ledger_account = some "external_settlement";
          entry_type = LedgerEntryType.debit;
          amount = dto.amount;
          currency = dto.currency;
        }
        ∷ [])
      (moved dto.account_id dto.amount) dto.amount

abbrev pub IsWithdrawal : DepositDto → World → TransactionResponse → World → Type 0
IsWithdrawal dto =
    IsMovement
      (record {
        type = TransactionType.withdrawal;
        amount = dto.amount;
        currency = dto.currency;
        from_account_id = some dto.account_id;
        to_account_id = none;
        description = dto.description;
      })
      (λ t.
        record {
          transaction_id = t;
          account_id = some dto.account_id;
          ledger_account = none;
          entry_type = LedgerEntryType.debit;
          amount = dto.amount;
          currency = dto.currency;
        }
        ∷ record {
          transaction_id = t;
          account_id = none;
          ledger_account = some "external_settlement";
          entry_type = LedgerEntryType.credit;
          amount = dto.amount;
          currency = dto.currency;
        }
        ∷ [])
      (moved dto.account_id (pos 0 -ℤ dto.amount)) (pos 0 -ℤ dto.amount)

abbrev pub IsTransfer : TransferDto → World → TransactionResponse → World → Type 0
IsTransfer dto =
    IsMovement
      (record {
        type = TransactionType.transfer;
        amount = dto.amount;
        currency = dto.currency;
        from_account_id = some dto.from_account_id;
        to_account_id = some dto.to_account_id;
        description = dto.description;
      })
      (λ t.
        record {
          transaction_id = t;
          account_id = some dto.from_account_id;
          ledger_account = none;
          entry_type = LedgerEntryType.debit;
          amount = dto.amount;
          currency = dto.currency;
        }
        ∷ record {
          transaction_id = t;
          account_id = some dto.to_account_id;
          ledger_account = none;
          entry_type = LedgerEntryType.credit;
          amount = dto.amount;
          currency = dto.currency;
        }
        ∷ [])
      (λ k.
        moved dto.from_account_id (pos 0 -ℤ dto.amount) k +ℤ moved dto.to_account_id dto.amount k)
      (pos 0)
