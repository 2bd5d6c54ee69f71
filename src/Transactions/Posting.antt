-- ===== src/Transactions/Posting.antt =====
-- The rows that `post` writes for modules/transactions/transactions.service.ts.
use mathlib.Core.Path.{subst}
use mathlib.Core.List.{append-nil, append_assoc}
use distributed_ledger_and_t.Prelude.{
  ℕ, suc, Bool, true, false, none, some, List, [], ◌∷◌, ◌++◌, ◌≡◌, refl, sym, arith, not, ◌||◌,
  find_row, has_row, has_row-none, save_row-append_fresh, eqb_ℤ,
}
use distributed_ledger_and_t.Common.Number.{fits_bigint}
use distributed_ledger_and_t.Entities.{
  Uuid, Time, Account, Transaction, TransactionStatus, LedgerEntry, OutboxEvent, OutboxStatus,
  Payload, TransactionResponse, account_row, transaction_row, ledger_entry_row, outbox_event_row,
}
use distributed_ledger_and_t.Database.{World, Env}
use distributed_ledger_and_t.Database.Ensures.{
  Ensures, Ensures-bind, Ensures-statement, Ensures-throw_if,
}
use distributed_ledger_and_t.Ledger.{
  EntryInput, entry_row, insert_entry, insert_entries, create_entries, debits, credits,
}
use distributed_ledger_and_t.Outbox.{event_row, create_transaction_completed_event}
use distributed_ledger_and_t.Transactions.{
  Draft, pending_row, insert_transaction, save_transaction, save_rows, save_accounts, overflows,
  post, to_transaction_response,
}

-- The row that stands for an entry, up to its own id and date.
abbrev pub IsRowOf : EntryInput → LedgerEntry → Type 0
IsRowOf e r =
    (r.transaction_id ≡ e.transaction_id)
    × (r.account_id ≡ e.account_id)
    × (r.ledger_account ≡ e.ledger_account)
    × (r.entry_type ≡ e.entry_type)
    × (r.amount ≡ e.amount)
    × (r.currency ≡ e.currency)

abbrev pub AreRowsOf : List EntryInput → List LedgerEntry → Type 0
AreRowsOf [] [] = Unit
AreRowsOf (e ∷ es) (r ∷ rs) = IsRowOf e r × AreRowsOf es rs
AreRowsOf _ _ = ⊥

-- The completed transaction of a draft.
pub record IsCompletionOf (d : Draft) (t : Transaction) : Type 0 where
  pub type : t.type ≡ d.type
  pub status : t.status ≡ TransactionStatus.completed
  pub amount : t.amount ≡ d.amount
  pub currency : t.currency ≡ d.currency
  pub from_account_id : t.from_account_id ≡ d.from_account_id
  pub to_account_id : t.to_account_id ≡ d.to_account_id
  pub description : t.description ≡ d.description
  pub error_code : t.error_code ≡ none

-- The payload that tells of a transaction.
pub record Describes (t : Transaction) (p : Payload) : Type 0 where
  pub transaction_id : p.transaction_id ≡ t.id
  pub type : p.type ≡ t.type
  pub amount : p.amount ≡ t.amount
  pub currency : p.currency ≡ t.currency
  pub from_account_id : p.from_account_id ≡ t.from_account_id
  pub to_account_id : p.to_account_id ≡ t.to_account_id
  pub completed_at : p.completed_at ≡ t.completed_at

-- The response that shows a transaction.
pub record Shows (t : Transaction) (r : TransactionResponse) : Type 0 where
  pub id : r.id ≡ t.id
  pub type : r.type ≡ t.type
  pub status : r.status ≡ t.status
  pub amount : r.amount ≡ t.amount
  pub currency : r.currency ≡ t.currency
  pub from_account_id : r.from_account_id ≡ t.from_account_id
  pub to_account_id : r.to_account_id ≡ t.to_account_id
  pub description : r.description ≡ t.description
  pub completed_at : r.completed_at ≡ t.completed_at
  pub created_at : r.created_at ≡ t.created_at

pub to_transaction_response-Shows : (t : Transaction) → Shows t (to_transaction_response t)
unfolding to_transaction_response
to_transaction_response-Shows t = record {
  id = refl;
  type = refl;
  status = refl;
  amount = refl;
  currency = refl;
  from_account_id = refl;
  to_account_id = refl;
  description = refl;
  completed_at = refl;
  created_at = refl;
}

-- The event that announces a transaction, ready to be published.
pub record IsEventOf (t : Transaction) (e : OutboxEvent) : Type 0 where
  pub transaction_id : e.transaction_id ≡ t.id
  pub aggregate_id : e.aggregate_id ≡ t.id
  pub aggregate_type : e.aggregate_type ≡ "transaction"
  pub payload : Describes t e.payload
  pub status : e.status ≡ OutboxStatus.pending
  pub retry_count : e.retry_count ≡ 0
  pub next_retry_at : e.next_retry_at ≡ none
  pub event_type : e.event_type ≡ "transaction.completed"

abbrev pub with_entries : World → List LedgerEntry → ℕ → World
with_entries w rows n = record w {
  db = record w.db { ledger_entries = w.ledger_entries ++ rows };
  step = n;
}

or_true_left : (a b : Bool) → (a || b) ≡ false → b ≡ false
or_true_left a b h = ground arith

not-false : (a : Bool) → not a ≡ false → a ≡ true
not-false a h = ground arith

insert_entry-Ensures :
    (P : LedgerEntry → World → Type 0) (env : Env) (e : EntryInput) (w : World)
    → ((row : LedgerEntry) (n : ℕ) → IsRowOf e row → P row (with_entries w (row ∷ []) n))
    → Ensures P (insert_entry env e w)
unfolding insert_entry
insert_entry-Ensures P env e w k =
    Ensures-statement P env _ (entry_row env e w) _ w
      λ _. k (entry_row env e w) (suc w.step) (refl, refl, refl, refl, refl, refl)

insert_entries-Ensures :
    (P : List LedgerEntry → World → Type 0) (env : Env) (es : List EntryInput) (w : World)
    → ((rows : List LedgerEntry) (n : ℕ) → AreRowsOf es rows → P rows (with_entries w rows n))
    → Ensures P (insert_entries env es w)
unfolding insert_entries
insert_entries-Ensures P env [] w k =
    subst (λ rows. P [] (record w { db = record w.db { ledger_entries = rows } }))
      (append-nil w.ledger_entries) (k [] w.step tt)
insert_entries-Ensures P env (e ∷ es) w k = Ensures-bind _ (insert_entry env e) _ w (
    insert_entry-Ensures _ env e w λ row n is_row. Ensures-bind _ (insert_entries env es) _ _ (
      insert_entries-Ensures _ env es _ λ rows m are_rows.
        subst
          (λ all. P (row ∷ rows) (record w { db = record w.db { ledger_entries = all }; step = m }))
          (sym (append_assoc w.ledger_entries (row ∷ []) rows))
          (k (row ∷ rows) m (is_row, are_rows))))

-- Nothing but the entries is added, and they balance.
pub create_entries-Ensures :
    (P : List LedgerEntry → World → Type 0) (env : Env) (es : List EntryInput) (w : World)
    → ((rows : List LedgerEntry) (n : ℕ)
        → eqb_ℤ (debits es) (credits es) ≡ true
        → AreRowsOf es rows
        → P rows (with_entries w rows n))
    → Ensures P (create_entries env es w)
unfolding create_entries
create_entries-Ensures P env es w k = Ensures-bind P _ _ w (
    Ensures-throw_if _ _ _ w λ passed.
      insert_entries-Ensures P env es w
        λ rows n. k rows n (not-false (eqb_ℤ (debits es) (credits es)) passed))

-- The state after a posting.
abbrev pub posted :
    Time → List Account → Transaction → List LedgerEntry → OutboxEvent → ℕ → World → World
posted at accounts t rows e n w = record w {
  db = record w.db {
    accounts = save_rows at accounts w.accounts;
    transactions = w.transactions ++ t ∷ [];
    ledger_entries = w.ledger_entries ++ rows;
    outbox_events = w.outbox_events ++ e ∷ [];
  };
  step = n;
}

-- What is known of the new rows of a posting.
pub record IsPosting (d : Draft) (entries : Uuid → List EntryInput)
    (transactions : List Transaction) (t : Transaction) (rows : List LedgerEntry) (e : OutboxEvent)
    : Type 0 where
  pub fresh : find_row t.id transactions ≡ none
  pub completion : IsCompletionOf d t
  pub balanced : eqb_ℤ (debits (entries t.id)) (credits (entries t.id)) ≡ true
  pub are_rows : AreRowsOf (entries t.id) rows
  pub event : IsEventOf t e

abbrev completed_row : Env → Draft → World → ℕ → Transaction
completed_row env d w n = record (pending_row env d w) {
  status = TransactionStatus.completed;
  completed_at = some (env.date_now n);
  updated_at = env.db_now (suc n);
}

abbrev event_at : Env → Draft → World → ℕ → OutboxEvent
event_at env d w n = event_row env (completed_row env d w n) none (record w { step = suc (suc n) })

completed_row-IsCompletionOf :
    (env : Env) (d : Draft) (w : World) (n : ℕ) → IsCompletionOf d (completed_row env d w n)
completed_row-IsCompletionOf env d w n = record {
  type = refl;
  status = refl;
  amount = refl;
  currency = refl;
  from_account_id = refl;
  to_account_id = refl;
  description = refl;
  error_code = refl;
}

event_at-IsEventOf :
    (env : Env) (d : Draft) (w : World) (n : ℕ)
    → IsEventOf (completed_row env d w n) (event_at env d w n)
event_at-IsEventOf env d w n = record {
  transaction_id = refl;
  aggregate_id = refl;
  aggregate_type = refl;
  payload = record {
    transaction_id = refl;
    type = refl;
    amount = refl;
    currency = refl;
    from_account_id = refl;
    to_account_id = refl;
    completed_at = refl;
  };
  status = refl;
  retry_count = refl;
  next_retry_at = refl;
  event_type = refl;
}

fresh_id :
    (env : Env) (d : Draft) (w : World)
    → (not (fits_bigint d.amount) || has_row (pending_row env d w).id w.transactions) ≡ false
    → find_row (pending_row env d w).id w.transactions ≡ none
fresh_id env d w h = has_row-none _ w.transactions (or_true_left _ _ h)

pub post-Ensures :
    (P : TransactionResponse → World → Type 0) (env : Env) (d : Draft) (accounts : List Account)
    (entries : Uuid → List EntryInput) (w : World)
    → ((at : Time) (t : Transaction) (rows : List LedgerEntry) (e : OutboxEvent) (n : ℕ)
        → IsPosting d entries w.transactions t rows e
        → P (to_transaction_response t) (posted at accounts t rows e n w))
    → Ensures P (post env d accounts entries w)
unfolding post insert_transaction save_accounts save_transaction create_transaction_completed_event
post-Ensures P env d accounts entries w k = Ensures-bind P _ _ w (
    Ensures-statement _ env _ (pending_row env d w) _ w λ inserted. Ensures-bind P _ _ _ (
      Ensures-statement _ env (overflows accounts) tt _ _ λ fits. Ensures-bind P _ _ _ (
        create_entries-Ensures _ env (entries (pending_row env d w).id) _
          λ rows n balanced are_rows. Ensures-bind P _ _ _ (
            Ensures-bind P _ _ _ (
              Ensures-statement _ env _ _ _ _ λ fits_again. Ensures-bind P _ _ _ (
                Ensures-statement _ env _ _ _ _ λ announced.
                  subst
                    (λ all. P (to_transaction_response (completed_row env d w n)) (record w {
                      db = record w.db {
                        accounts = save_rows (env.db_now (suc w.step)) accounts w.accounts;
                        transactions = all;
                        ledger_entries = w.ledger_entries ++ rows;
                        outbox_events = w.outbox_events ++ event_at env d w n ∷ [];
                      };
                      step = suc (suc (suc n));
                    }))
                    (sym (
                      save_row-append_fresh (completed_row env d w n) (pending_row env d w)
                        w.transactions (fresh_id env d w inserted) refl))
                    (k _ (completed_row env d w n) rows (event_at env d w n) _ (record {
                      fresh = fresh_id env d w inserted;
                      completion = completed_row-IsCompletionOf env d w n;
                      balanced = balanced;
                      are_rows = are_rows;
                      event = event_at-IsEventOf env d w n;
                    }))))))))
