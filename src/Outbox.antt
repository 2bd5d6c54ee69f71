-- ===== src/Outbox.antt =====
-- modules/outbox/outbox.service.ts.
use mathlib.Core.Option
use distributed_ledger_and_t.Prelude.{
  ℕ, Bool, true, false, Option, none, some, List, [], ◌∷◌, ◌++◌, ◌||◌, has_row, find_row,
  update_row, filter, sort_by, take, leb, ⊤,
}
use distributed_ledger_and_t.Entities.{Uuid, Time, Transaction, OutboxEvent, OutboxStatus, Payload}
use distributed_ledger_and_t.Entities.{outbox_event_row}
use distributed_ledger_and_t.Database.{Db, World, Env, Action, statement, read_clock, ◌>>=◌}

abbrev pub completed_payload : Transaction → Payload
completed_payload t = record {
  transaction_id = t.id;
  type = t.type;
  amount = t.amount;
  currency = t.currency;
  from_account_id = t.from_account_id;
  to_account_id = t.to_account_id;
  completed_at = t.completed_at;
}

-- The row that the insertion of a completed transaction's event at this step adds.
abbrev pub event_row : Env → Transaction → Option Payload → World → OutboxEvent
event_row env t payload w = record {
  id = env.gen_random_uuid w.step;
  aggregate_type = "transaction";
  aggregate_id = t.id;
  event_type = "transaction.completed";
  payload = Option.get_or payload (completed_payload t);
  status = OutboxStatus.pending;
  retry_count = 0;
  next_retry_at = none;
  published_at = none;
  transaction_id = t.id;
  created_at = env.db_now w.step;
  updated_at = env.db_now w.step;
}

unfoldable pub create_transaction_completed_event :
    Env → Transaction → Option Payload → Action OutboxEvent
create_transaction_completed_event env t payload w =
    let row = event_row env t payload w in
    statement env (has_row row.id w.outbox_events) row
      (record w.db { outbox_events = w.outbox_events ++ row ∷ [] }) w

abbrev is_null : Option Time → Bool
is_null none = true
is_null (some _) = false

-- `LessThanOrEqual(date)`: null is in no order.
abbrev less_than_or_equal : Option Time → Time → Bool
less_than_or_equal none date = false
less_than_or_equal (some t) date = leb t date

-- The three alternatives of the `where` array.
unfoldable pub is_processable : Time → Time → OutboxEvent → Bool
is_processable now stale_before e = elim e.status [
  | OutboxStatus.pending ↦ is_null e.next_retry_at || less_than_or_equal e.next_retry_at now
  | OutboxStatus.processing ↦ leb e.updated_at stale_before
  | OutboxStatus.published ↦ false
  | OutboxStatus.failed ↦ false
]

unfoldable pub select_processable : Time → ℕ → Time → Db → List OutboxEvent
select_processable now limit stale_before db = take limit (
    sort_by (λ a b. leb a.created_at b.created_at)
      (filter (is_processable now stale_before) db.outbox_events))

unfoldable pub get_processable_events : Env → ℕ → Time → Action (List OutboxEvent)
get_processable_events env limit stale_before = do
  now ← read_clock env
  λ w. statement env false (select_processable now limit stale_before w.db) w.db w

-- `outboxRepository.update(eventId, changes)`; the column `updated_at` moves along.
unfoldable pub update_event : Env → Uuid → (OutboxEvent → OutboxEvent) → Action ⊤
update_event env event_id change w =
    let stamped = λ (e : OutboxEvent). record (change e) { updated_at = env.db_now w.step } in
    statement env false tt
      (record w.db { outbox_events = update_row event_id stamped w.outbox_events }) w

unfoldable pub mark_processing : Env → Uuid → Action ⊤
mark_processing env event_id =
    update_event env event_id (λ e. record e { status = OutboxStatus.processing })

unfoldable pub mark_published : Env → Uuid → Action ⊤
mark_published env event_id = do
  now ← read_clock env
  update_event env event_id
      (λ e. record e { status = OutboxStatus.published; published_at = some now })

abbrev pub failed_status : Option Time → OutboxStatus
failed_status none = OutboxStatus.failed
failed_status (some _) = OutboxStatus.pending

unfoldable pub mark_failed : Env → Uuid → ℕ → Option Time → Action ⊤
mark_failed env event_id retry_count next_retry_at = update_event env event_id λ e. record e {
  status = failed_status next_retry_at;
  retry_count = retry_count;
  next_retry_at = next_retry_at;
}

unfoldable pub get_by_id : Env → Uuid → Action (Option OutboxEvent)
get_by_id env event_id w = statement env false (find_row event_id w.outbox_events) w.db w
