-- ===== src/Jobs.antt =====
-- jobs/jobs.service.ts: the batch over the outbox, which a timer starts, and the retry of an event.
-- The deliveries that processors/webhook-delivery.processor.ts takes from the queue are calls of
-- `process_delivery`.
pub mod Work
use distributed_ledger_and_t.Prelude.{
  ℕ, Bool, true, false, Option, none, some, List, [], ◌∷◌, ◌+◌, ◌-◌, ltb, if◌then◌else◌, ⊤,
}
use distributed_ledger_and_t.Common.Exceptions.{Exception}
use distributed_ledger_and_t.Entities.{Uuid, Time, OutboxEvent}
use distributed_ledger_and_t.Database.{
  World, Env, Action, pure, try_catch, finally, read_clock, ◌>>=◌, ◌>>◌,
}
use distributed_ledger_and_t.Outbox.{get_processable_events, mark_processing, mark_failed}
use distributed_ledger_and_t.Webhooks.{QueueConfig}
use distributed_ledger_and_t.Webhooks.Delivery.{backoff}
use distributed_ledger_and_t.Webhooks.Dispatch.{dispatch_outbox_event}

module _ (env : Env) (config : QueueConfig) where
  abbrev pub next_event_retry : Bool → ℕ → Action (Option Time)
  next_event_retry false next_retry_count = pure none
  next_event_retry true next_retry_count = do
    now ← read_clock env
    pure (some (now + backoff config.outbox_backoff_ms next_retry_count))

  unfoldable pub mark_outbox_event_for_retry : Uuid → ℕ → Action ⊤
  mark_outbox_event_for_retry event_id retry_count = do
    next_retry_at ←
        next_event_retry (ltb (retry_count + 1) config.outbox_max_attempts) (retry_count + 1)
    mark_failed env event_id (retry_count + 1) next_retry_at

  unfoldable pub process_event : OutboxEvent → Action ⊤
  process_event event =
      try_catch (do mark_processing env event.id; dispatch_outbox_event env event.id)
        (λ e. mark_outbox_event_for_retry event.id event.retry_count)

  unfoldable pub process_events : List OutboxEvent → Action ⊤
  process_events [] = pure tt
  process_events (event ∷ events) = do process_event event; process_events events

  -- The body of the `try` block.
  unfoldable pub process_batch : Action ⊤
  process_batch = do
    now ← read_clock env
    events ←
        get_processable_events env config.outbox_batch_size (now - config.outbox_stale_after_ms)
    process_events events

  abbrev pub set_outbox_running : Bool → World → World
  set_outbox_running b w = record w { outbox_running = b }

  unfoldable pub process_outbox_batch : Action ⊤
  process_outbox_batch w =
      if w.outbox_running
      then pure tt w
      else finally (try_catch process_batch (λ e. pure tt)) (set_outbox_running false)
          (set_outbox_running true w)
