-- ===== src/Jobs/Work.antt =====
-- The work of jobs/jobs.service.ts and modules/webhooks/webhooks.service.ts, in any sequence.
use distributed_ledger_and_t.Prelude.{
  ℕ, Bool, true, false, List, [], ◌∷◌, ◌≡◌, ◌≤◌, ◌+◌, refl, ltb, Bool-cases, inl, inr, ⊤,
}
use distributed_ledger_and_t.Common.Exceptions.{Result, ok, err}
use distributed_ledger_and_t.Entities.{Uuid, OutboxEvent, WebhookSubscription}
use distributed_ledger_and_t.Database.{World, Env, pure, try_catch, finally, handled}
use distributed_ledger_and_t.Database.Keeps.{Keeps, statement-Keeps, try_catch-Keeps, bind-Keeps}
use distributed_ledger_and_t.Outbox.{get_processable_events, mark_processing}
use distributed_ledger_and_t.Webhooks.{
  QueueConfig, RegisterWebhookDto, HttpAnswer, register_webhook,
}
use distributed_ledger_and_t.Webhooks.Delivery.{process_delivery}
use distributed_ledger_and_t.Webhooks.Dispatch.{dispatch_outbox_event}
use distributed_ledger_and_t.Webhooks.Outcomes.{
  AreWithin, process_delivery-Keeps, update_event-Keeps, mark_failed-Keeps,
}
use distributed_ledger_and_t.Webhooks.Creation.{dispatch_outbox_event-Keeps}
use distributed_ledger_and_t.Jobs.{
  next_event_retry, mark_outbox_event_for_retry, process_event, process_events, process_batch,
  process_outbox_batch,
}

-- The work of the service for its webhooks: registrations, dispatches, jobs of the queue, batches.
pub data Task : Type 0 where
  register : RegisterWebhookDto → Task
  dispatch : Uuid → Task
  deliver : Uuid → Task
  poll : Task

module _ (fetch : WebhookSubscription → OutboxEvent → ℕ → HttpAnswer) (env : Env)
    (config : QueueConfig) where
  unfoldable pub perform_task : Task → World → World
  perform_task (register dto) w = (register_webhook env dto w).1
  perform_task (dispatch event_id) w = (dispatch_outbox_event env event_id w).1
  perform_task (deliver delivery_id) w = (process_delivery fetch env config delivery_id w).1
  perform_task poll w = (process_outbox_batch env config w).1

  unfoldable pub perform_tasks : List Task → World → World
  perform_tasks [] w = w
  perform_tasks (t ∷ ts) w = perform_tasks ts (perform_task t w)

  register_webhook-Keeps :
      (dto : RegisterWebhookDto)
      → Keeps (AreWithin config.webhook_max_attempts) (register_webhook env dto)
  unfolding register_webhook
  register_webhook-Keeps dto w p =
      statement-Keeps (AreWithin config.webhook_max_attempts) env _ _ _ w p p

  process_event-Keeps :
      1 ≤ config.webhook_max_attempts
      → (event : OutboxEvent)
      → Keeps (AreWithin config.webhook_max_attempts) (process_event env config event)
  unfolding process_event mark_processing mark_outbox_event_for_retry
  process_event-Keeps allowed event =
      try_catch-Keeps (AreWithin config.webhook_max_attempts) _ _
        (bind-Keeps (AreWithin config.webhook_max_attempts) _ _
          (update_event-Keeps config.webhook_max_attempts env event.id _)
          (λ _. dispatch_outbox_event-Keeps env config.webhook_max_attempts allowed event.id))
        (λ e.
          bind-Keeps (AreWithin config.webhook_max_attempts) _ _
            (next_event_retry-Keeps (ltb (event.retry_count + 1) config.outbox_max_attempts)
              (event.retry_count + 1))
            (λ retry.
              mark_failed-Keeps config.webhook_max_attempts env event.id (event.retry_count + 1)
                retry))
    where
      next_event_retry-Keeps :
          (c : Bool) (n : ℕ)
          → Keeps (AreWithin config.webhook_max_attempts) (next_event_retry env config c n)
      next_event_retry-Keeps false n = λ w p. p
      next_event_retry-Keeps true n =
          bind-Keeps (AreWithin config.webhook_max_attempts) _ _ (λ w p. p) (λ now w p. p)

  process_events-Keeps :
      1 ≤ config.webhook_max_attempts
      → (events : List OutboxEvent)
      → Keeps (AreWithin config.webhook_max_attempts) (process_events env config events)
  unfolding process_events
  process_events-Keeps allowed [] = λ w p. p
  process_events-Keeps allowed (event ∷ events) =
      bind-Keeps (AreWithin config.webhook_max_attempts) _ _ (process_event-Keeps allowed event)
        (λ _. process_events-Keeps allowed events)

  process_batch-Keeps :
      1 ≤ config.webhook_max_attempts
      → Keeps (AreWithin config.webhook_max_attempts) (process_batch env config)
  unfolding process_batch get_processable_events
  process_batch-Keeps allowed =
      bind-Keeps (AreWithin config.webhook_max_attempts) _ _ (λ w p. p)
        (λ now.
          bind-Keeps (AreWithin config.webhook_max_attempts) _ _
            (bind-Keeps (AreWithin config.webhook_max_attempts) _ _ (λ w p. p)
              (λ at w p. statement-Keeps (AreWithin config.webhook_max_attempts) env _ _ _ w p p))
            (process_events-Keeps allowed))

  process_outbox_batch-Keeps :
      1 ≤ config.webhook_max_attempts
      → Keeps (AreWithin config.webhook_max_attempts) (process_outbox_batch env config)
  unfolding process_outbox_batch finally
  process_outbox_batch-Keeps allowed w p = elim (Bool-cases w.outbox_running) [
    | inl busy ↦ rw busy p
    | inr idle ↦ rw idle (
        try_catch-Keeps (AreWithin config.webhook_max_attempts) (process_batch env config) _
          (process_batch-Keeps allowed) (λ e w p. p) _ p)
  ]

  -- Whatever is registered, polled, dispatched and delivered, in whatever order, whatever the endpoints
  -- answer and whichever statements fail: with at least one attempt allowed, from deliveries within the
  -- limit, no delivery's stored count of attempts exceeds the limit, and that of a pending delivery is
  -- below it.
  pub perform_tasks-AreWithin :
      1 ≤ config.webhook_max_attempts
      → (ts : List Task) (w : World) → AreWithin config.webhook_max_attempts w.db
      → AreWithin config.webhook_max_attempts (perform_tasks ts w).db
  unfolding perform_tasks perform_task
  perform_tasks-AreWithin allowed [] w p = p
  perform_tasks-AreWithin allowed (register dto ∷ ts) w p =
      perform_tasks-AreWithin allowed ts _ (register_webhook-Keeps dto w p)
  perform_tasks-AreWithin allowed (dispatch id ∷ ts) w p =
      perform_tasks-AreWithin allowed ts _
        (dispatch_outbox_event-Keeps env config.webhook_max_attempts allowed id w p)
  perform_tasks-AreWithin allowed (deliver id ∷ ts) w p =
      perform_tasks-AreWithin allowed ts _ (process_delivery-Keeps fetch env config id w p)
  perform_tasks-AreWithin allowed (poll ∷ ts) w p =
      perform_tasks-AreWithin allowed ts _ (process_outbox_batch-Keeps allowed w p)

-- In any environment, a batch that starts when none is running returns without an exception and
-- leaves none marked as running.
pub process_outbox_batch_ends :
    (env : Env) (config : QueueConfig) (w : World)
    → w.outbox_running ≡ false
    → ((process_outbox_batch env config w).0 ≡ ok tt)
      × ((process_outbox_batch env config w).1.outbox_running ≡ false)
unfolding process_outbox_batch finally try_catch
process_outbox_batch_ends env config w idle =
    rw idle (caught (process_batch env config (record w { outbox_running = true })), refl)
  where
    caught : (o : Result ⊤ × World) → (handled o.0 (λ e. pure tt) o.1).0 ≡ ok tt
    caught (ok a, v) = refl
    caught (err e, v) = refl
