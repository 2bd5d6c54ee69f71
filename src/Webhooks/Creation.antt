-- ===== src/Webhooks/Creation.antt =====
-- The deliveries that `dispatchOutboxEvent` of modules/webhooks/webhooks.service.ts creates.
use distributed_ledger_and_t.Prelude.{
  ℕ, Option, none, some, List, [], ◌∷◌, ◌++◌, ◌≤◌, arith, All-append, filter,
}
use distributed_ledger_and_t.Entities.{
  Uuid, Time, OutboxEvent, WebhookSubscription, WebhookDelivery, webhook_delivery_row,
}
use distributed_ledger_and_t.Database.{Env}
use distributed_ledger_and_t.Database.Keeps.{
  Keeps, statement-Keeps, in_transaction-Keeps, bind-Keeps,
}
use distributed_ledger_and_t.Outbox.{get_by_id}
use distributed_ledger_and_t.Webhooks.{find_deliveries, is_pending}
use distributed_ledger_and_t.Webhooks.Dispatch.{
  find_subscriptions, insert_delivery, draft_deliveries, insert_deliveries, create_deliveries,
  enqueue_all, enqueue_or_settle, deliver_event, publish_or_deliver, dispatch_found,
  dispatch_outbox_event,
}
use distributed_ledger_and_t.Webhooks.Outcomes.{
  IsWithin, AreWithin, mark_published-Keeps, update_outbox_status-Keeps, enqueue_delivery-Keeps,
}

module _ (env : Env) (limit : ℕ) (allowed : 1 ≤ limit) where
  insert_delivery-Keeps :
      (subscription_id event_id : Uuid) (now : Time)
      → Keeps (AreWithin limit) (insert_delivery env subscription_id event_id now)
  unfolding insert_delivery
  insert_delivery-Keeps subscription_id event_id now w p =
      statement-Keeps (AreWithin limit) env _ _ _ w p (
        All-append (IsWithin limit) w.webhook_deliveries _ p
          ((omega arith, λ pending. omega arith), tt))

  draft_deliveries-Keeps :
      (ss : List WebhookSubscription) → Keeps (AreWithin limit) (draft_deliveries env ss)
  unfolding draft_deliveries
  draft_deliveries-Keeps [] = λ w p. p
  draft_deliveries-Keeps (s ∷ ss) =
      bind-Keeps (AreWithin limit) _ _ (λ w p. p)
        (λ now. bind-Keeps (AreWithin limit) _ _ (draft_deliveries-Keeps ss) (λ rest w p. p))

  insert_deliveries-Keeps :
      (event_id : Uuid) (drafts : List (WebhookSubscription × Time))
      → Keeps (AreWithin limit) (insert_deliveries env event_id drafts)
  unfolding insert_deliveries
  insert_deliveries-Keeps event_id [] = λ w p. p
  insert_deliveries-Keeps event_id ((s, now) ∷ drafts) =
      bind-Keeps (AreWithin limit) _ _ (insert_delivery-Keeps s.id event_id now) (λ row.
        bind-Keeps (AreWithin limit) _ _ (insert_deliveries-Keeps event_id drafts) (λ rows w p. p))

  create_deliveries-Keeps :
      (event_id : Uuid) (ss : List WebhookSubscription)
      → Keeps (AreWithin limit) (create_deliveries env event_id ss)
  unfolding create_deliveries
  create_deliveries-Keeps event_id [] = λ w p. p
  create_deliveries-Keeps event_id (s ∷ ss) =
      bind-Keeps (AreWithin limit) _ _ (draft_deliveries-Keeps (s ∷ ss)) (λ drafts.
        in_transaction-Keeps (AreWithin limit) _ (insert_deliveries-Keeps event_id drafts))

  enqueue_all-Keeps : (ds : List WebhookDelivery) → Keeps (AreWithin limit) (enqueue_all env ds)
  unfolding enqueue_all
  enqueue_all-Keeps [] w p = p
  enqueue_all-Keeps (d ∷ ds) w p =
      enqueue_all-Keeps ds _ (enqueue_delivery-Keeps limit env d.id 0 _ w p)

  enqueue_or_settle-Keeps :
      (event_id : Uuid) (ds : List WebhookDelivery)
      → Keeps (AreWithin limit) (enqueue_or_settle env event_id ds)
  enqueue_or_settle-Keeps event_id [] = update_outbox_status-Keeps limit env event_id
  enqueue_or_settle-Keeps event_id (d ∷ ds) = enqueue_all-Keeps (d ∷ ds)

  deliver_event-Keeps :
      (event : OutboxEvent) (ss : List WebhookSubscription) (ds : List WebhookDelivery)
      → Keeps (AreWithin limit) (deliver_event env event ss ds)
  unfolding deliver_event
  deliver_event-Keeps event ss ds =
      bind-Keeps (AreWithin limit) _ _ (create_deliveries-Keeps event.id _)
        (λ created. enqueue_or_settle-Keeps event.id (filter is_pending (ds ++ created)))

  publish_or_deliver-Keeps :
      (event : OutboxEvent) (ss : List WebhookSubscription) (ds : List WebhookDelivery)
      → Keeps (AreWithin limit) (publish_or_deliver env event ss ds)
  unfolding publish_or_deliver
  publish_or_deliver-Keeps event [] [] = mark_published-Keeps limit env event.id
  publish_or_deliver-Keeps event (s ∷ ss) ds = deliver_event-Keeps event (s ∷ ss) ds
  publish_or_deliver-Keeps event [] (d ∷ ds) = deliver_event-Keeps event [] (d ∷ ds)

  dispatch_found-Keeps :
      (event : Option OutboxEvent) → Keeps (AreWithin limit) (dispatch_found env event)
  unfolding dispatch_found find_subscriptions find_deliveries
  dispatch_found-Keeps none = λ w p. p
  dispatch_found-Keeps (some event) =
      bind-Keeps (AreWithin limit) _ _ (λ w p. statement-Keeps (AreWithin limit) env _ _ _ w p p)
        (λ ss.
          bind-Keeps (AreWithin limit) _ _
            (λ w p. statement-Keeps (AreWithin limit) env _ _ _ w p p)
            (λ ds. publish_or_deliver-Keeps event ss ds))

  pub dispatch_outbox_event-Keeps :
      (event_id : Uuid) → Keeps (AreWithin limit) (dispatch_outbox_event env event_id)
  unfolding dispatch_outbox_event get_by_id
  dispatch_outbox_event-Keeps event_id =
      bind-Keeps (AreWithin limit) _ _ (λ w p. statement-Keeps (AreWithin limit) env _ _ _ w p p)
        dispatch_found-Keeps
