-- ===== src/Webhooks/Dispatch.antt =====
-- `dispatchOutboxEvent` of modules/webhooks/webhooks.service.ts.
use distributed_ledger_and_t.Prelude.{
  Bool, true, false, Option, none, some, List, [], ◌∷◌, ◌++◌, ◌||◌, ◌+◌, not, has_row, filter, eqb,
  ⊤,
}
use distributed_ledger_and_t.Common.Exceptions.{Result, ok, err}
use distributed_ledger_and_t.Entities.{
  Uuid, Time, OutboxEvent, WebhookSubscription, WebhookDelivery, WebhookDeliveryStatus,
  webhook_delivery_row,
}
use distributed_ledger_and_t.Database.{
  World, Env, Action, pure, statement, in_transaction, read_clock, ◌>>=◌,
}
use distributed_ledger_and_t.Outbox.{mark_published, get_by_id}
use distributed_ledger_and_t.Webhooks.{
  is_pending, is_active_for, find_deliveries, some_of, update_outbox_status, enqueue_delivery,
}

-- The active subscriptions to the type of an event.
unfoldable pub find_subscriptions : Env → OutboxEvent → Action (List WebhookSubscription)
find_subscriptions env event w =
    statement env false (filter (is_active_for event.event_type) w.webhook_subscriptions) w.db w

-- The constraint UNIQUE on the subscription and the event.
abbrev pub is_delivery_of : Uuid → Uuid → WebhookDelivery → Bool
is_delivery_of subscription_id event_id d = elim (eqb d.webhook_subscription_id subscription_id) [
  | true ↦ eqb d.outbox_event_id event_id
  | false ↦ false
]

abbrev pub new_delivery : Env → Uuid → Uuid → Time → World → WebhookDelivery
new_delivery env subscription_id event_id now w = record {
  id = env.gen_random_uuid w.step;
  webhook_subscription_id = subscription_id;
  outbox_event_id = event_id;
  status = WebhookDeliveryStatus.pending;
  attempt_count = 0;
  last_attempt_at = none;
  next_retry_at = some now;
  response_status = none;
  response_body = none;
  created_at = env.db_now w.step;
  updated_at = env.db_now w.step;
}

unfoldable pub insert_delivery : Env → Uuid → Uuid → Time → Action WebhookDelivery
insert_delivery env subscription_id event_id now w =
    let row = new_delivery env subscription_id event_id now w in
    statement env
      (has_row row.id w.webhook_deliveries
        || some_of (is_delivery_of subscription_id event_id) w.webhook_deliveries)
      row (record w.db { webhook_deliveries = w.webhook_deliveries ++ row ∷ [] }) w

-- One `new Date()` for each missing subscription, then the insertions.
unfoldable pub draft_deliveries :
    Env → List WebhookSubscription → Action (List (WebhookSubscription × Time))
draft_deliveries env [] = pure []
draft_deliveries env (s ∷ ss) = do
  now ← read_clock env
  rest ← draft_deliveries env ss
  pure ((s, now) ∷ rest)

unfoldable pub insert_deliveries :
    Env → Uuid → List (WebhookSubscription × Time) → Action (List WebhookDelivery)
insert_deliveries env event_id [] = pure []
insert_deliveries env event_id ((s, now) ∷ ss) = do
  row ← insert_delivery env s.id event_id now
  rows ← insert_deliveries env event_id ss
  pure (row ∷ rows)

-- `deliveriesRepository.save(…)` of the missing deliveries, in one transaction, if there are any.
unfoldable pub create_deliveries :
    Env → Uuid → List WebhookSubscription → Action (List WebhookDelivery)
create_deliveries env event_id [] = pure []
create_deliveries env event_id (s ∷ ss) = do
  drafts ← draft_deliveries env (s ∷ ss)
  in_transaction (insert_deliveries env event_id drafts)

abbrev first_error : Result ⊤ → Result ⊤ → Result ⊤
first_error (ok a) r = r
first_error (err e) r = err e

-- `Promise.all`: every job is handed over, whether or not another one fails.
unfoldable pub enqueue_all : Env → List WebhookDelivery → Action ⊤
enqueue_all env [] w = (ok tt, w)
enqueue_all env (d ∷ ds) w =
    let (r, w') = enqueue_delivery env d.id 0 (d.attempt_count + 1) w in
    let (rs, w'') = enqueue_all env ds w' in (first_error r rs, w'')

abbrev pub is_missing_in : List WebhookDelivery → WebhookSubscription → Bool
is_missing_in deliveries s = not (some_of (λ d. eqb d.webhook_subscription_id s.id) deliveries)

abbrev pub enqueue_or_settle : Env → Uuid → List WebhookDelivery → Action ⊤
enqueue_or_settle env event_id [] = update_outbox_status env event_id
enqueue_or_settle env event_id (d ∷ ds) = enqueue_all env (d ∷ ds)

-- From the missing subscriptions on.
unfoldable pub deliver_event :
    Env → OutboxEvent → List WebhookSubscription → List WebhookDelivery → Action ⊤
deliver_event env event subscriptions existing = do
  created ← create_deliveries env event.id (filter (is_missing_in existing) subscriptions)
  enqueue_or_settle env event.id (filter is_pending (existing ++ created))

-- Without subscriptions and deliveries, the event is published.
unfoldable pub publish_or_deliver :
    Env → OutboxEvent → List WebhookSubscription → List WebhookDelivery → Action ⊤
publish_or_deliver env event [] [] = mark_published env event.id
publish_or_deliver env event (s ∷ ss) existing = deliver_event env event (s ∷ ss) existing
publish_or_deliver env event [] (d ∷ ds) = deliver_event env event [] (d ∷ ds)

unfoldable pub dispatch_found : Env → Option OutboxEvent → Action ⊤
dispatch_found env none = pure tt
dispatch_found env (some event) = do
  subscriptions ← find_subscriptions env event
  existing ← find_deliveries env event.id
  publish_or_deliver env event subscriptions existing

unfoldable pub dispatch_outbox_event : Env → Uuid → Action ⊤
dispatch_outbox_event env event_id = do event ← get_by_id env event_id; dispatch_found env event
