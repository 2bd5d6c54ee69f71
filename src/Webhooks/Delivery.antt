-- ===== src/Webhooks/Delivery.antt =====
-- `processDelivery` of modules/webhooks/webhooks.service.ts.
use distributed_ledger_and_t.Prelude.{
  ℕ, String, Bool, true, false, Option, none, some, ◌&&◌, not, ◌+◌, ◌*◌, ◌^◌, ◌-◌, find_row, leb,
  ltb, if◌then◌else◌, ⊤,
}
use distributed_ledger_and_t.Common.Exceptions.{
  Exception, ok, webhook_delivery_failed, fetch_failed, type_error,
}
use distributed_ledger_and_t.Entities.{
  Uuid, Time, OutboxEvent, WebhookSubscription, WebhookDelivery, WebhookDeliveryStatus,
  response_text, error_message, webhook_subscription_row, webhook_delivery_row, outbox_event_row,
}
use distributed_ledger_and_t.Database.{
  Env, Action, next, pure, throw, statement, or_throw, throw_if, try_catch, read_clock, ◌>>=◌, ◌>>◌,
}
use distributed_ledger_and_t.Webhooks.{
  QueueConfig, HttpAnswer, no_answer, answered, is_pending, update_delivery, update_outbox_status,
  enqueue_delivery,
}

-- `findOne` with the relations `subscription` and `outboxEvent`.
unfoldable pub find_delivery : Env → Uuid → Action (Option WebhookDelivery)
find_delivery env delivery_id w =
    statement env false (find_row delivery_id w.webhook_deliveries) w.db w

-- `response.ok`
abbrev pub is_ok : ℕ → Bool
is_ok status = leb 200 status && ltb status 300

abbrev pub delivered : ℕ → String → ℕ → Time → WebhookDelivery → WebhookDelivery
delivered status text attempts at d = record d {
  status = WebhookDeliveryStatus.success;
  attempt_count = attempts;
  last_attempt_at = some at;
  next_retry_at = none;
  response_status = some status;
  response_body = some (response_text text);
}

abbrev pub next_status : Bool → WebhookDeliveryStatus
next_status should_retry =
    if should_retry then WebhookDeliveryStatus.pending else WebhookDeliveryStatus.failed

abbrev pub undelivered :
    Bool → Exception → ℕ → Option Time → Time → WebhookDelivery → WebhookDelivery
undelivered should_retry e attempts next_retry_at at d = record d {
  status = next_status should_retry;
  attempt_count = attempts;
  last_attempt_at = some at;
  next_retry_at = next_retry_at;
  response_status = none;
  response_body = some (error_message e);
}

-- The wait after the given number of attempts.
abbrev pub backoff : ℕ → ℕ → ℕ
backoff backoff_ms attempts = backoff_ms * 2 ^ (attempts - 1)

module _ (fetch : WebhookSubscription → OutboxEvent → ℕ → HttpAnswer) (env : Env)
    (config : QueueConfig) where
  -- What follows the answer of `fetch`.
  unfoldable pub accept_answer : WebhookDelivery → ℕ → HttpAnswer → Action ⊤
  accept_answer d attempts no_answer = throw fetch_failed
  accept_answer d attempts (answered status text) = do
    throw_if (not (is_ok status)) (webhook_delivery_failed status text)
    last_attempt_at ← read_clock env
    update_delivery env d.id (delivered status text attempts last_attempt_at)

  -- The body of the `try` block.
  unfoldable pub attempt_delivery : WebhookDelivery → ℕ → Action ⊤
  attempt_delivery d attempts = do
    event ← λ w. or_throw (find_row d.outbox_event_id w.outbox_events) type_error w
    subscription ←
        λ w. or_throw (find_row d.webhook_subscription_id w.webhook_subscriptions) type_error w
    answer ← λ w. (ok (fetch subscription event w.step), next w)
    accept_answer d attempts answer

  abbrev pub next_retry : Bool → ℕ → Action (Option Time)
  next_retry false attempts = pure none
  next_retry true attempts = do
    now ← read_clock env
    pure (some (now + backoff config.webhook_backoff_ms attempts))

  abbrev pub enqueue_retry : Uuid → ℕ → Option Time → Action ⊤
  enqueue_retry delivery_id attempts none = pure tt
  enqueue_retry delivery_id attempts (some next_retry_at) = do
    now ← read_clock env
    enqueue_delivery env delivery_id (next_retry_at - now) (attempts + 1)

  -- The body of the `catch` block.
  unfoldable pub record_failed_attempt : WebhookDelivery → ℕ → Exception → Action ⊤
  record_failed_attempt d attempts e = do
    let should_retry = ltb attempts config.webhook_max_attempts
    next_retry_at ← next_retry should_retry attempts
    last_attempt_at ← read_clock env
    update_delivery env d.id (undelivered should_retry e attempts next_retry_at last_attempt_at)
    enqueue_retry d.id attempts next_retry_at

  -- A delivery that is found: terminal ones are skipped.
  unfoldable pub process_found : WebhookDelivery → Action ⊤
  process_found d w =
      if is_pending d
      then (try_catch (attempt_delivery d (d.attempt_count + 1))
              (record_failed_attempt d (d.attempt_count + 1))
            >> update_outbox_status env d.outbox_event_id)
          w
      else pure tt w

  abbrev pub process_if_found : Option WebhookDelivery → Action ⊤
  process_if_found none = pure tt
  process_if_found (some d) = process_found d

  unfoldable pub process_delivery : Uuid → Action ⊤
  process_delivery delivery_id = do
    delivery ← find_delivery env delivery_id
    process_if_found delivery
