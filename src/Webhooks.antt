-- ===== src/Webhooks.antt =====
-- modules/webhooks/webhooks.service.ts and its DTO, with the settings `queue.*` that it reads.
-- `fetch` and the hash that signs a payload are not the program's: a parameter gives the answer to
-- a request, from the subscription, the event and the step.
pub mod Delivery
pub mod Dispatch
pub mod Attempts
pub mod Outcomes
pub mod Creation
use mathlib.Core.Option
use distributed_ledger_and_t.Prelude.{
  ℕ, suc, String, Bool, true, false, Option, none, some, List, [], ◌∷◌, ◌++◌, not, ◌||◌, ◌&&◌, ◌+◌,
  ◌*◌, ◌^◌, ◌-◌, map, has_row, find_row, update_row, filter, leb, ltb, eqb, str_eq, length,
  if◌then◌else◌, ⊤,
}
use distributed_ledger_and_t.Common.Exceptions.{
  Exception, Result, ok, err, webhook_delivery_failed, fetch_failed, type_error, queue_failed,
}
use distributed_ledger_and_t.Entities.{
  Uuid, Time, OutboxEvent, OutboxStatus, WebhookSubscription, WebhookSubscriptionStatus,
  WebhookDelivery, WebhookDeliveryStatus, DeliveryBody, response_text, error_message,
  WebhookResponse, webhook_subscription_row, webhook_delivery_row, outbox_event_row,
}
use distributed_ledger_and_t.Database.{
  Db, Job, World, Env, Action, next, pure, throw, statement, in_transaction, or_throw, throw_if,
  try_catch, read_clock, ◌>>=◌, ◌>>◌,
}
use distributed_ledger_and_t.Outbox.{mark_published, mark_failed, update_event}

pub record RegisterWebhookDto : Type 0 where
  pub target_url : String
  pub event_type : String
  pub secret : String
  pub status : Option WebhookSubscriptionStatus

-- The settings, after their defaults.
pub record QueueConfig : Type 0 where
  pub webhook_max_attempts : ℕ
  pub webhook_backoff_ms : ℕ
  pub outbox_batch_size : ℕ
  pub outbox_stale_after_ms : ℕ
  pub outbox_max_attempts : ℕ
  pub outbox_backoff_ms : ℕ

-- What `fetch` and `response.text()` give: an error, or a status and a text.
pub data HttpAnswer : Type 0 where
  no_answer : HttpAnswer
  answered : ℕ → String → HttpAnswer

unfoldable pub register_webhook : Env → RegisterWebhookDto → Action WebhookResponse
register_webhook env dto w =
    let row : WebhookSubscription = record {
      id = env.gen_random_uuid w.step;
      target_url = dto.target_url;
      secret = dto.secret;
      event_type = dto.event_type;
      status = Option.get_or dto.status WebhookSubscriptionStatus.active;
      created_at = env.db_now w.step;
      updated_at = env.db_now w.step;
    } in
    statement env (has_row row.id w.webhook_subscriptions)
      (record {
        id = row.id;
        target_url = row.target_url;
        event_type = row.event_type;
        status = row.status;
        created_at = row.created_at;
      })
      (record w.db { webhook_subscriptions = w.webhook_subscriptions ++ row ∷ [] }) w

abbrev pub is_pending : WebhookDelivery → Bool
is_pending d = elim d.status [
  | WebhookDeliveryStatus.pending ↦ true
  | WebhookDeliveryStatus.success ↦ false
  | WebhookDeliveryStatus.failed ↦ false
]

abbrev pub is_successful : WebhookDelivery → Bool
is_successful d = elim d.status [
  | WebhookDeliveryStatus.pending ↦ false
  | WebhookDeliveryStatus.success ↦ true
  | WebhookDeliveryStatus.failed ↦ false
]

abbrev pub is_active_for : String → WebhookSubscription → Bool
is_active_for event_type s = str_eq s.event_type event_type && elim s.status [
  | WebhookSubscriptionStatus.active ↦ true
  | WebhookSubscriptionStatus.inactive ↦ false
]

abbrev pub deliveries_of : Uuid → List WebhookDelivery → List WebhookDelivery
deliveries_of event_id deliveries = filter (λ d. eqb d.outbox_event_id event_id) deliveries

unfoldable pub find_deliveries : Env → Uuid → Action (List WebhookDelivery)
find_deliveries env event_id w =
    statement env false (deliveries_of event_id w.webhook_deliveries) w.db w

unfoldable pub update_delivery : Env → Uuid → (WebhookDelivery → WebhookDelivery) → Action ⊤
update_delivery env id change w =
    let stamped = λ (d : WebhookDelivery). record (change d) { updated_at = env.db_now w.step } in
    statement env false tt
      (record w.db { webhook_deliveries = update_row id stamped w.webhook_deliveries }) w

-- `Array.prototype.some`, `Array.prototype.every` and `Math.max(…)`, the latter of counts.
abbrev pub some_of : (WebhookDelivery → Bool) → List WebhookDelivery → Bool
some_of p [] = false
some_of p (d ∷ ds) = p d || some_of p ds

abbrev pub every : (WebhookDelivery → Bool) → List WebhookDelivery → Bool
every p [] = true
every p (d ∷ ds) = p d && every p ds

abbrev pub max_attempt_count : List WebhookDelivery → ℕ
max_attempt_count [] = 0
max_attempt_count (d ∷ ds) =
    let rest = max_attempt_count ds in if ltb rest d.attempt_count then d.attempt_count else rest

-- The statement that the deliveries of an event lead to.
unfoldable pub status_update : Env → Uuid → List WebhookDelivery → Action ⊤
status_update env event_id deliveries =
    if every is_successful deliveries
    then mark_published env event_id
    else (if not (some_of is_pending deliveries)
        then mark_failed env event_id (max_attempt_count deliveries) none
        else update_event env event_id (λ e. record e { status = OutboxStatus.processing }))

unfoldable pub update_outbox_status : Env → Uuid → Action ⊤
update_outbox_status env event_id = do
  deliveries ← find_deliveries env event_id
  status_update env event_id deliveries

-- `Queue.add`; the delay is at least zero, as the subtraction of its callers is.
unfoldable pub enqueue_delivery : Env → Uuid → ℕ → ℕ → Action ⊤
enqueue_delivery env delivery_id delay attempt w =
    let job : Job = record {
      delivery_id = delivery_id;
      delay = delay;
      job_delivery_id = delivery_id;
      job_attempt = attempt;
    } in
    if env.fault w.step
    then (err queue_failed, next w)
    else (ok tt, record (next w) { queue = w.queue ++ job ∷ [] })
