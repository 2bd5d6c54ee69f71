-- ===== src/Webhooks/Attempts.antt =====
-- Single attempts of `processDelivery` in modules/webhooks/webhooks.service.ts.
use distributed_ledger_and_t.Prelude.{
  ℕ, suc, Bool, true, false, Option, none, some, List, ◌≡◌, refl, ◌+◌, ◌-◌, ◌∙◌, ltb, find_row,
  update_row, Bool-cases, inl, inr, if◌then◌else◌, arith,
}
use distributed_ledger_and_t.Common.Exceptions.{
  Exception, ok, err, fetch_failed, webhook_delivery_failed,
}
use distributed_ledger_and_t.Entities.{
  Uuid, OutboxEvent, WebhookSubscription, WebhookDelivery, webhook_delivery_row, outbox_event_row,
  webhook_subscription_row,
}
use distributed_ledger_and_t.Database.{Job, World, Env, next, or_throw, throw_if, try_catch, ◌>>=◌}
use distributed_ledger_and_t.Outbox.{mark_published, mark_failed, update_event}
use distributed_ledger_and_t.Webhooks.{
  QueueConfig, HttpAnswer, no_answer, answered, is_pending, is_successful, every, some_of,
  find_deliveries, deliveries_of, update_delivery, status_update, update_outbox_status,
}
use distributed_ledger_and_t.Webhooks.Delivery.{
  process_delivery, process_found, find_delivery, attempt_delivery, accept_answer,
  record_failed_attempt, undelivered, backoff, is_ok,
}

-- What is wrong with an answer, if anything is.
abbrev pub failure_of : HttpAnswer → Option Exception
failure_of no_answer = some fetch_failed
failure_of (answered status text) =
    if is_ok status then none else some (webhook_delivery_failed status text)

module _ (fetch : WebhookSubscription → OutboxEvent → ℕ → HttpAnswer) (env : Env)
    (config : QueueConfig) where
  module _ (quiet : (n : ℕ) → env.fault n ≡ false) where
    status_update-same :
        (id : Uuid) (ds : List WebhookDelivery) (w : World)
        → ((status_update env id ds w).1.queue ≡ w.queue)
          × ((status_update env id ds w).1.webhook_deliveries ≡ w.webhook_deliveries)
    unfolding status_update mark_published mark_failed update_event ◌>>=◌
    status_update-same id ds w = elim (Bool-cases (every is_successful ds)) [
      | inl all ↦ simp (all, quiet) (refl, refl)
      | inr mixed ↦ elim (Bool-cases (some_of is_pending ds)) [
        | inl pending ↦ simp (mixed, pending, quiet) (refl, refl)
        | inr settled ↦ simp (mixed, settled, quiet) (refl, refl)
      ]
    ]

    -- The status of the event leaves the jobs and the deliveries alone.
    update_outbox_status-same :
        (id : Uuid) (w : World)
        → ((update_outbox_status env id w).1.queue ≡ w.queue)
          × ((update_outbox_status env id w).1.webhook_deliveries ≡ w.webhook_deliveries)
    unfolding update_outbox_status find_deliveries ◌>>=◌
    update_outbox_status-same id w =
        rw (quiet w.step) (status_update-same id (deliveries_of id w.webhook_deliveries) (next w))

    accept_refuses :
        (d : WebhookDelivery) (attempts : ℕ) (answer : HttpAnswer) (w : World) (e : Exception)
        → failure_of answer ≡ some e
        → accept_answer fetch env config d attempts answer w ≡ (err e, w)
    unfolding accept_answer throw_if ◌>>=◌
    accept_refuses d attempts no_answer w e bad = ground arith
    accept_refuses d attempts (answered status text) w e bad = elim (Bool-cases (is_ok status)) [
      | inl fine ↦ ground arith
      | inr refused ↦ ground arith
    ]

    attempt_fails :
        (d : WebhookDelivery) (attempts : ℕ) (w : World) (event : OutboxEvent)
        (s : WebhookSubscription) (e : Exception)
        → find_row d.outbox_event_id w.outbox_events ≡ some event
        → find_row d.webhook_subscription_id w.webhook_subscriptions ≡ some s
        → failure_of (fetch s event w.step) ≡ some e
        → attempt_delivery fetch env config d attempts w ≡ (err e, next w)
    unfolding attempt_delivery or_throw ◌>>=◌
    attempt_fails d attempts w event s e found_event found_s bad =
        rw (found_event, found_s) (accept_refuses d attempts (fetch s event w.step) (next w) e bad)

    -- The delivery after a failed attempt.
    abbrev pub attempted :
        Bool → Exception → WebhookDelivery → World → WebhookDelivery → WebhookDelivery
    attempted again e d w row =
        record (undelivered again e (d.attempt_count + 1)
          (if again
            then some
                (env.date_now w.step + backoff config.webhook_backoff_ms (d.attempt_count + 1))
            else none)
          (env.date_now (if again then suc w.step else w.step)) row) {
            updated_at = env.db_now (if again then suc (suc w.step) else suc w.step);
          }

    -- The job for the next attempt of a delivery.
    abbrev pub retry_job : WebhookDelivery → World → Job
    retry_job d w = record {
      delivery_id = d.id;
      delay =
          env.date_now w.step
          + backoff config.webhook_backoff_ms (d.attempt_count + 1)
          - env.date_now (suc (suc (suc w.step)));
      job_delivery_id = d.id;
      job_attempt = d.attempt_count + 1 + 1;
    }

    record_gives_up :
        (d : WebhookDelivery) (e : Exception) (w : World)
        → ltb (d.attempt_count + 1) config.webhook_max_attempts ≡ false
        → let o = record_failed_attempt fetch env config d (d.attempt_count + 1) e w in
          (o.0 ≡ ok tt)
          × (o.1.queue ≡ w.queue)
          × (o.1.webhook_deliveries ≡ update_row d.id (attempted false e d w) w.webhook_deliveries)
    unfolding record_failed_attempt update_delivery ◌>>=◌
    record_gives_up d e w over = simp (over, quiet) (refl, refl, refl)

    module _ (d : WebhookDelivery) (w : World) (event : OutboxEvent) (s : WebhookSubscription)
        (e : Exception) (found : find_row d.id w.webhook_deliveries ≡ some d)
        (pending : is_pending d ≡ true)
        (found_event : find_row d.outbox_event_id w.outbox_events ≡ some event)
        (found_s : find_row d.webhook_subscription_id w.webhook_subscriptions ≡ some s)
        (bad : failure_of (fetch s event (suc w.step)) ≡ some e) where
      process_fails :
          (P : World → Type 0)
          → (record_failed_attempt fetch env config d (d.attempt_count + 1) e (next (next w))).0
            ≡ ok tt
          → P
              (update_outbox_status env d.outbox_event_id
                (record_failed_attempt fetch env config d
                  (d.attempt_count + 1)
                  e
                  (next (next w))).1).1
          → P (process_delivery fetch env config d.id w).1
      unfolding process_delivery find_delivery process_found try_catch ◌>>=◌
      process_fails P recorded h =
          rw
            (
              quiet w.step,
              found,
              pending,
              attempt_fails d (d.attempt_count + 1) (next w) event s e found_event found_s bad,
              recorded,
            )
            h

      -- With no failing statement, when a delivery is pending with its event and subscription stored, the
      -- endpoint gives no answer or one that is not ok, and no attempt is left: the delivery counts the
      -- attempt and has failed, and no job is queued.
      pub process_delivery_gives_up :
          ltb (d.attempt_count + 1) config.webhook_max_attempts ≡ false
          → let v = (process_delivery fetch env config d.id w).1 in
            (v.queue ≡ w.queue)
            × (v.webhook_deliveries
                ≡ update_row d.id (attempted false e d (next (next w))) w.webhook_deliveries)
      process_delivery_gives_up over =
          let step = record_gives_up d e (next (next w)) over in
          let kept =
            update_outbox_status-same d.outbox_event_id
              (record_failed_attempt fetch env config d (d.attempt_count + 1) e
                (next (next w))).1 in
          process_fails
            (λ v.
              (v.queue ≡ w.queue)
              × (v.webhook_deliveries
                  ≡ update_row d.id (attempted false e d (next (next w))) w.webhook_deliveries))
            step.0 (kept.0 ∙ step.1, kept.1 ∙ step.2)
