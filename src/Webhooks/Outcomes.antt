-- ===== src/Webhooks/Outcomes.antt =====
-- The attempts of `processDelivery` in modules/webhooks/webhooks.service.ts.
use distributed_ledger_and_t.Prelude.{
  ℕ, Bool, true, false, Option, none, some, List, [], ◌∷◌, ◌≡◌, ◌≤◌, ◌<◌, ◌+◌, refl, arith, subst,
  All, update_row, find_row, ltb, eqb, Bool-cases, inl, inr,
}
use distributed_ledger_and_t.Common.Exceptions.{Exception, type_error}
use distributed_ledger_and_t.Entities.{
  Uuid, Time, OutboxEvent, OutboxStatus, WebhookSubscription, WebhookDelivery, webhook_delivery_row,
  outbox_event_row, webhook_subscription_row,
}
use distributed_ledger_and_t.Database.{Db, Env, next, ◌>>=◌}
use distributed_ledger_and_t.Database.Keeps.{
  Keeps, statement-Keeps, try_catch-Keeps, or_throw-Keeps, bind-Keeps, throw_if-Keeps,
}
use distributed_ledger_and_t.Outbox.{mark_published, mark_failed, update_event}
use distributed_ledger_and_t.Webhooks.{
  QueueConfig, HttpAnswer, no_answer, answered, is_pending, is_successful, every, some_of,
  max_attempt_count, update_delivery, find_deliveries, status_update, update_outbox_status,
  enqueue_delivery,
}
use distributed_ledger_and_t.Webhooks.Delivery.{
  process_delivery, process_found, process_if_found, find_delivery, attempt_delivery, accept_answer,
  record_failed_attempt, undelivered, next_retry, enqueue_retry,
}

-- A delivery within the limit: a pending one has an attempt left.
abbrev pub IsWithin : ℕ → WebhookDelivery → Type 0
IsWithin limit d = (d.attempt_count ≤ limit) × (is_pending d ≡ true → d.attempt_count < limit)

abbrev pub AreWithin : ℕ → Db → Type 0
AreWithin limit db = All (IsWithin limit) db.webhook_deliveries

some-injective : {a b : WebhookDelivery} → some a ≡ some b → a ≡ b
some-injective e = cc

module _ (limit : ℕ) where
  All-update_row :
      (id : Uuid) (f : WebhookDelivery → WebhookDelivery) (ds : List WebhookDelivery)
      → ((d : WebhookDelivery) → IsWithin limit (f d))
      → All (IsWithin limit) ds
      → All (IsWithin limit) (update_row id f ds)
  All-update_row id f [] h all = tt
  All-update_row id f (d ∷ ds) h all = elim (Bool-cases (eqb d.id id)) [
    | inl same ↦ rw same (h d, all.1)
    | inr other ↦ rw other (all.0, All-update_row id f ds h all.1)
  ]

  All-found :
      (id : Uuid) (d : WebhookDelivery) (ds : List WebhookDelivery)
      → find_row id ds ≡ some d
      → All (IsWithin limit) ds
      → IsWithin limit d
  All-found id d [] found all = cc
  All-found id d (x ∷ xs) found all = elim (Bool-cases (eqb x.id id)) [
    | inl same ↦ subst (IsWithin limit) (some-injective (rw same at found)) all.0
    | inr other ↦ All-found id d xs (rw other at found) all.1
  ]

  update_delivery-Keeps :
      (env : Env) (id : Uuid) (f : WebhookDelivery → WebhookDelivery)
      → ((d : WebhookDelivery) → IsWithin limit (f d))
      → Keeps (AreWithin limit) (update_delivery env id f)
  unfolding update_delivery
  update_delivery-Keeps env id f h w p =
      statement-Keeps (AreWithin limit) env _ _ _ w p (All-update_row id _ w.webhook_deliveries h p)

  pub update_event-Keeps :
      (env : Env) (id : Uuid) (f : OutboxEvent → OutboxEvent)
      → Keeps (AreWithin limit) (update_event env id f)
  unfolding update_event
  update_event-Keeps env id f w p = statement-Keeps (AreWithin limit) env _ _ _ w p p

  pub mark_published-Keeps :
      (env : Env) (id : Uuid) → Keeps (AreWithin limit) (mark_published env id)
  unfolding mark_published
  mark_published-Keeps env id =
      bind-Keeps (AreWithin limit) _ _ (λ w p. p) (λ now. update_event-Keeps env id _)

  pub mark_failed-Keeps :
      (env : Env) (id : Uuid) (n : ℕ) (retry : Option Time)
      → Keeps (AreWithin limit) (mark_failed env id n retry)
  unfolding mark_failed update_event
  mark_failed-Keeps env id n retry w p = statement-Keeps (AreWithin limit) env _ _ _ w p p

  status_update-Keeps :
      (env : Env) (id : Uuid) (ds : List WebhookDelivery)
      → Keeps (AreWithin limit) (status_update env id ds)
  unfolding status_update
  status_update-Keeps env id ds w p = elim (Bool-cases (every is_successful ds)) [
    | inl all ↦ rw all (mark_published-Keeps env id w p)
    | inr mixed ↦ elim (Bool-cases (some_of is_pending ds)) [
      | inl pending ↦
          rw (mixed, pending)
            (update_event-Keeps env id (λ e. record e { status = OutboxStatus.processing }) w p)
      | inr settled ↦ rw (mixed, settled) (mark_failed-Keeps env id (max_attempt_count ds) none w p)
    ]
  ]

  pub enqueue_delivery-Keeps :
      (env : Env) (id : Uuid) (delay attempt : ℕ)
      → Keeps (AreWithin limit) (enqueue_delivery env id delay attempt)
  unfolding enqueue_delivery
  enqueue_delivery-Keeps env id delay attempt w p = elim (Bool-cases (env.fault w.step)) [
    | inl failed ↦ rw failed p
    | inr passed ↦ rw passed p
  ]

  pub update_outbox_status-Keeps :
      (env : Env) (id : Uuid) → Keeps (AreWithin limit) (update_outbox_status env id)
  unfolding update_outbox_status find_deliveries
  update_outbox_status-Keeps env id =
      bind-Keeps (AreWithin limit) _ _ (λ w p. statement-Keeps (AreWithin limit) env _ _ _ w p p)
        (status_update-Keeps env id)

module _ (fetch : WebhookSubscription → OutboxEvent → ℕ → HttpAnswer) (env : Env)
    (config : QueueConfig) where
  accept_answer-Keeps :
      (d : WebhookDelivery) (attempts : ℕ) (answer : HttpAnswer)
      → attempts ≤ config.webhook_max_attempts
      → Keeps
          (AreWithin config.webhook_max_attempts)
          (accept_answer fetch env config d attempts answer)
  unfolding accept_answer
  accept_answer-Keeps d attempts no_answer few = λ w p. p
  accept_answer-Keeps d attempts (answered status text) few =
      bind-Keeps (AreWithin config.webhook_max_attempts) _ _ (throw_if-Keeps _ _ _) (λ _.
        bind-Keeps (AreWithin config.webhook_max_attempts) _ _ (λ w p. p)
          (λ at.
            update_delivery-Keeps config.webhook_max_attempts env d.id _
              (λ row. (few, λ pending. ground arith))))

  attempt_delivery-Keeps :
      (d : WebhookDelivery) (attempts : ℕ)
      → attempts ≤ config.webhook_max_attempts
      → Keeps (AreWithin config.webhook_max_attempts) (attempt_delivery fetch env config d attempts)
  unfolding attempt_delivery
  attempt_delivery-Keeps d attempts few =
      bind-Keeps (AreWithin config.webhook_max_attempts) _ _
        (λ w p.
          or_throw-Keeps (AreWithin config.webhook_max_attempts)
            (find_row d.outbox_event_id w.outbox_events) type_error w p)
        (λ event.
          bind-Keeps (AreWithin config.webhook_max_attempts) _ _
            (λ w p.
              or_throw-Keeps (AreWithin config.webhook_max_attempts)
                (find_row d.webhook_subscription_id w.webhook_subscriptions) type_error w p)
            (λ subscription.
              bind-Keeps (AreWithin config.webhook_max_attempts) _ _ (λ w p. p)
                (λ answer. accept_answer-Keeps d attempts answer few)))

  undelivered-IsWithin :
      (attempts : ℕ) (e : Exception) (retry : Option Time) (at : Time) (d : WebhookDelivery)
      → attempts ≤ config.webhook_max_attempts
      → IsWithin config.webhook_max_attempts
          (undelivered (ltb attempts config.webhook_max_attempts) e attempts retry at d)
  undelivered-IsWithin attempts e retry at d few =
      elim (Bool-cases (ltb attempts config.webhook_max_attempts)) [
        | inl again ↦ (few, λ pending. ground arith)
        | inr over ↦ rw over (few, λ pending. ground arith)
      ]

  next_retry-Keeps :
      (c : Bool) (attempts : ℕ)
      → Keeps (AreWithin config.webhook_max_attempts) (next_retry fetch env config c attempts)
  next_retry-Keeps false attempts = λ w p. p
  next_retry-Keeps true attempts =
      bind-Keeps (AreWithin config.webhook_max_attempts) _ _ (λ w p. p) (λ now w p. p)

  enqueue_retry-Keeps :
      (id : Uuid) (attempts : ℕ) (retry : Option Time)
      → Keeps
          (AreWithin config.webhook_max_attempts)
          (enqueue_retry fetch env config id attempts retry)
  enqueue_retry-Keeps id attempts none = λ w p. p
  enqueue_retry-Keeps id attempts (some at) =
      bind-Keeps (AreWithin config.webhook_max_attempts) _ _ (λ w p. p)
        (λ now. enqueue_delivery-Keeps config.webhook_max_attempts env id _ _)

  record_failed_attempt-Keeps :
      (d : WebhookDelivery) (attempts : ℕ) (e : Exception)
      → attempts ≤ config.webhook_max_attempts
      → Keeps
          (AreWithin config.webhook_max_attempts)
          (record_failed_attempt fetch env config d attempts e)
  unfolding record_failed_attempt
  record_failed_attempt-Keeps d attempts e few =
      bind-Keeps (AreWithin config.webhook_max_attempts) _ _ (next_retry-Keeps _ attempts) (λ retry.
        bind-Keeps (AreWithin config.webhook_max_attempts) _ _ (λ w p. p)
          (λ at.
            bind-Keeps (AreWithin config.webhook_max_attempts) _ _
              (update_delivery-Keeps config.webhook_max_attempts env d.id _
                (λ row. undelivered-IsWithin attempts e retry at row few))
              (λ _. enqueue_retry-Keeps d.id attempts retry)))

  process_found-Keeps :
      (d : WebhookDelivery)
      → IsWithin config.webhook_max_attempts d
      → Keeps (AreWithin config.webhook_max_attempts) (process_found fetch env config d)
  unfolding process_found
  process_found-Keeps d within w p = elim (Bool-cases (is_pending d)) [
    | inl pending ↦
        let few : d.attempt_count + 1 ≤ config.webhook_max_attempts =
          (let h = within.1 pending in omega arith) in
        rw pending (
          bind-Keeps (AreWithin config.webhook_max_attempts) _ _
            (try_catch-Keeps (AreWithin config.webhook_max_attempts) _ _
              (attempt_delivery-Keeps d _ few) (λ e. record_failed_attempt-Keeps d _ e few))
            (λ _. update_outbox_status-Keeps config.webhook_max_attempts env d.outbox_event_id) w p)
    | inr terminal ↦ rw terminal p
  ]

  process_if_found-Keeps :
      (o : Option WebhookDelivery)
      → ((d : WebhookDelivery) → o ≡ some d → IsWithin config.webhook_max_attempts d)
      → Keeps (AreWithin config.webhook_max_attempts) (process_if_found fetch env config o)
  process_if_found-Keeps none within = λ w p. p
  process_if_found-Keeps (some d) within = process_found-Keeps d (within d refl)

  pub process_delivery-Keeps :
      (id : Uuid)
      → Keeps (AreWithin config.webhook_max_attempts) (process_delivery fetch env config id)
  unfolding process_delivery find_delivery ◌>>=◌
  process_delivery-Keeps id w p = elim (Bool-cases (env.fault w.step)) [
    | inl failed ↦ rw failed p
    | inr passed ↦ rw passed (
        process_if_found-Keeps (find_row id w.webhook_deliveries)
          (λ d found. All-found config.webhook_max_attempts id d w.webhook_deliveries found p)
          (next w) p)
  ]
