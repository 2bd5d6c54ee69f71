-- ===== src/Tests/Webhooks.antt =====
-- An event with a subscriber that never answers, in an environment that loses a statement.
use distributed_ledger_and_t.Prelude.{
  ℕ, pos, false, none, some, List, [], ◌∷◌, ◌≡◌, refl, arith, eqb,
}
use distributed_ledger_and_t.Common.Exceptions.{ok, webhook_delivery_failed}
use distributed_ledger_and_t.Entities.{
  OutboxEvent, OutboxStatus, TransactionType, WebhookSubscription, WebhookSubscriptionStatus,
  WebhookDelivery, WebhookDeliveryStatus, error_message,
}
use distributed_ledger_and_t.Database.{World, Env}
use distributed_ledger_and_t.Webhooks.{QueueConfig, no_answer, answered}
use distributed_ledger_and_t.Webhooks.Outcomes.{AreWithin}
use distributed_ledger_and_t.Jobs.{process_outbox_batch}
use distributed_ledger_and_t.Jobs.Work.{
  Task, register, dispatch, deliver, poll, perform_tasks, perform_tasks-AreWithin,
  process_outbox_batch_ends,
}
use distributed_ledger_and_t.Webhooks.Delivery.{process_delivery}
use distributed_ledger_and_t.Webhooks.Attempts.{process_delivery_gives_up}
use distributed_ledger_and_t.Tests.Books.{calm, books, idle}

abbrev config : QueueConfig
config = record {
  webhook_max_attempts = 2;
  webhook_backoff_ms = 5000;
  outbox_batch_size = 20;
  outbox_stale_after_ms = 30000;
  outbox_max_attempts = 5;
  outbox_backoff_ms = 5000;
}

abbrev pub event : OutboxEvent
event = record {
  id = 30;
  aggregate_type = "transaction";
  aggregate_id = 10;
  event_type = "transaction.completed";
  payload = record {
    transaction_id = 10;
    type = TransactionType.deposit;
    amount = pos 100;
    currency = "USD";
    from_account_id = none;
    to_account_id = some 1;
    completed_at = some 0;
  };
  status = OutboxStatus.pending;
  retry_count = 0;
  next_retry_at = none;
  published_at = none;
  transaction_id = 10;
  created_at = 0;
  updated_at = 0;
}

abbrev eventful : World
eventful = idle (record books { outbox_events = event ∷ [] })

abbrev flaky : Env
flaky = record calm { fault = λ n. eqb n 9 }

abbrev chores : List Task
chores =
    register (record {
      target_url = "https://example.com/hook";
      event_type = "transaction.completed";
      secret = "12345678";
      status = none;
    })
    ∷ poll
    ∷ deliver 1007
    ∷ dispatch 30
    ∷ deliver 1007
    ∷ []

perform_tasks-AreWithin_example :
    AreWithin 2 (perform_tasks (λ s e n. no_answer) flaky config chores eventful).db
perform_tasks-AreWithin_example =
    perform_tasks-AreWithin (λ s e n. no_answer) flaky config (omega arith) chores eventful tt

process_outbox_batch_ends_example :
    ((process_outbox_batch flaky config eventful).0 ≡ ok tt)
    × ((process_outbox_batch flaky config eventful).1.outbox_running ≡ false)
process_outbox_batch_ends_example = process_outbox_batch_ends flaky config eventful refl

abbrev subscription : WebhookSubscription
subscription = record {
  id = 40;
  target_url = "https://example.com/hook";
  secret = "12345678";
  event_type = "transaction.completed";
  status = WebhookSubscriptionStatus.active;
  created_at = 0;
  updated_at = 0;
}

abbrev delivery : ℕ → WebhookDeliveryStatus → WebhookDelivery
delivery attempt_count status = record {
  id = 50;
  webhook_subscription_id = 40;
  outbox_event_id = 30;
  status = status;
  attempt_count = attempt_count;
  last_attempt_at = none;
  next_retry_at = none;
  response_status = none;
  response_body = none;
  created_at = 0;
  updated_at = 0;
}

-- A subscriber, and a delivery to it that is to be attempted.
abbrev delivering : WebhookDelivery → World
delivering d = idle (record books {
  outbox_events = event ∷ [];
  webhook_subscriptions = subscription ∷ [];
  webhook_deliveries = d ∷ [];
})

abbrev first_attempt : WebhookDelivery
first_attempt = delivery 0 WebhookDeliveryStatus.pending

abbrev last_attempt : WebhookDelivery
last_attempt = delivery 1 WebhookDeliveryStatus.pending

abbrev succeeded : WebhookDelivery
succeeded = delivery 1 WebhookDeliveryStatus.success

process_delivery_gives_up_example :
    let v =
      (process_delivery
        (λ s e n. answered 500 "down")
        calm
        config
        50
        (delivering last_attempt)).1 in
    (v.queue ≡ [])
    × (v.webhook_deliveries
        ≡ record (delivery 2 WebhookDeliveryStatus.failed) {
          last_attempt_at = some 2;
          response_body = some (error_message (webhook_delivery_failed 500 "down"));
          updated_at = 3;
        }
          ∷ [])
process_delivery_gives_up_example =
    process_delivery_gives_up (λ s e n. answered 500 "down") calm config (λ n. refl) last_attempt
      (delivering last_attempt) event subscription (webhook_delivery_failed 500 "down") refl refl
      refl refl refl refl
