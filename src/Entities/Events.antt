-- ===== src/Entities/Events.antt =====
-- modules/outbox and modules/webhooks: entities and enums.
use distributed_ledger_and_t.Prelude.{ℕ, ℤ, String, Option, Row}
use distributed_ledger_and_t.Common.Exceptions.{Exception}
use distributed_ledger_and_t.Entities.Finance.{Uuid, Time, TransactionType}

pub data OutboxStatus : Type 0 where
  pending processing published failed : OutboxStatus

pub data WebhookSubscriptionStatus : Type 0 where
  active inactive : WebhookSubscriptionStatus

pub data WebhookDeliveryStatus : Type 0 where
  pending success failed : WebhookDeliveryStatus

-- The object in the column `payload`; the date stands for its ISO text.
pub record Payload : Type 0 where
  pub transaction_id : Uuid
  pub type : TransactionType
  pub amount : ℤ
  pub currency : String
  pub from_account_id : Option Uuid
  pub to_account_id : Option Uuid
  pub completed_at : Option Time

-- `outbox_events`
pub record OutboxEvent : Type 0 where
  pub id : Uuid
  pub aggregate_type : String
  pub aggregate_id : Uuid
  pub event_type : String
  pub payload : Payload
  pub status : OutboxStatus
  pub retry_count : ℕ
  pub next_retry_at : Option Time
  pub published_at : Option Time
  pub transaction_id : Uuid
  pub created_at : Time
  pub updated_at : Time

-- `webhook_subscriptions`
pub record WebhookSubscription : Type 0 where
  pub id : Uuid
  pub target_url : String
  pub secret : String
  pub event_type : String
  pub status : WebhookSubscriptionStatus
  pub created_at : Time
  pub updated_at : Time

-- The column `response_body` holds the text of a response or the message of an error.
pub data DeliveryBody : Type 0 where
  response_text : String → DeliveryBody
  error_message : Exception → DeliveryBody

-- `webhook_deliveries`
pub record WebhookDelivery : Type 0 where
  pub id : Uuid
  pub webhook_subscription_id : Uuid
  pub outbox_event_id : Uuid
  pub status : WebhookDeliveryStatus
  pub attempt_count : ℕ
  pub last_attempt_at : Option Time
  pub next_retry_at : Option Time
  pub response_status : Option ℕ
  pub response_body : Option DeliveryBody
  pub created_at : Time
  pub updated_at : Time

instance abbrev pub outbox_event_row : Row OutboxEvent
outbox_event_row = record { key = λ e. e.id }

instance abbrev pub webhook_subscription_row : Row WebhookSubscription
webhook_subscription_row = record { key = λ s. s.id }

instance abbrev pub webhook_delivery_row : Row WebhookDelivery
webhook_delivery_row = record { key = λ d. d.id }

-- What `registerWebhook` returns.
pub record WebhookResponse : Type 0 where
  pub id : Uuid
  pub target_url : String
  pub event_type : String
  pub status : WebhookSubscriptionStatus
  pub created_at : Time
