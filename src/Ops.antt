-- ===== src/Ops.antt =====
-- modules/ops: ops.service.ts, ops.controller.ts and the DTOs of the queries.
pub mod Pages
pub mod Matching
pub mod Selection
pub mod Listings
use mathlib.Core.Option
use distributed_ledger_and_t.Prelude.{
  ℕ, String, Bool, true, false, Option, none, some, List, map, ◌&&◌, ◌||◌, not, filter, sort_by,
  ltb, take, drop, eqb, str_eq, if◌then◌else◌,
}
use distributed_ledger_and_t.Common.Exceptions.{Exception}
use distributed_ledger_and_t.Entities.{
  Uuid, Time, OutboxEvent, OutboxStatus, WebhookDelivery, WebhookDeliveryStatus, DeliveryBody,
  ReconciliationRun, ReconciliationRunStatus, ReconciliationIssue, ReconciliationIssueType,
}
use distributed_ledger_and_t.Database.{World, Env, Action, statement}
use distributed_ledger_and_t.Controllers.Validation.{is_valid_limit, validated}

-- `OpsPaginationDto`. The type of `offset` says that it is an integer of at least 0.
pub record OpsPaginationDto : Type 0 where
  pub limit : Option ℕ
  pub offset : Option ℕ

pub record ListOutboxEventsDto : Type 0 where
  pub page : OpsPaginationDto
  pub status : Option OutboxStatus
  pub event_type : Option String

pub record ListWebhookDeliveriesDto : Type 0 where
  pub page : OpsPaginationDto
  pub status : Option WebhookDeliveryStatus
  pub outbox_event_id : Option Uuid
  pub webhook_subscription_id : Option Uuid

pub record ListReconciliationRunsDto : Type 0 where
  pub page : OpsPaginationDto
  pub status : Option ReconciliationRunStatus

-- The two values of the enum `ReconciliationIssueType`.
pub data IssueKind : Type 0 where
  account_balance_mismatch_kind unbalanced_transaction_kind : IssueKind

pub record ListReconciliationIssuesDto : Type 0 where
  pub page : OpsPaginationDto
  pub issue_type : Option IssueKind

abbrev pub same_outbox_status : OutboxStatus → OutboxStatus → Bool
same_outbox_status OutboxStatus.pending OutboxStatus.pending = true
same_outbox_status OutboxStatus.processing OutboxStatus.processing = true
same_outbox_status OutboxStatus.published OutboxStatus.published = true
same_outbox_status OutboxStatus.failed OutboxStatus.failed = true
same_outbox_status _ _ = false

abbrev pub same_delivery_status : WebhookDeliveryStatus → WebhookDeliveryStatus → Bool
same_delivery_status WebhookDeliveryStatus.pending WebhookDeliveryStatus.pending = true
same_delivery_status WebhookDeliveryStatus.success WebhookDeliveryStatus.success = true
same_delivery_status WebhookDeliveryStatus.failed WebhookDeliveryStatus.failed = true
same_delivery_status _ _ = false

abbrev pub same_run_status : ReconciliationRunStatus → ReconciliationRunStatus → Bool
same_run_status ReconciliationRunStatus.completed ReconciliationRunStatus.completed = true
same_run_status ReconciliationRunStatus.failed ReconciliationRunStatus.failed = true
same_run_status _ _ = false

abbrev pub is_of_kind : ReconciliationIssueType → IssueKind → Bool
is_of_kind (ReconciliationIssueType.account_balance_mismatch _ _ _) account_balance_mismatch_kind =
    true
is_of_kind (ReconciliationIssueType.unbalanced_transaction _ _ _) unbalanced_transaction_kind = true
is_of_kind _ _ = false

-- A condition of `where`, which is there if the query has a value for it.
abbrev pub where_given {ℓ κ} : {A : Type ℓ} {B : Type κ} → (A → B → Bool) → Option B → A → Bool
where_given test none a = true
where_given test (some b) a = test a b

-- `if (query.eventType)`: the empty text is no condition either.
abbrev pub has_event_type : OutboxEvent → String → Bool
has_event_type e event_type = str_eq event_type "" || str_eq e.event_type event_type

abbrev pub outbox_event_where : ListOutboxEventsDto → OutboxEvent → Bool
outbox_event_where query e =
    where_given (λ (x : OutboxEvent) s. same_outbox_status x.status s) query.status e
    && where_given has_event_type query.event_type e

abbrev pub webhook_delivery_where : ListWebhookDeliveriesDto → WebhookDelivery → Bool
webhook_delivery_where query d =
    where_given (λ (x : WebhookDelivery) s. same_delivery_status x.status s) query.status d
    && where_given (λ (x : WebhookDelivery) id. eqb x.outbox_event_id id) query.outbox_event_id d
    && where_given (λ (x : WebhookDelivery) id. eqb x.webhook_subscription_id id)
        query.webhook_subscription_id d

abbrev pub reconciliation_run_where : ListReconciliationRunsDto → ReconciliationRun → Bool
reconciliation_run_where query r =
    where_given (λ (x : ReconciliationRun) s. same_run_status x.status s) query.status r

abbrev pub reconciliation_issue_where :
    Uuid → ListReconciliationIssuesDto → ReconciliationIssue → Bool
reconciliation_issue_where run_id query i =
    eqb i.run_id run_id
    && where_given (λ (x : ReconciliationIssue) k. is_of_kind x.issue_type k) query.issue_type i

-- Which of two rows of one date PostgreSQL returns first, by their ids: it may be another one in
-- every statement.
abbrev pub TieOrder : Type 0
TieOrder = ℕ → Uuid → Uuid → Bool

-- `order: { createdAt: 'DESC' }`
abbrev pub newest_first {ℓ} :
    {A : Type ℓ} → (Uuid → Uuid → Bool) → (A → Uuid) → (A → Time) → List A → List A
newest_first tie id created_at rows =
    sort_by
      (λ a b.
        ltb (created_at b) (created_at a)
        || (eqb (created_at a) (created_at b) && tie (id a) (id b)))
      rows

-- `take: query.limit ?? 20, skip: query.offset ?? 0`
abbrev pub page_of {ℓ} : {A : Type ℓ} → OpsPaginationDto → List A → List A
page_of page rows = take (Option.get_or page.limit 20) (drop (Option.get_or page.offset 0) rows)

pub record OutboxEventView : Type 0 where
  pub id : Uuid
  pub aggregate_type : String
  pub aggregate_id : Uuid
  pub event_type : String
  pub status : OutboxStatus
  pub retry_count : ℕ
  pub next_retry_at : Option Time
  pub published_at : Option Time
  pub transaction_id : Uuid
  pub created_at : Time
  pub updated_at : Time

abbrev pub outbox_event_view : OutboxEvent → OutboxEventView
outbox_event_view e = record {
  id = e.id;
  aggregate_type = e.aggregate_type;
  aggregate_id = e.aggregate_id;
  event_type = e.event_type;
  status = e.status;
  retry_count = e.retry_count;
  next_retry_at = e.next_retry_at;
  published_at = e.published_at;
  transaction_id = e.transaction_id;
  created_at = e.created_at;
  updated_at = e.updated_at;
}

unfoldable pub list_outbox_events :
    TieOrder → Env → ListOutboxEventsDto → Action (List OutboxEventView)
list_outbox_events tie env query w =
    let rows = page_of query.page (
      newest_first (tie w.step) (λ e. e.id) (λ e. e.created_at)
        (filter (outbox_event_where query) w.outbox_events)) in
    statement env false (map outbox_event_view rows) w.db w

-- The rows of deliveries, runs and issues are answered with all their columns.
unfoldable pub list_webhook_deliveries :
    TieOrder → Env → ListWebhookDeliveriesDto → Action (List WebhookDelivery)
list_webhook_deliveries tie env query w =
    let rows = page_of query.page (
      newest_first (tie w.step) (λ d. d.id) (λ d. d.created_at)
        (filter (webhook_delivery_where query) w.webhook_deliveries)) in
    statement env false rows w.db w

unfoldable pub list_reconciliation_runs :
    TieOrder → Env → ListReconciliationRunsDto → Action (List ReconciliationRun)
list_reconciliation_runs tie env query w =
    let rows = page_of query.page (
      newest_first (tie w.step) (λ r. r.id) (λ r. r.created_at)
        (filter (reconciliation_run_where query) w.reconciliation_runs)) in
    statement env false rows w.db w

unfoldable pub list_reconciliation_issues :
    TieOrder → Env → Uuid → ListReconciliationIssuesDto → Action (List ReconciliationIssue)
list_reconciliation_issues tie env run_id query w =
    let rows = page_of query.page (
      newest_first (tie w.step) (λ i. i.id) (λ i. i.created_at)
        (filter (reconciliation_issue_where run_id query) w.reconciliation_issues)) in
    statement env false rows w.db w

-- The routes of ops.controller.ts, behind the ValidationPipe.
unfoldable pub outbox_events_route :
    TieOrder → Env → ListOutboxEventsDto → Action (List OutboxEventView)
outbox_events_route tie env query =
    validated (is_valid_limit query.page.limit) (list_outbox_events tie env query)

unfoldable pub webhook_deliveries_route :
    TieOrder → Env → ListWebhookDeliveriesDto → Action (List WebhookDelivery)
webhook_deliveries_route tie env query =
    validated (is_valid_limit query.page.limit) (list_webhook_deliveries tie env query)

unfoldable pub reconciliation_runs_route :
    TieOrder → Env → ListReconciliationRunsDto → Action (List ReconciliationRun)
reconciliation_runs_route tie env query =
    validated (is_valid_limit query.page.limit) (list_reconciliation_runs tie env query)

unfoldable pub reconciliation_issues_route :
    TieOrder → Env → Uuid → ListReconciliationIssuesDto → Action (List ReconciliationIssue)
reconciliation_issues_route tie env run_id query =
    validated (is_valid_limit query.page.limit) (list_reconciliation_issues tie env run_id query)
