-- ===== src/Ops/Matching.antt =====
-- What the queries of modules/ops/ops.service.ts ask for.
use distributed_ledger_and_t.Prelude.{
  String, Bool, true, Option, none, some, ◌≡◌, ◌≢◌, ◌↔◌, refl, arith, ◌&&◌, eqb, eqb-eq, eqb_self,
  subst, str_eq, eq_iff, Bool-cases, inl, inr,
}
use distributed_ledger_and_t.Entities.{
  Uuid, OutboxEvent, OutboxStatus, WebhookDelivery, WebhookDeliveryStatus, ReconciliationRun,
  ReconciliationRunStatus, ReconciliationIssue, ReconciliationIssueType,
}
use distributed_ledger_and_t.Ops.{
  ListOutboxEventsDto, ListWebhookDeliveriesDto, ListReconciliationRunsDto,
  ListReconciliationIssuesDto, IssueKind, account_balance_mismatch_kind,
  unbalanced_transaction_kind, same_outbox_status, same_delivery_status, same_run_status,
  is_of_kind, where_given, has_event_type, outbox_event_where, webhook_delivery_where,
  reconciliation_run_where, reconciliation_issue_where,
}

-- What is asked for by a field of a query, if the query has it.
abbrev Asked {ℓ} : {B : Type ℓ} → Option B → (B → Type 0) → Type 0
Asked none P = Unit
Asked (some b) P = P b

abbrev pub EventMatches : ListOutboxEventsDto → OutboxEvent → Type 0
EventMatches query e =
    Asked query.status (λ s. e.status ≡ s)
    × Asked query.event_type (λ type. type ≢ "" → e.event_type ≡ type)

abbrev pub DeliveryMatches : ListWebhookDeliveriesDto → WebhookDelivery → Type 0
DeliveryMatches query d =
    Asked query.status (λ s. d.status ≡ s)
    × Asked query.outbox_event_id (λ id. d.outbox_event_id ≡ id)
    × Asked query.webhook_subscription_id (λ id. d.webhook_subscription_id ≡ id)

abbrev pub RunMatches : ListReconciliationRunsDto → ReconciliationRun → Type 0
RunMatches query r = Asked query.status (λ s. r.status ≡ s)

abbrev IsOfKind : ReconciliationIssueType → IssueKind → Type 0
IsOfKind (ReconciliationIssueType.account_balance_mismatch _ _ _) account_balance_mismatch_kind =
    Unit
IsOfKind (ReconciliationIssueType.unbalanced_transaction _ _ _) unbalanced_transaction_kind = Unit
IsOfKind _ _ = ⊥

abbrev pub IssueMatches : Uuid → ListReconciliationIssuesDto → ReconciliationIssue → Type 0
IssueMatches run_id query i =
    (i.run_id ≡ run_id) × Asked query.issue_type (λ kind. IsOfKind i.issue_type kind)

where_given_iff {ℓ κ} :
    {A : Type ℓ} {B : Type κ} (test : A → B → Bool) (o : Option B) (a : A) (P : B → Type 0)
    → ((b : B) → (test a b ≡ true) ↔ P b)
    → (where_given test o a ≡ true) ↔ Asked o P
where_given_iff test none a P iff = (λ e. tt, λ e. refl)
where_given_iff test (some b) a P iff = iff b

and_iff :
    (a b : Bool) (P Q : Type 0) → (a ≡ true) ↔ P → (b ≡ true) ↔ Q → ((a && b) ≡ true) ↔ (P × Q)
and_iff a b P Q f g = (
  λ e. (f.0 (ground arith), g.0 (ground arith)),
  λ (p, q). let x = f.1 p in let y = g.1 q in ground arith,
)

and3_iff :
    (a b c : Bool) (P Q R : Type 0)
    → (a ≡ true) ↔ P
    → (b ≡ true) ↔ Q
    → (c ≡ true) ↔ R
    → ((a && b && c) ≡ true) ↔ (P × Q × R)
and3_iff a b c P Q R f g h = (
  λ e. (f.0 (ground arith), g.0 (ground arith), h.0 (ground arith)),
  λ (p, q, r). let x = f.1 p in let y = g.1 q in let z = h.1 r in ground arith,
)

same_outbox_status_iff : (s t : OutboxStatus) → (same_outbox_status s t ≡ true) ↔ (s ≡ t)
same_outbox_status_iff s t = (λ e. ground arith, λ e. ground arith)

same_delivery_status_iff :
    (s t : WebhookDeliveryStatus) → (same_delivery_status s t ≡ true) ↔ (s ≡ t)
same_delivery_status_iff s t = (λ e. ground arith, λ e. ground arith)

same_run_status_iff : (s t : ReconciliationRunStatus) → (same_run_status s t ≡ true) ↔ (s ≡ t)
same_run_status_iff s t = (λ e. ground arith, λ e. ground arith)

eqb_iff : (a b : Uuid) → (eqb a b ≡ true) ↔ (a ≡ b)
eqb_iff a b = (eqb-eq a b, λ e. subst (λ c. eqb a c ≡ true) e (eqb_self a))

is_of_kind_iff :
    (type : ReconciliationIssueType) (kind : IssueKind)
    → (is_of_kind type kind ≡ true) ↔ IsOfKind type kind
is_of_kind_iff (ReconciliationIssueType.account_balance_mismatch a b c)
      account_balance_mismatch_kind =
    (λ e. tt, λ e. refl)
is_of_kind_iff (ReconciliationIssueType.account_balance_mismatch a b c)
      unbalanced_transaction_kind =
    (λ e. absurd (ground arith), λ e. absurd e)
is_of_kind_iff (ReconciliationIssueType.unbalanced_transaction a b c)
      account_balance_mismatch_kind =
    (λ e. absurd (ground arith), λ e. absurd e)
is_of_kind_iff (ReconciliationIssueType.unbalanced_transaction a b c) unbalanced_transaction_kind =
    (λ e. tt, λ e. refl)

has_event_type_iff :
    (e : OutboxEvent) (type : String)
    → (has_event_type e type ≡ true) ↔ (type ≢ "" → e.event_type ≡ type)
has_event_type_iff e type = elim (Bool-cases (str_eq type "")) [
  | inl empty ↦ (λ h asked. absurd (asked ((eq_iff type "").0 empty)), λ h. rw empty refl)
  | inr present ↦ (
    λ h asked. (eq_iff e.event_type type).0 (rw present at h),
    λ h.
        let asked : type ≢ "" = λ same. let shown = (eq_iff type "").1 same in ground arith in
        rw present ((eq_iff e.event_type type).1 (h asked)),
  )
]

pub outbox_event_where_iff :
    (query : ListOutboxEventsDto) (e : OutboxEvent)
    → (outbox_event_where query e ≡ true) ↔ EventMatches query e
outbox_event_where_iff query e =
    and_iff _ _ _ _ (where_given_iff _ query.status e _ (λ s. same_outbox_status_iff e.status s))
      (where_given_iff _ query.event_type e _ (λ type. has_event_type_iff e type))

pub webhook_delivery_where_iff :
    (query : ListWebhookDeliveriesDto) (d : WebhookDelivery)
    → (webhook_delivery_where query d ≡ true) ↔ DeliveryMatches query d
webhook_delivery_where_iff query d =
    and3_iff _ _ _ _ _ _
      (where_given_iff _ query.status d _ (λ s. same_delivery_status_iff d.status s))
      (where_given_iff _ query.outbox_event_id d _ (λ id. eqb_iff d.outbox_event_id id))
      (where_given_iff _ query.webhook_subscription_id d _
        (λ id. eqb_iff d.webhook_subscription_id id))

pub reconciliation_run_where_iff :
    (query : ListReconciliationRunsDto) (r : ReconciliationRun)
    → (reconciliation_run_where query r ≡ true) ↔ RunMatches query r
reconciliation_run_where_iff query r =
    where_given_iff _ query.status r _ (λ s. same_run_status_iff r.status s)

pub reconciliation_issue_where_iff :
    (run_id : Uuid) (query : ListReconciliationIssuesDto) (i : ReconciliationIssue)
    → (reconciliation_issue_where run_id query i ≡ true) ↔ IssueMatches run_id query i
reconciliation_issue_where_iff run_id query i =
    and_iff _ _ _ _ (eqb_iff i.run_id run_id)
      (where_given_iff _ query.issue_type i _ (λ kind. is_of_kind_iff i.issue_type kind))
