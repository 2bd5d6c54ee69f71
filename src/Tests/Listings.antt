-- ===== src/Tests/Listings.antt =====
-- Listings for operators over a few rows.
use distributed_ledger_and_t.Prelude.{
  none, some, [], ◌∷◌, ◌≡◌, refl, arith, List, eqb, ltb, if◌then◌else◌,
}
use distributed_ledger_and_t.Database.{World}
use distributed_ledger_and_t.Database.Ensures.{Ensures}
use distributed_ledger_and_t.Entities.{
  Uuid, Time, OutboxEvent, OutboxStatus, ReconciliationRun, ReconciliationRunStatus,
}
use distributed_ledger_and_t.Ops.{
  OpsPaginationDto, TieOrder, ListOutboxEventsDto, ListWebhookDeliveriesDto,
  ListReconciliationRunsDto, ListReconciliationIssuesDto, outbox_events_route,
  webhook_deliveries_route, reconciliation_runs_route, reconciliation_issues_route,
}
use distributed_ledger_and_t.Ops.Matching.{EventMatches, DeliveryMatches, RunMatches, IssueMatches}
use distributed_ledger_and_t.Ops.Selection.{IsSelection}
use distributed_ledger_and_t.Ops.Listings.{
  IsPage, IsEventPage, AreViewsOf, listings-IsPage, listed_pages, list_outbox_events_covers,
}
use distributed_ledger_and_t.Tests.Books.{calm, books, idle}
use distributed_ledger_and_t.Tests.Webhooks.{event}

abbrev event_of : Uuid → Time → OutboxStatus → OutboxEvent
event_of id created_at status = record event { id = id; created_at = created_at; status = status }

abbrev run_of : Uuid → Time → ReconciliationRun
run_of id created_at = record {
  id = id;
  status = ReconciliationRunStatus.completed;
  total_issues = 0;
  error_message = none;
  started_at = created_at;
  completed_at = some created_at;
  created_at = created_at;
}

abbrev busy : World
busy = idle (record books {
  outbox_events =
      event_of 30 5 OutboxStatus.pending
      ∷ event_of 31 9 OutboxStatus.pending
      ∷ event_of 32 7 OutboxStatus.published
      ∷ event_of 33 7 OutboxStatus.pending
      ∷ [];
  reconciliation_runs = run_of 40 1 ∷ run_of 41 2 ∷ [];
})

abbrev all_pages : OpsPaginationDto
all_pages = record { limit = none; offset = none }

abbrev pending_events : ListOutboxEventsDto
pending_events = record { page = all_pages; status = some OutboxStatus.pending; event_type = none }

-- Of rows of one date, the first in one statement is the last in the next.
abbrev unstable : TieOrder
unstable n i j = if eqb n 0 then ltb i j else ltb j i

list_outbox_events_covers_example :
    (all : List OutboxEvent) × IsSelection
      (EventMatches pending_events)
      (λ e. e.created_at)
      busy.outbox_events
      all
    × AreViewsOf all (listed_pages unstable calm pending_events 2 (λ n. n) 2 busy)
list_outbox_events_covers_example =
    list_outbox_events_covers unstable calm (λ n. refl) pending_events 2 (λ n. n) busy
      ((refl, (refl, tt)), ((refl, tt), (tt, tt))) 2 (omega arith)

listings-IsPage_example :
    ((query : ListOutboxEventsDto)
      → Ensures
          (λ views v. IsEventPage busy.outbox_events query views × (v.db ≡ busy.db))
          (outbox_events_route unstable calm query busy))
    × ((query : ListWebhookDeliveriesDto)
        → Ensures
            (λ rows v.
              IsPage
                (DeliveryMatches query)
                (λ d. d.created_at)
                busy.webhook_deliveries
                query.page
                rows
              × (v.db ≡ busy.db))
            (webhook_deliveries_route unstable calm query busy))
    × ((query : ListReconciliationRunsDto)
        → Ensures
            (λ rows v.
              IsPage (RunMatches query) (λ r. r.created_at) busy.reconciliation_runs query.page rows
              × (v.db ≡ busy.db))
            (reconciliation_runs_route unstable calm query busy))
    × ((run_id : Uuid) (query : ListReconciliationIssuesDto)
        → Ensures
            (λ rows v.
              IsPage
                (IssueMatches run_id query)
                (λ i. i.created_at)
                busy.reconciliation_issues
                query.page
                rows
              × (v.db ≡ busy.db))
            (reconciliation_issues_route unstable calm run_id query busy))
listings-IsPage_example = listings-IsPage unstable calm busy
