-- ===== src/Ops/Listings.antt =====
-- The listings of modules/ops/ops.service.ts.
use mathlib.Core.Option
use mathlib.Core.List.{map-append}
use distributed_ledger_and_t.Prelude.{
  ℕ, zero, suc, Bool, true, false, Option, none, some, List, [], ◌∷◌, ◌++◌, ◌≡◌, ◌≤◌, ◌*◌, refl,
  sym, ap, ◌∙◌, subst, arith, map, length, take, drop, filter, length-take-le, ◌↔◌,
}
use distributed_ledger_and_t.Common.Exceptions.{Result, ok, err}
use distributed_ledger_and_t.Entities.{Uuid, Time, OutboxEvent}
use distributed_ledger_and_t.Database.{World, Env, Action}
use distributed_ledger_and_t.Database.Ensures.{Ensures, Ensures-statement}
use distributed_ledger_and_t.Controllers.Validation.{is_valid_limit, validated}
use distributed_ledger_and_t.Ops.{
  OpsPaginationDto, TieOrder, ListOutboxEventsDto, ListWebhookDeliveriesDto,
  ListReconciliationRunsDto, ListReconciliationIssuesDto, OutboxEventView, outbox_event_view,
  outbox_event_where, newest_first, page_of, list_outbox_events, list_webhook_deliveries,
  list_reconciliation_runs, list_reconciliation_issues, outbox_events_route,
  webhook_deliveries_route, reconciliation_runs_route, reconciliation_issues_route,
}
use distributed_ledger_and_t.Ops.Matching.{
  EventMatches, DeliveryMatches, RunMatches, IssueMatches, outbox_event_where_iff,
  webhook_delivery_where_iff, reconciliation_run_where_iff, reconciliation_issue_where_iff,
}
use distributed_ledger_and_t.Ops.Selection.{IsSelection, newest_first-IsSelection}
use distributed_ledger_and_t.Ops.Pages.{
  pages, pages-take, take_all, length-sort_by, HaveOwnDates, sort_by-tie,
}

-- What is shown of an event: all its columns but the payload.
pub record IsViewOf (e : OutboxEvent) (v : OutboxEventView) : Type 0 where
  pub id : v.id ≡ e.id
  pub aggregate_type : v.aggregate_type ≡ e.aggregate_type
  pub aggregate_id : v.aggregate_id ≡ e.aggregate_id
  pub event_type : v.event_type ≡ e.event_type
  pub status : v.status ≡ e.status
  pub retry_count : v.retry_count ≡ e.retry_count
  pub next_retry_at : v.next_retry_at ≡ e.next_retry_at
  pub published_at : v.published_at ≡ e.published_at
  pub transaction_id : v.transaction_id ≡ e.transaction_id
  pub created_at : v.created_at ≡ e.created_at
  pub updated_at : v.updated_at ≡ e.updated_at

abbrev pub AreViewsOf : List OutboxEvent → List OutboxEventView → Type 0
AreViewsOf [] [] = Unit
AreViewsOf (e ∷ es) (v ∷ vs) = IsViewOf e v × AreViewsOf es vs
AreViewsOf _ _ = ⊥

map-AreViewsOf : (es : List OutboxEvent) → AreViewsOf es (map outbox_event_view es)
map-AreViewsOf [] = tt
map-AreViewsOf (e ∷ es) = (
  record {
    id = refl;
    aggregate_type = refl;
    aggregate_id = refl;
    event_type = refl;
    status = refl;
    retry_count = refl;
    next_retry_at = refl;
    published_at = refl;
    transaction_id = refl;
    created_at = refl;
    updated_at = refl;
  },
  map-AreViewsOf es,
)

-- The rows from the offset of a query on, as many as its limit, if they are 0 and 20 by default.
abbrev pub page_rows {ℓ} : {A : Type ℓ} → OpsPaginationDto → List A → List A
page_rows page all = take (Option.get_or page.limit 20) (drop (Option.get_or page.offset 0) all)

-- At most 100 rows: that page of the rows of the table that match.
abbrev pub IsPage {ℓ} :
    {A : Type ℓ} → (A → Type 0) → (A → Time) → List A → OpsPaginationDto → List A → Type ℓ
IsPage {A = A} Matches created_at table page rows =
    (length rows ≤ 100)
    × ((all : List A) × IsSelection Matches created_at table all × (rows ≡ page_rows page all))

limit_le : (limit : Option ℕ) → is_valid_limit limit ≡ true → Option.get_or limit 20 ≤ 100
limit_le none valid = omega arith
limit_le (some limit) valid = ground arith

module _ {ℓ} {A : Type ℓ} where
  page_of-IsPage :
      (tie : Uuid → Uuid → Bool) (id : A → Uuid) (created_at : A → Time) (Matches : A → Type 0)
      (test : A → Bool) (table : List A) (page : OpsPaginationDto)
      → ((a : A) → (test a ≡ true) ↔ Matches a)
      → is_valid_limit page.limit ≡ true
      → IsPage Matches created_at table page
          (page_of page (newest_first tie id created_at (filter test table)))
  page_of-IsPage tie id created_at Matches test table page iff valid =
      let sorted = newest_first tie id created_at (filter test table) in
      let short =
        length-take-le (Option.get_or page.limit 20) (drop (Option.get_or page.offset 0) sorted) in
      let le = limit_le page.limit valid in
      (
        omega arith,
        (sorted, newest_first-IsSelection tie id created_at Matches test table iff, refl),
      )

validated-Ensures {ℓ} :
    {A : Type ℓ} (P : A → World → Type 0) (valid : Bool) (handler : Action A) (w : World)
    → (valid ≡ true → Ensures P (handler w))
    → Ensures P (validated valid handler w)
unfolding validated
validated-Ensures P true handler w h = h refl
validated-Ensures P false handler w h = tt

-- The events of a page, shown.
abbrev pub IsEventPage : List OutboxEvent → ListOutboxEventsDto → List OutboxEventView → Type 0
IsEventPage table query views =
    (rows : List OutboxEvent) × IsPage (EventMatches query) (λ e. e.created_at) table query.page
      rows
    × AreViewsOf rows views

module _ (tie : TieOrder) (env : Env) (w : World) where
  -- The four routes that list events, deliveries, runs and issues, when they return, answer with at most
  -- 100 rows and change no table: the rows are the page from the offset, or 0, of as many as the limit, or
  -- 20, of all stored rows that meet the conditions of the query, in an order with the newest first;
  -- events are shown without their payload.
  pub listings-IsPage :
      ((query : ListOutboxEventsDto)
        → Ensures
            (λ views v. IsEventPage w.outbox_events query views × (v.db ≡ w.db))
            (outbox_events_route tie env query w))
      × ((query : ListWebhookDeliveriesDto)
          → Ensures
              (λ rows v.
                IsPage
                  (DeliveryMatches query)
                  (λ d. d.created_at)
                  w.webhook_deliveries
                  query.page
                  rows
                × (v.db ≡ w.db))
              (webhook_deliveries_route tie env query w))
      × ((query : ListReconciliationRunsDto)
          → Ensures
              (λ rows v.
                IsPage (RunMatches query) (λ r. r.created_at) w.reconciliation_runs query.page rows
                × (v.db ≡ w.db))
              (reconciliation_runs_route tie env query w))
      × ((run_id : Uuid) (query : ListReconciliationIssuesDto)
          → Ensures
              (λ rows v.
                IsPage
                  (IssueMatches run_id query)
                  (λ i. i.created_at)
                  w.reconciliation_issues
                  query.page
                  rows
                × (v.db ≡ w.db))
              (reconciliation_issues_route tie env run_id query w))
  unfolding outbox_events_route list_outbox_events webhook_deliveries_route list_webhook_deliveries
      reconciliation_runs_route list_reconciliation_runs reconciliation_issues_route
      list_reconciliation_issues
  listings-IsPage = (
    λ query. validated-Ensures _ _ _ w (λ valid. Ensures-statement _ env _ _ _ w (λ _. (
      (
        _,
        page_of-IsPage (tie w.step) (λ e. e.id) _ _ _ w.outbox_events query.page
            (outbox_event_where_iff query) valid,
        map-AreViewsOf _,
      ),
      refl,
    ))),
    λ query. validated-Ensures _ _ _ w (λ valid. Ensures-statement _ env _ _ _ w (λ _. (
      page_of-IsPage (tie w.step) (λ d. d.id) _ _ _ w.webhook_deliveries query.page
          (webhook_delivery_where_iff query) valid,
      refl,
    ))),
    λ query. validated-Ensures _ _ _ w (λ valid. Ensures-statement _ env _ _ _ w (λ _. (
      page_of-IsPage (tie w.step) (λ r. r.id) _ _ _ w.reconciliation_runs query.page
          (reconciliation_run_where_iff query) valid,
      refl,
    ))),
    λ run_id query. validated-Ensures _ _ _ w (λ valid. Ensures-statement _ env _ _ _ w (λ _. (
      page_of-IsPage (tie w.step) (λ i. i.id) _ _ _ w.reconciliation_issues query.page
          (reconciliation_issue_where_iff run_id query) valid,
      refl,
    ))),
  )

-- The rows of an answer.
abbrev listed {ℓ} : {A : Type ℓ} → Result (List A) → List A
listed (ok rows) = rows
listed (err e) = []

abbrev with_page : ListOutboxEventsDto → (limit offset : ℕ) → ListOutboxEventsDto
with_page query limit offset = record query {
  page = record { limit = some limit; offset = some offset };
}

-- What a caller gets who asks for `count` pages of `limit` events, one after the other, the one of
-- number `n` when `step n` statements have been run.
abbrev pub listed_pages :
    TieOrder
    → Env
    → ListOutboxEventsDto
    → (limit : ℕ) → (ℕ → ℕ)
    → (count : ℕ) → World
    → List OutboxEventView
listed_pages tie env query limit step zero w = []
listed_pages tie env query limit step (suc count) w =
    listed_pages tie env query limit step count w
    ++ listed
        (list_outbox_events tie env (with_page query limit (count * limit))
          (record w { step = step count })).0

module _ (tie : TieOrder) (env : Env) (no_fault : (n : ℕ) → env.fault n ≡ false)
    (query : ListOutboxEventsDto) (limit : ℕ) (step : ℕ → ℕ) (w : World)
    (own_dates : HaveOwnDates
      (λ e. e.created_at)
      (filter (outbox_event_where query) w.outbox_events)) where
  abbrev matching : List OutboxEvent
  matching = filter (outbox_event_where query) w.outbox_events

  abbrev sorted : List OutboxEvent
  sorted = newest_first (tie 0) (λ e. e.id) (λ e. e.created_at) matching

  one_page :
      (n offset : ℕ)
      → listed (list_outbox_events tie env (with_page query limit offset) (record w { step = n })).0
        ≡ map outbox_event_view (take limit (drop offset sorted))
  unfolding list_outbox_events
  one_page n offset = rw (no_fault n) (
      ap (λ rows. map outbox_event_view (take limit (drop offset rows)))
        (sort_by-tie (λ (e : OutboxEvent). e.created_at) (λ a b. tie n a.id b.id)
          (λ a b. tie 0 a.id b.id) matching own_dates))

  listed_pages-pages :
      (count : ℕ)
      → listed_pages tie env query limit step count w
        ≡ map outbox_event_view (pages limit count sorted)
  listed_pages-pages zero = refl
  listed_pages-pages (suc count) =
      rw (listed_pages-pages count, one_page (step count) (count * limit))
        (sym (
          map-append outbox_event_view (pages limit count sorted)
            (take limit (drop (count * limit) sorted))))

  -- If no statement fails, and no two events that meet the conditions have the same date, who asks for
  -- enough pages of outbox events, each at the offset where the last one ended, gets a view of each event
  -- that meets the conditions as often as it is stored, of no other, and the newest first, however
  -- PostgreSQL orders rows of one date.
  pub list_outbox_events_covers :
      (count : ℕ)
      → length (filter (outbox_event_where query) w.outbox_events) ≤ count * limit
      → (all : List OutboxEvent) × IsSelection
          (EventMatches query)
          (λ e. e.created_at)
          w.outbox_events
          all
        × AreViewsOf all (listed_pages tie env query limit step count w)
  list_outbox_events_covers count enough =
      let e =
        listed_pages-pages count
        ∙ ap (map outbox_event_view) (
            pages-take limit count sorted
            ∙ take_all (count * limit) sorted
                (subst (λ n. n ≤ count * limit) (sym (length-sort_by _ matching)) enough)) in
      (
        sorted,
        newest_first-IsSelection (tie 0) (λ e. e.id) (λ e. e.created_at) _ _ w.outbox_events
            (outbox_event_where_iff query),
        subst (AreViewsOf sorted) (sym e) (map-AreViewsOf sorted),
      )
