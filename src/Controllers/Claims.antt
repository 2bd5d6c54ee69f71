-- ===== src/Controllers/Claims.antt =====
-- A service of modules/transactions as the operation of `execute`, for a key without a record.
use distributed_ledger_and_t.Prelude.{
  suc, ℤ, String, false, none, some, List, ◌≡◌, refl, sym, ap, ◌∙◌, subst, arith, str_eq,
  has_row-append,
}
use distributed_ledger_and_t.Common.Exceptions.{Result, ok}
use distributed_ledger_and_t.Entities.{
  Uuid, Body, transaction_body, TransactionResponse, idempotency_record_row,
}
use distributed_ledger_and_t.Database.{World, Env, Action, next, pure, ◌>>=◌}
use distributed_ledger_and_t.Database.Ensures.{Ensures, Returns, Returns-bind, Returns-weaken}
use distributed_ledger_and_t.Database.Unused.{
  IsUnused-later, with_idempotency_records, draws-differ,
}
use distributed_ledger_and_t.Idempotency.{Outcome, find_key, execute, completed_with}
use distributed_ledger_and_t.Idempotency.Claiming.{IsNew, claimed, claimed_record, settled}
use distributed_ledger_and_t.Idempotency.Once.{IsRunOnce, run_once}
use distributed_ledger_and_t.Transactions.{Draft, DepositDto, TransferDto, deposit, transfer}
use distributed_ledger_and_t.Transactions.Guards.{deposit-Ensures, transfer-Ensures}
use distributed_ledger_and_t.Transactions.Outcomes.{IsQuiet}
use distributed_ledger_and_t.Ledger.{EntryInput}
use distributed_ledger_and_t.Accounting.Expected.{IsMovement}
use distributed_ledger_and_t.Controllers.{Payload, transaction_outcome}

-- The claim of a new key, when no statement fails.
module _ (hash : Payload → String) (env : Env) (endpoint key : String) (payload : Payload)
    (w : World) (q : IsQuiet env w) where
  key-IsNew :
      str_eq key "" ≡ false
      → find_key endpoint key w.idempotency_records ≡ none
      → IsNew hash env endpoint key payload w
  key-IsNew present absent = record {
    present = present;
    absent = absent;
    fresh = q.unused.idempotency_records (suc w.step) (omega arith);
    found = q.no_fault w.step;
    inserted = q.no_fault (suc w.step);
    found_again = q.no_fault (suc (suc w.step));
  }

  pub claimed-IsQuiet : IsQuiet env (claimed hash env endpoint key payload w)
  claimed-IsQuiet = record {
    no_fault = q.no_fault;
    draws_once = q.draws_once;
    unused =
        let later =
          IsUnused-later env w.step (suc (suc (suc w.step))) w.db (omega arith) q.unused in
        with_idempotency_records env (suc (suc (suc w.step))) w.db later _ (λ n h.
          has_row-append (env.gen_random_uuid n) w.idempotency_records
            (claimed_record hash env endpoint key payload w) (later.idempotency_records n h)
            (draws-differ env q.draws_once (suc w.step) n (omega arith)));
  }

-- What the services leave in the table of records.
pub deposit-leaves :
    (env : Env) (dto : DepositDto) (w : World)
    → Ensures (λ r v. v.idempotency_records ≡ w.idempotency_records) (deposit env dto w)
deposit-leaves env dto w = deposit-Ensures _ env dto w (λ a at t rows e n u p. refl)

pub transfer-leaves :
    (env : Env) (dto : TransferDto) (w : World)
    → Ensures (λ r v. v.idempotency_records ≡ w.idempotency_records) (transfer env dto w)
transfer-leaves env dto w = transfer-Ensures _ env dto w (λ a b at t rows e n d u v enough p. refl)

-- The movement that `P` is about was made, and the request answered by it, now and whenever it comes again
-- to a state with the same records.
pub record IsOnce (post : Action Body) (P : World → TransactionResponse → World → Type 0)
    (w : World) : Type 0 where
  pub response : TransactionResponse
  pub replied : (post w).0 ≡ ok (transaction_body response)
  pub moved : P w response (post w).1
  pub repeated :
      (x : World)
      → x.idempotency_records ≡ (post w).1.idempotency_records
      → post x ≡ (ok (transaction_body response), next x)

module _ (hash : Payload → String) (env : Env) (endpoint key : String) (payload : Payload)
    (w : World) (d : Draft) (entries : Uuid → List EntryInput) (delta : Uuid → ℤ) (change : ℤ) where
  -- A movement is about other tables than that of the records.
  settled-IsMovement :
      (result : Outcome) (r : TransactionResponse) (v : World)
      → IsMovement d entries delta change (claimed hash env endpoint key payload w) r v
      → IsMovement d entries delta change w r
          (settled hash env endpoint key payload (completed_with result) w v)
  settled-IsMovement result r v m = record {
    transaction = m.transaction;
    rows = m.rows;
    event = m.event;
    recorded = m.recorded;
    completed = m.completed;
    entered = m.entered;
    as_asked = m.as_asked;
    announced = m.announced;
    announces = m.announces;
    answered = m.answered;
    moves = m.moves;
    total = m.total;
    webhook_subscriptions = m.webhook_subscriptions;
    webhook_deliveries = m.webhook_deliveries;
    reconciliation_runs = m.reconciliation_runs;
    reconciliation_issues = m.reconciliation_issues;
  }

  -- What the operation of a controller does, and the outcome that it makes of the response.
  abbrev Made : Outcome → World → Type 0
  Made result v =
      (r : TransactionResponse) × (result ≡ transaction_outcome r)
      × IsMovement d entries delta change (claimed hash env endpoint key payload w) r v

  module _ (service : Action TransactionResponse) (q : IsQuiet env w) where
    abbrev operation : Action Outcome
    operation = do transaction ← service; pure (transaction_outcome transaction)

    finish :
        IsRunOnce hash env endpoint key payload operation Made w
        → IsOnce
            (execute hash env endpoint (some key) payload operation)
            (IsMovement d entries delta change)
            w
    finish once =
        let (r, same, m) = once.done in
        record {
          response = r;
          replied =
              ap (λ (o : Result Body × World). o.0) once.answered
              ∙ ap (λ (result : Outcome). ok result.body) same;
          moved =
              subst (IsMovement d entries delta change w r)
                (sym (ap (λ (o : Result Body × World). o.1) once.answered))
                (settled-IsMovement once.result r once.after m);
          repeated = λ x kept.
              once.repeated operation x
                (kept ∙ ap (λ (o : Result Body × World). o.1.idempotency_records) once.answered)
              ∙ ap (λ (result : Outcome). (ok result.body, next x)) same;
        }

    pub once :
        str_eq key "" ≡ false
        → find_key endpoint key w.idempotency_records ≡ none
        → Returns
            (λ r v.
              IsMovement d entries delta change (claimed hash env endpoint key payload w) r v
              × (v.idempotency_records
                  ≡ (claimed hash env endpoint key payload w).idempotency_records))
            (service (claimed hash env endpoint key payload w))
        → IsOnce
            (execute hash env endpoint (some key) payload operation)
            (IsMovement d entries delta change)
            w
    once present absent done = finish (
        run_once hash env endpoint key payload operation Made w
          (key-IsNew hash env endpoint key payload w q present absent) q.no_fault
          (Returns-bind _ service _ (claimed hash env endpoint key payload w) (
            Returns-weaken _ _ (service (claimed hash env endpoint key payload w))
              (λ r v h. ((r, refl, h.0), h.1)) done)))
