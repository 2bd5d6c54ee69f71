-- ===== src/Idempotency/Once.antt =====
-- An operation that `execute` of modules/idempotency/idempotency.service.ts runs for a new key, and the
-- repetitions of the request.
use distributed_ledger_and_t.Prelude.{ℕ, String, false, some, ◌≡◌, refl, ap, ◌∙◌}
use distributed_ledger_and_t.Common.Exceptions.{Result, ok, err}
use distributed_ledger_and_t.Database.{World, Env, Action, next}
use distributed_ledger_and_t.Database.Ensures.{Returns}
use distributed_ledger_and_t.Idempotency.{Outcome, has_key, find_key, execute, completed_with}
use distributed_ledger_and_t.Idempotency.Replay.{find-append_none, execute_replays}
use distributed_ledger_and_t.Idempotency.Claiming.{
  IsNew, claimed_record, claimed, settled, has_key-claimed, execute-completed_with,
}

module _ {Request : Type 0} (hash : Request → String) (env : Env) (endpoint key : String)
    (payload : Request) (operation : Action Outcome) (P : Outcome → World → Type 0)
    (w : World) where
  -- The operation ran once, and every repetition finds its reply.
  pub record IsRunOnce : Type 0 where
    pub result : Outcome
    pub after : World
    pub done : P result after
    pub answered :
        execute hash env endpoint (some key) payload operation w
        ≡ (ok result.body, settled hash env endpoint key payload (completed_with result) w after)
    pub repeated :
        (other : Action Outcome) (x : World)
        → x.idempotency_records
          ≡ (settled hash env endpoint key payload
              (completed_with result)
              w
              after).idempotency_records
        → execute hash env endpoint (some key) payload other x ≡ (ok result.body, next x)

module _ {Request : Type 0} (hash : Request → String) (env : Env) (endpoint key : String)
    (payload : Request) (operation : Action Outcome) (P : Outcome → World → Type 0) (w : World)
    (n : IsNew hash env endpoint key payload w) (no_fault : (n : ℕ) → env.fault n ≡ false) where
  runs :
      (o : Result Outcome × World)
      → operation (claimed hash env endpoint key payload w) ≡ o
      → Returns
          (λ result v.
            P result v
            × (v.idempotency_records
                ≡ (claimed hash env endpoint key payload w).idempotency_records))
          o
      → IsRunOnce hash env endpoint key payload operation P w
  runs (err e, v) outcome h = absurd h
  runs (ok result, v) outcome h =
      let r = record (completed_with result (claimed_record hash env endpoint key payload w)) {
        updated_at = env.db_now v.step;
      } in
      record {
        result = result;
        after = v;
        done = h.0;
        answered =
            execute-completed_with hash env endpoint key payload operation result w v n outcome h.1
              (no_fault v.step);
        repeated = λ other x same.
            execute_replays hash env endpoint key payload n.present other x r result.body
              (no_fault x.step)
              (ap (find_key endpoint key) same
                ∙ find-append_none (has_key endpoint key) w.idempotency_records r n.absent
                    (has_key-claimed hash env endpoint key payload w))
              refl refl refl;
      }

  pub run_once :
      Returns
        (λ result v.
          P result v
          × (v.idempotency_records ≡ (claimed hash env endpoint key payload w).idempotency_records))
        (operation (claimed hash env endpoint key payload w))
      → IsRunOnce hash env endpoint key payload operation P w
  run_once h = runs _ refl h
