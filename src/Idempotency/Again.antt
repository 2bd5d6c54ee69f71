-- ===== src/Idempotency/Again.antt =====
-- A second request to `execute` of modules/idempotency/idempotency.service.ts with the key of a first.
use distributed_ledger_and_t.Prelude.{
  ℕ, suc, String, true, false, some, [], ◌∷◌, ◌++◌, ◌≡◌, ◌≢◌, ◌≤◌, refl, sym, ◌∙◌, ap, subst, arith,
  has_row-none, same_text,
}
use distributed_ledger_and_t.Common.Exceptions.{
  Exception, Result, ok, err, query_failed, idempotency_payload_mismatch,
}
use distributed_ledger_and_t.Entities.{Body, IdempotencyRecord, idempotency_record_row}
use distributed_ledger_and_t.Database.{
  World, Env, Action, next, throw_if, or_throw, try_catch, ◌>>=◌,
}
use distributed_ledger_and_t.Idempotency.{
  Outcome, has_key, find_record, assert_request_hash, restart_record, restarted, update_record,
  claim_existing, claim_found, claim, complete, fail, run_operation, answer, execute_with_key,
  execute, completed_with, failed_with,
}
use distributed_ledger_and_t.Idempotency.Stored.{other_tables}
use distributed_ledger_and_t.Idempotency.Replay.{
  find-append_none, update_row-append, execute_refuses_mismatch,
}
use distributed_ledger_and_t.Idempotency.Claiming.{
  IsNew, claimed, claimed_record, settled, has_key-claimed, execute-completed_with,
  execute-failed_with, execute_lost,
}

module _ {Request : Type 0} (hash : Request → String) (env : Env) (endpoint key : String)
    (payload : Request) where
  -- The same key with a payload of another hash is refused, and changes no table.
  abbrev Refuses : World → Type 0
  Refuses u =
      (second : Request)
      → hash payload ≢ hash second
      → (other : Action Outcome)
      → execute hash env endpoint (some key) second other u
        ≡ (err idempotency_payload_mismatch, next u)

  abbrev settled_record :
      (IdempotencyRecord → IdempotencyRecord) → World → World → IdempotencyRecord
  settled_record change w v = record (change (claimed_record hash env endpoint key payload w)) {
    updated_at = env.db_now v.step;
  }

  -- For a new key whose claim goes through, if the operation returns or throws and leaves the table of
  -- records alone, and no later statement fails: a second request with that key and a payload of another
  -- hash is refused as a mismatch, does not run its operation and changes no table.
  pub execute_refuses_reuse :
      (operation : Action Outcome) (outcome : Result Outcome) (w v : World)
      → IsNew hash env endpoint key payload w
      → operation (claimed hash env endpoint key payload w) ≡ (outcome, v)
      → v.idempotency_records ≡ (claimed hash env endpoint key payload w).idempotency_records
      → env.fault v.step ≡ false
      → env.fault (suc v.step) ≡ false
      → (second : Request) → hash payload ≢ hash second
      → (other : Action Outcome)
      → let u = (execute hash env endpoint (some key) payload operation w).1 in
        execute hash env endpoint (some key) second other u
        ≡ (err idempotency_payload_mismatch, next u)
  execute_refuses_reuse operation (ok result) w v n returned kept quiet later =
      subst (λ (o : Result Body × World). Refuses o.1)
        (sym (
          execute-completed_with hash env endpoint key payload operation result w v n returned kept
            quiet))
        (λ second differ other.
          execute_refuses_mismatch hash env endpoint key second n.present other _
            (settled_record (completed_with result) w v) later
            (find-append_none (has_key endpoint key) w.idempotency_records
              (settled_record (completed_with result) w v) n.absent
              (has_key-claimed hash env endpoint key payload w))
            differ)
  execute_refuses_reuse operation (err e) w v n thrown kept quiet later =
      subst (λ (o : Result Body × World). Refuses o.1)
        (sym
          (execute-failed_with hash env endpoint key payload operation e w v n thrown kept quiet))
        (λ second differ other.
          execute_refuses_mismatch hash env endpoint key second n.present other _
            (settled_record (failed_with e) w v) later
            (find-append_none (has_key endpoint key) w.idempotency_records
              (settled_record (failed_with e) w v) n.absent
              (has_key-claimed hash env endpoint key payload w))
            differ)

  abbrev restarted_record : Exception → World → World → IdempotencyRecord
  restarted_record e w v = record (restarted (settled_record (failed_with e) w v)) {
    updated_at = env.db_now (suc (suc v.step));
  }

  -- The state in which the operation of a second request runs, when the first has failed.
  abbrev pub reclaimed : Exception → World → World → World
  reclaimed e w v = record (next (next (next (next v)))) {
    db = record v.db { idempotency_records = w.idempotency_records ++ restarted_record e w v ∷ [] };
  }

  restarts :
      (other : Action Outcome) (e : Exception) (w v : World)
      → IsNew hash env endpoint key payload w
      → env.fault (suc v.step) ≡ false
      → env.fault (suc (suc v.step)) ≡ false
      → env.fault (suc (suc (suc v.step))) ≡ false
      → execute hash env endpoint
          (some key)
          payload
          other
          (settled hash env endpoint key payload (failed_with e) w v)
        ≡ try_catch
            (complete env (restarted_record e w v) other)
            (fail env (restarted_record e w v))
            (reclaimed e w v)
  unfolding execute execute_with_key claim claim_found claim_existing restart_record find_record
      assert_request_hash update_record run_operation try_catch throw_if or_throw answer ◌>>=◌
  restarts other e w v n found updated found_again = simp (
    n.present,
    found,
    updated,
    found_again,
    find-append_none (has_key endpoint key) w.idempotency_records
        (settled_record (failed_with e) w v) n.absent
        (has_key-claimed hash env endpoint key payload w),
    same_text (hash payload) (hash payload) refl,
    update_row-append (λ r. record (restarted r) { updated_at = env.db_now (suc (suc v.step)) })
        w.idempotency_records (settled_record (failed_with e) w v)
        (has_row-none (claimed_record hash env endpoint key payload w).id w.idempotency_records
          n.fresh),
    find-append_none (has_key endpoint key) w.idempotency_records (restarted_record e w v) n.absent
        (has_key-claimed hash env endpoint key payload w),
  )

  run_again :
      (other : Action Outcome) (second : Outcome) (w v y : World)
      → other (reclaimed query_failed w v) ≡ (ok second, y)
      → env.fault y.step ≡ false
      → (try_catch
          (complete env (restarted_record query_failed w v) other)
          (fail env (restarted_record query_failed w v))
          (reclaimed query_failed w v)).0
        ≡ ok second.body
  unfolding complete update_record try_catch ◌>>=◌
  run_again other second w v y returned quiet = simp (returned, quiet)

  -- For a new key whose claim goes through, if the operation returns and leaves the table of records
  -- alone, storing its reply fails, and no statement after that does: the same request again runs its
  -- operation, over all other tables as the first operation left them, and if that returns and its reply
  -- can be stored, is answered by it.
  pub execute_runs_again :
      (operation other : Action Outcome) (result second : Outcome) (w v y : World)
      → IsNew hash env endpoint key payload w
      → operation (claimed hash env endpoint key payload w) ≡ (ok result, v)
      → v.idempotency_records ≡ (claimed hash env endpoint key payload w).idempotency_records
      → env.fault v.step ≡ true
      → ((m : ℕ) → suc v.step ≤ m → env.fault m ≡ false)
      → other (reclaimed query_failed w (next v)) ≡ (ok second, y)
      → env.fault y.step ≡ false
      → let u = (execute hash env endpoint (some key) payload operation w).1 in
        ((execute hash env endpoint (some key) payload other u).0 ≡ ok second.body)
        × (other_tables (reclaimed query_failed w (next v)).db ≡ other_tables v.db)
  execute_runs_again operation other result second w v y n returned kept failing quiet again
        stored =
      subst
        (λ (o : Result Body × World).
          ((execute hash env endpoint (some key) payload other o.1).0 ≡ ok second.body)
          × (other_tables (reclaimed query_failed w (next v)).db ≡ other_tables v.db))
        (sym (
          execute_lost hash env endpoint key payload operation result w v n returned kept failing
            (quiet (suc v.step) (omega arith))))
        (
          ap (λ (o : Result Body × World). o.0)
                (restarts other query_failed w (next v) n (quiet (suc (suc v.step)) (omega arith))
                  (quiet (suc (suc (suc v.step))) (omega arith))
                  (quiet (suc (suc (suc (suc v.step)))) (omega arith)))
              ∙ run_again other second w (next v) y again stored,
          refl,
        )
