-- ===== src/Idempotency/Claiming.antt =====
-- The claim of a key without a record in modules/idempotency/idempotency.service.ts, and the record
-- after the operation.
use distributed_ledger_and_t.Prelude.{
  suc, String, true, false, none, some, [], ◌∷◌, ◌++◌, ◌≡◌, refl, ◌∙◌, has_row, has_row-none,
  str_eq, eq_iff,
}
use distributed_ledger_and_t.Common.Exceptions.{Exception, ok, err, query_failed}
use distributed_ledger_and_t.Entities.{IdempotencyRecord, idempotency_record_row}
use distributed_ledger_and_t.Database.{
  World, Env, Action, next, throw_if, or_throw, try_catch, ◌>>=◌,
}
use distributed_ledger_and_t.Idempotency.{
  Outcome, has_key, find_key, find_record, insert_record, update_record, processing_record,
  claim_new, claim_found, claim, complete, fail, run_operation, answer, execute_with_key, execute,
  completed_with, failed_with,
}
use distributed_ledger_and_t.Idempotency.Replay.{find-append_none, update_row-append}

module _ {Request : Type 0} (hash : Request → String) (env : Env) (endpoint key : String)
    (payload : Request) where
  abbrev pub claimed_record : World → IdempotencyRecord
  claimed_record w = processing_record env endpoint key (hash payload) (next w)

  -- The state in which the operation of a new key runs.
  abbrev pub claimed : World → World
  claimed w = record (next (next (next w))) {
    db = record w.db { idempotency_records = w.idempotency_records ++ claimed_record w ∷ [] };
  }

  -- The table of records after the operation: the claimed one has been changed.
  abbrev pub settled : (IdempotencyRecord → IdempotencyRecord) → World → World → World
  settled change w v = record (next v) {
    db = record v.db {
      idempotency_records =
          w.idempotency_records
          ++ record (change (claimed_record w)) { updated_at = env.db_now v.step } ∷ [];
    };
  }

  pub has_key-claimed : (w : World) → has_key endpoint key (claimed_record w) ≡ true
  has_key-claimed w = rw ((eq_iff endpoint endpoint).1 refl, (eq_iff key key).1 refl)

  -- A key that no record has, in a state in which its claim goes through.
  pub record IsNew (w : World) : Type 0 where
    pub present : str_eq key "" ≡ false
    pub absent : find_key endpoint key w.idempotency_records ≡ none
    pub fresh : has_row (env.gen_random_uuid (suc w.step)) w.idempotency_records ≡ false
    pub found : env.fault w.step ≡ false
    pub inserted : env.fault (suc w.step) ≡ false
    pub found_again : env.fault (suc (suc w.step)) ≡ false

  -- The claim of a new key leads to its operation.
  pub execute_claims :
      (operation : Action Outcome) (w : World)
      → IsNew w
      → execute hash env endpoint (some key) payload operation w
        ≡ try_catch
            (complete env (claimed_record w) operation)
            (fail env (claimed_record w))
            (claimed w)
  unfolding execute execute_with_key claim claim_found claim_new find_record insert_record
      run_operation try_catch throw_if or_throw answer ◌>>=◌
  execute_claims operation w n = simp (
    n.present,
    n.found,
    n.absent,
    n.fresh,
    n.inserted,
    n.found_again,
    find-append_none (has_key endpoint key) w.idempotency_records (claimed_record w) n.absent
        (has_key-claimed w),
  )

  settles :
      (change : IdempotencyRecord → IdempotencyRecord) (w v : World)
      → IsNew w
      → v.idempotency_records ≡ (claimed w).idempotency_records
      → env.fault v.step ≡ false
      → update_record env (claimed_record w).id change v ≡ (ok tt, settled change w v)
  unfolding update_record
  settles change w v n kept quiet = simp (
    quiet,
    kept,
    update_row-append (λ r. record (change r) { updated_at = env.db_now v.step })
        w.idempotency_records (claimed_record w)
        (has_row-none (claimed_record w).id w.idempotency_records n.fresh),
  )

  unsettled :
      (change : IdempotencyRecord → IdempotencyRecord) (w v : World)
      → env.fault v.step ≡ true
      → update_record env (claimed_record w).id change v ≡ (err query_failed, next v)
  unfolding update_record
  unsettled change w v failing = rw failing

  pub execute-completed_with :
      (operation : Action Outcome) (result : Outcome) (w v : World)
      → IsNew w
      → operation (claimed w) ≡ (ok result, v)
      → v.idempotency_records ≡ (claimed w).idempotency_records
      → env.fault v.step ≡ false
      → execute hash env endpoint (some key) payload operation w
        ≡ (ok result.body, settled (completed_with result) w v)
  unfolding complete try_catch ◌>>=◌
  execute-completed_with operation result w v n returned kept quiet =
      execute_claims operation w n
      ∙ simp (returned, settles (completed_with result) w v n kept quiet)

  pub execute-failed_with :
      (operation : Action Outcome) (e : Exception) (w v : World)
      → IsNew w
      → operation (claimed w) ≡ (err e, v)
      → v.idempotency_records ≡ (claimed w).idempotency_records
      → env.fault v.step ≡ false
      → execute hash env endpoint (some key) payload operation w
        ≡ (err e, settled (failed_with e) w v)
  unfolding complete fail try_catch ◌>>=◌
  execute-failed_with operation e w v n thrown kept quiet =
      execute_claims operation w n ∙ simp (thrown, settles (failed_with e) w v n kept quiet)

  pub execute_lost :
      (operation : Action Outcome) (result : Outcome) (w v : World)
      → IsNew w
      → operation (claimed w) ≡ (ok result, v)
      → v.idempotency_records ≡ (claimed w).idempotency_records
      → env.fault v.step ≡ true
      → env.fault (suc v.step) ≡ false
      → execute hash env endpoint (some key) payload operation w
        ≡ (err query_failed, settled (failed_with query_failed) w (next v))
  unfolding complete fail try_catch ◌>>=◌
  execute_lost operation result w v n returned kept failing quiet =
      execute_claims operation w n
      ∙ simp (
        returned,
        unsettled (completed_with result) w v failing,
        settles (failed_with query_failed) w (next v) n kept quiet,
      )
