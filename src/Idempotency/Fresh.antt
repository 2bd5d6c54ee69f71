-- ===== src/Idempotency/Fresh.antt =====
-- `execute` of modules/idempotency/idempotency.service.ts for a key without a record.
use distributed_ledger_and_t.Prelude.{
  ℕ, suc, Option, String, true, false, none, some, ◌≡◌, refl, sym, subst,
}
use distributed_ledger_and_t.Common.Exceptions.{
  Exception, Result, ok, err, query_failed, status_code,
}
use distributed_ledger_and_t.Entities.{
  Uuid, Body, error_body, IdempotencyStatus, idempotency_record_row,
}
use distributed_ledger_and_t.Database.{Db, World, Env, Action, next}
use distributed_ledger_and_t.Idempotency.{
  Outcome, has_key, answer, execute, completed_with, failed_with,
}
use distributed_ledger_and_t.Idempotency.Stored.{IsStored}
use distributed_ledger_and_t.Idempotency.Replay.{find-append_none, execute_replays}
use distributed_ledger_and_t.Idempotency.Claiming.{
  claimed_record, claimed, settled, has_key-claimed, IsNew, execute-completed_with,
  execute-failed_with, execute_lost,
}

module _ {Request : Type 0} (hash : Request → String) (env : Env) (endpoint key : String)
    (payload : Request) where
  -- An answer, with the reply that its record holds.
  abbrev Leaves :
      Result Body
      → IdempotencyStatus
      → ℕ
      → Body
      → Option Uuid
      → World
      → Db
      → Result Body × World
      → Type 0
  Leaves answer status code body id w db (given, u) =
      (given ≡ answer) × IsStored endpoint key (hash payload) status code body id w db u

  settled-Leaves_completed :
      (result : Outcome) (w v : World)
      → Leaves
          (ok result.body)
          IdempotencyStatus.completed
          result.status_code
          result.body
          result.transaction_id
          w
          v.db
          (ok result.body, settled hash env endpoint key payload (completed_with result) w v)
  settled-Leaves_completed result w v = (
    refl,
    record {
      row = record (completed_with result (claimed_record hash env endpoint key payload w)) {
        updated_at = env.db_now v.step;
      };
      added = refl;
      holds = record {
        for_endpoint = refl;
        for_key = refl;
        for_payload = refl;
        has_status = refl;
        has_code = refl;
        has_body = refl;
        has_transaction = refl;
      };
      others = refl;
    },
  )

  settled-Leaves_failed :
      (e : Exception) (w v : World)
      → Leaves
          (err e)
          IdempotencyStatus.failed
          (status_code e)
          (error_body e)
          none
          w
          v.db
          (err e, settled hash env endpoint key payload (failed_with e) w v)
  settled-Leaves_failed e w v = (
    refl,
    record {
      row = record (failed_with e (claimed_record hash env endpoint key payload w)) {
        updated_at = env.db_now v.step;
      };
      added = refl;
      holds = record {
        for_endpoint = refl;
        for_key = refl;
        for_payload = refl;
        has_status = refl;
        has_code = refl;
        has_body = refl;
        has_transaction = refl;
      };
      others = refl;
    },
  )

  -- For a new key whose claim goes through, if the operation returns and leaves the table of records
  -- alone, and its reply can be stored, the request is answered by the operation's body, and one record
  -- is added: for this endpoint, key and hash, completed, with the status code, body and transaction of
  -- the operation. The other tables are as the operation left them.
  pub execute_completes :
      (operation : Action Outcome) (result : Outcome) (w v : World)
      → IsNew hash env endpoint key payload w
      → operation (claimed hash env endpoint key payload w) ≡ (ok result, v)
      → v.idempotency_records ≡ (claimed hash env endpoint key payload w).idempotency_records
      → env.fault v.step ≡ false
      → let (answer, u) = execute hash env endpoint (some key) payload operation w in
        (answer ≡ ok result.body)
        × IsStored endpoint key
            (hash payload)
            IdempotencyStatus.completed
            result.status_code
            result.body
            result.transaction_id
            w
            v.db
            u
  execute_completes operation result w v n returned kept quiet =
      subst
        (Leaves (ok result.body) IdempotencyStatus.completed result.status_code result.body
          result.transaction_id w v.db)
        (sym (
          execute-completed_with hash env endpoint key payload operation result w v n returned kept
            quiet))
        (settled-Leaves_completed result w v)

  -- For a new key whose claim goes through, if the operation throws and leaves the table of records
  -- alone, and the failure can be stored, the request gets that exception, and one record is added: for
  -- this endpoint, key and hash, failed, with the status and the response of the exception. The other
  -- tables are as the operation left them.
  pub execute_fails :
      (operation : Action Outcome) (e : Exception) (w v : World)
      → IsNew hash env endpoint key payload w
      → operation (claimed hash env endpoint key payload w) ≡ (err e, v)
      → v.idempotency_records ≡ (claimed hash env endpoint key payload w).idempotency_records
      → env.fault v.step ≡ false
      → let (answer, u) = execute hash env endpoint (some key) payload operation w in
        (answer ≡ err e)
        × IsStored endpoint key
            (hash payload)
            IdempotencyStatus.failed
            (status_code e)
            (error_body e)
            none
            w
            v.db
            u
  execute_fails operation e w v n thrown kept quiet =
      subst (Leaves (err e) IdempotencyStatus.failed (status_code e) (error_body e) none w v.db)
        (sym
          (execute-failed_with hash env endpoint key payload operation e w v n thrown kept quiet))
        (settled-Leaves_failed e w v)

  -- For a new key whose claim goes through, if the operation returns and leaves the table of records
  -- alone, but storing its reply fails and storing the failure does not, the request fails, one record is
  -- added, failed with the status 500 and no transaction, and the other tables are as the operation left
  -- them.
  pub execute_loses_reply :
      (operation : Action Outcome) (result : Outcome) (w v : World)
      → IsNew hash env endpoint key payload w
      → operation (claimed hash env endpoint key payload w) ≡ (ok result, v)
      → v.idempotency_records ≡ (claimed hash env endpoint key payload w).idempotency_records
      → env.fault v.step ≡ true
      → env.fault (suc v.step) ≡ false
      → let (answer, u) = execute hash env endpoint (some key) payload operation w in
        (answer ≡ err query_failed)
        × IsStored endpoint key
            (hash payload)
            IdempotencyStatus.failed
            500
            (error_body query_failed)
            none
            w
            v.db
            u
  execute_loses_reply operation result w v n returned kept failing quiet =
      subst
        (Leaves (err query_failed) IdempotencyStatus.failed 500 (error_body query_failed) none w
          v.db)
        (sym (
          execute_lost hash env endpoint key payload operation result w v n returned kept failing
            quiet))
        (settled-Leaves_failed query_failed w (next v))

  -- For a new key whose claim goes through, if the operation returns and leaves the table of records
  -- alone, and no later statement fails, the request is answered by the operation's body, and the same
  -- request again, whatever its operation, is answered by that body and changes no table.
  pub execute_retries :
      (operation : Action Outcome) (result : Outcome) (w v : World)
      → IsNew hash env endpoint key payload w
      → operation (claimed hash env endpoint key payload w) ≡ (ok result, v)
      → v.idempotency_records ≡ (claimed hash env endpoint key payload w).idempotency_records
      → env.fault v.step ≡ false
      → env.fault (suc v.step) ≡ false
      → let (reply, u) = execute hash env endpoint (some key) payload operation w in
        (reply ≡ ok result.body)
        × ((other : Action Outcome)
            → execute hash env endpoint (some key) payload other u ≡ (ok result.body, next u))
  execute_retries operation result w v n returned kept quiet later =
      let u = settled hash env endpoint key payload (completed_with result) w v in
      let r = record (completed_with result (claimed_record hash env endpoint key payload w)) {
        updated_at = env.db_now v.step;
      } in
      subst
        (λ (o : Result Body × World).
          (o.0 ≡ ok result.body)
          × ((other : Action Outcome)
              → execute hash env endpoint (some key) payload other o.1
                ≡ (ok result.body, next o.1)))
        (sym (
          execute-completed_with hash env endpoint key payload operation result w v n returned kept
            quiet))
        (
          refl,
          λ other.
              execute_replays hash env endpoint key payload n.present other u r result.body later
                (find-append_none (has_key endpoint key) w.idempotency_records r n.absent
                  (has_key-claimed hash env endpoint key payload w))
                refl refl refl,
        )
