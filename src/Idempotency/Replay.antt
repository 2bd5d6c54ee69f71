-- ===== src/Idempotency/Replay.antt =====
-- `execute` of modules/idempotency/idempotency.service.ts for a key with a record.
use distributed_ledger_and_t.Prelude.{
  String, Bool, true, false, none, some, List, [], ◌∷◌, ◌++◌, ◌≡◌, ◌≢◌, arith, find_row, update_row,
  find, str_eq, eqb_self, not_eq, same_text,
}
use distributed_ledger_and_t.Common.Exceptions.{
  ok, err, idempotency_key_processing, idempotency_payload_mismatch,
}
use distributed_ledger_and_t.Entities.{
  Body, IdempotencyRecord, IdempotencyStatus, idempotency_record_row,
}
use distributed_ledger_and_t.Database.{World, Env, Action, next, throw_if, ◌>>=◌}
use distributed_ledger_and_t.Idempotency.{
  Outcome, find_key, find_record, assert_request_hash, restart_record, claim_existing, claim_found,
  claim, answer, execute_with_key, execute,
}

module _ {Request : Type 0} (hash : Request → String) (env : Env) (endpoint key : String)
    (payload : Request) (present : str_eq key "" ≡ false) where
  -- A key whose record is completed, for the same payload and with a stored body, is answered by that
  -- body: the operation is not run and no table changes, if the lookup does not fail.
  pub execute_replays :
      (operation : Action Outcome) (w : World) (r : IdempotencyRecord) (body : Body)
      → env.fault w.step ≡ false
      → find_key endpoint key w.idempotency_records ≡ some r
      → r.request_hash ≡ hash payload
      → r.status ≡ IdempotencyStatus.completed
      → r.response_body ≡ some body
      → execute hash env endpoint (some key) payload operation w ≡ (ok body, next w)
  unfolding execute execute_with_key claim claim_found claim_existing restart_record find_record
      assert_request_hash throw_if answer ◌>>=◌
  execute_replays operation w r body quiet found same completed stored =
      simp (present, quiet, found, same_text r.request_hash (hash payload) same, completed, stored)

  -- A key whose record has another hash of the payload is refused as a mismatch: the operation is not
  -- run and no table changes, if the lookup does not fail.
  pub execute_refuses_mismatch :
      (operation : Action Outcome) (w : World) (r : IdempotencyRecord)
      → env.fault w.step ≡ false
      → find_key endpoint key w.idempotency_records ≡ some r
      → r.request_hash ≢ hash payload
      → execute hash env endpoint (some key) payload operation w
        ≡ (err idempotency_payload_mismatch, next w)
  unfolding execute execute_with_key claim claim_found claim_existing find_record
      assert_request_hash throw_if ◌>>=◌
  execute_refuses_mismatch operation w r quiet found other =
      simp (present, quiet, found, not_eq r.request_hash (hash payload) other)

  -- A key whose record is processing, for the same payload, is refused: the operation is not run and
  -- no table changes, if the lookup does not fail.
  pub execute_refuses_processing :
      (operation : Action Outcome) (w : World) (r : IdempotencyRecord)
      → env.fault w.step ≡ false
      → find_key endpoint key w.idempotency_records ≡ some r
      → r.request_hash ≡ hash payload
      → r.status ≡ IdempotencyStatus.processing
      → execute hash env endpoint (some key) payload operation w
        ≡ (err idempotency_key_processing, next w)
  unfolding execute execute_with_key claim claim_found claim_existing restart_record find_record
      assert_request_hash throw_if ◌>>=◌
  execute_refuses_processing operation w r quiet found same processing =
      simp (present, quiet, found, same_text r.request_hash (hash payload) same, processing)

pub find-append_none :
    (p : IdempotencyRecord → Bool) (xs : List IdempotencyRecord) (a : IdempotencyRecord)
    → find p xs ≡ none
    → p a ≡ true
    → find p (xs ++ a ∷ []) ≡ some a
find-append_none p [] a h e = rw e
find-append_none p (x ∷ xs) a h e = ground (arith, find-append_none p xs a)

pub update_row-append :
    (f : IdempotencyRecord → IdempotencyRecord) (xs : List IdempotencyRecord)
    (a : IdempotencyRecord)
    → find_row a.id xs ≡ none
    → update_row a.id f (xs ++ a ∷ []) ≡ xs ++ f a ∷ []
update_row-append f [] a h = rw (eqb_self a.id)
update_row-append f (x ∷ xs) a h = ground (arith, update_row-append f xs a)
