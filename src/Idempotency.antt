-- ===== src/Idempotency.antt =====
-- modules/idempotency/idempotency.service.ts.
pub mod Replay
pub mod Stored
pub mod Claiming
pub mod Fresh
pub mod Again
pub mod Effects
pub mod Once
use distributed_ledger_and_t.Prelude.{
  ℕ, String, Bool, true, false, Option, none, some, List, [], ◌∷◌, ◌++◌, not, ◌||◌, ◌&&◌, has_row,
  update_row, find, str_eq, ⊤,
}
use distributed_ledger_and_t.Common.Exceptions.{
  Exception, idempotency_key_required, idempotency_key_processing, idempotency_payload_mismatch,
  query_failed, entity_not_found, status_code,
}
use distributed_ledger_and_t.Entities.{
  Uuid, Body, error_body, IdempotencyRecord, IdempotencyStatus, idempotency_record_row,
}
use distributed_ledger_and_t.Database.{
  World, Env, Action, pure, throw, statement, or_throw, throw_if, try_catch, ◌>>=◌, ◌>>◌,
}

-- What a guarded operation returns; a missing `transactionId` is stored as null.
pub record Outcome : Type 0 where
  pub status_code : ℕ
  pub body : Body
  pub transaction_id : Option Uuid

abbrev pub is_missing : Option String → Bool
is_missing none = true
is_missing (some key) = str_eq key ""

abbrev pub has_key : String → String → IdempotencyRecord → Bool
has_key endpoint key r = str_eq r.endpoint endpoint && str_eq r.idempotency_key key

abbrev pub find_key : String → String → List IdempotencyRecord → Option IdempotencyRecord
find_key endpoint key records = find (has_key endpoint key) records

abbrev is_some : Option IdempotencyRecord → Bool
is_some none = false
is_some (some _) = true

-- `findOne({ where: { endpoint, idempotencyKey } })`
unfoldable pub find_record : Env → String → String → Action (Option IdempotencyRecord)
find_record env endpoint key w =
    statement env false (find_key endpoint key w.idempotency_records) w.db w

abbrev pub processing_record : Env → String → String → String → World → IdempotencyRecord
processing_record env endpoint key hash w = record {
  id = env.gen_random_uuid w.step;
  endpoint = endpoint;
  idempotency_key = key;
  request_hash = hash;
  status = IdempotencyStatus.processing;
  transaction_id = none;
  response_code = none;
  response_body = none;
  created_at = env.db_now w.step;
  updated_at = env.db_now w.step;
}

-- The insertion breaks the unique index on the endpoint and the key when they are taken.
unfoldable pub insert_record : Env → String → String → String → Action ⊤
insert_record env endpoint key hash w =
    let row = processing_record env endpoint key hash w in
    statement env
      (has_row row.id w.idempotency_records
        || is_some (find_key endpoint key w.idempotency_records))
      tt (record w.db { idempotency_records = w.idempotency_records ++ row ∷ [] }) w

unfoldable pub update_record : Env → Uuid → (IdempotencyRecord → IdempotencyRecord) → Action ⊤
update_record env id change w =
    let stamped = λ (r : IdempotencyRecord). record (change r) { updated_at = env.db_now w.step } in
    statement env false tt
      (record w.db { idempotency_records = update_row id stamped w.idempotency_records }) w

unfoldable pub assert_request_hash : String → String → Action ⊤
assert_request_hash existing_hash request_hash =
    throw_if (not (str_eq existing_hash request_hash)) idempotency_payload_mismatch

-- `status === COMPLETED && responseBody`
abbrev pub completed_body : IdempotencyStatus → Option Body → Option Body
completed_body IdempotencyStatus.completed body = body
completed_body IdempotencyStatus.processing body = none
completed_body IdempotencyStatus.failed body = none

abbrev pub is_processing : IdempotencyStatus → Bool
is_processing IdempotencyStatus.processing = true
is_processing IdempotencyStatus.completed = false
is_processing IdempotencyStatus.failed = false

abbrev pub restarted : IdempotencyRecord → IdempotencyRecord
restarted r = record r {
  status = IdempotencyStatus.processing;
  response_body = none;
  response_code = none;
  transaction_id = none;
}

-- No stored reply: the key is refused while it is processing, and otherwise taken up again.
unfoldable pub restart_record : Env → IdempotencyRecord → Option Body → Action (Option Body)
restart_record env r (some body) = pure (some body)
restart_record env r none = do
  throw_if (is_processing r.status) idempotency_key_processing
  update_record env r.id restarted
  pure none

-- The branch of an existing record: a reply, or none when the operation is to be run.
unfoldable pub claim_existing : Env → String → IdempotencyRecord → Action (Option Body)
claim_existing env hash r = do
  assert_request_hash r.request_hash hash
  restart_record env r (completed_body r.status r.response_body)

abbrev pub or_rethrow : Exception → Option Body → Action (Option Body)
or_rethrow e none = throw e
or_rethrow e (some body) = pure (some body)

unfoldable pub reply_of_duplicate :
    String → Exception → Option IdempotencyRecord → Action (Option Body)
reply_of_duplicate hash e none = throw e
reply_of_duplicate hash e (some r) = do
  assert_request_hash r.request_hash hash
  or_rethrow e (completed_body r.status r.response_body)

-- The `catch` around the insertion.
unfoldable pub on_insert_error : Env → String → String → String → Exception → Action (Option Body)
on_insert_error env endpoint key hash query_failed = do
  duplicate ← find_record env endpoint key
  reply_of_duplicate hash query_failed duplicate
on_insert_error env endpoint key hash e = throw e

unfoldable pub claim_new : Env → String → String → String → Action (Option Body)
claim_new env endpoint key hash =
    try_catch (do insert_record env endpoint key hash; pure none)
      (on_insert_error env endpoint key hash)

unfoldable pub claim_found :
    Env → String → String → String → Option IdempotencyRecord → Action (Option Body)
claim_found env endpoint key hash none = claim_new env endpoint key hash
claim_found env endpoint key hash (some r) = claim_existing env hash r

unfoldable pub claim : Env → String → String → String → Action (Option Body)
claim env endpoint key hash = do
  existing_record ← find_record env endpoint key
  claim_found env endpoint key hash existing_record

abbrev pub completed_with : Outcome → IdempotencyRecord → IdempotencyRecord
completed_with result r = record r {
  status = IdempotencyStatus.completed;
  response_code = some result.status_code;
  response_body = some result.body;
  transaction_id = result.transaction_id;
}

-- `normalizeError`: the status of the exception, and the response made of it.
abbrev pub failed_with : Exception → IdempotencyRecord → IdempotencyRecord
failed_with e r = record r {
  status = IdempotencyStatus.failed;
  response_code = some (status_code e);
  response_body = some (error_body e);
}

unfoldable pub complete : Env → IdempotencyRecord → Action Outcome → Action Body
complete env r operation = do
  result ← operation
  update_record env r.id (completed_with result)
  pure result.body

unfoldable pub fail : Env → IdempotencyRecord → Exception → Action Body
fail env r e = do update_record env r.id (failed_with e); throw e

-- From `findOneOrFail` on.
unfoldable pub run_operation : Env → String → String → Action Outcome → Action Body
run_operation env endpoint key operation = do
  found ← find_record env endpoint key
  r ← or_throw found entity_not_found
  try_catch (complete env r operation) (fail env r)

unfoldable pub answer : Env → String → String → Action Outcome → Option Body → Action Body
answer env endpoint key operation none = run_operation env endpoint key operation
answer env endpoint key operation (some body) = pure body

unfoldable pub execute_with_key : Env → String → String → String → Action Outcome → Action Body
execute_with_key env endpoint key hash operation = do
  reply ← claim env endpoint key hash
  answer env endpoint key operation reply

-- The hash of a payload is that of the library `crypto` over its JSON text: a parameter.
module _ {Request : Type 0} (create_payload_hash : Request → String) where
  unfoldable pub execute : Env → String → Option String → Request → Action Outcome → Action Body
  execute env endpoint none payload operation = throw idempotency_key_required
  execute env endpoint (some key) payload operation = do
    throw_if (is_missing (some key)) idempotency_key_required
    execute_with_key env endpoint key (create_payload_hash payload) operation
