-- ===== src/Idempotency/Effects.antt =====
-- What `execute` of modules/idempotency/idempotency.service.ts does to the other tables.
use distributed_ledger_and_t.Prelude.{String, Option, none, some, List}
use distributed_ledger_and_t.Common.Exceptions.{
  Exception, Result, ok, err, idempotency_key_required, query_failed, entity_not_found,
}
use distributed_ledger_and_t.Entities.{Uuid, Body, IdempotencyRecord}
use distributed_ledger_and_t.Database.{World, Db, Env, Action, handled, continue, try_catch, ◌>>=◌}
use distributed_ledger_and_t.Database.Keeps.{
  Keeps, statement-Keeps, bind-Keeps, try_catch-Keeps, or_throw-Keeps, throw_if-Keeps,
}
use distributed_ledger_and_t.Idempotency.{
  Outcome, is_missing, find_record, insert_record, update_record, assert_request_hash,
  completed_body, restart_record, claim_existing, or_rethrow, reply_of_duplicate, on_insert_error,
  claim_new, claim_found, claim, complete, fail, run_operation, answer, execute_with_key, execute,
}

-- `P` says nothing of the table of records.
abbrev pub Ignores : (Db → Type 0) → Type 0
Ignores P =
    (db : Db) (records : List IdempotencyRecord)
    → P db
    → P (record db { idempotency_records = records })

-- From `Q` before the action to `P` after it, whether it returns or throws.
abbrev pub Leads {ℓ} : {A : Type ℓ} → (Db → Type 0) → (Db → Type 0) → Action A → Type 0
Leads Q P m = (w : World) → Q w.db → P (m w).1.db

module _ {ℓ κ} {A : Type ℓ} {B : Type κ} (Q P : Db → Type 0) where
  continue-before :
      (f : A → Action B) (o : Result A × World)
      → ((db : Db) → Q db → P db)
      → ((a : A) → Leads Q P (f a))
      → Q o.1.db
      → P (continue o.0 f o.1).1.db
  continue-before f (ok a, w) weaken k q = k a w q
  continue-before f (err e, w) weaken k q = weaken w.db q

  bind-before :
      (m : Action A) (f : A → Action B)
      → ((db : Db) → Q db → P db)
      → Keeps Q m
      → ((a : A) → Leads Q P (f a))
      → Leads Q P (m >>= f)
  unfolding ◌>>=◌
  bind-before m f weaken k h w q = continue-before f (m w) weaken h (k w q)

  continue-after :
      (f : A → Action B) (o : Result A × World)
      → ((a : A) → Keeps P (f a))
      → P o.1.db
      → P (continue o.0 f o.1).1.db
  continue-after f (ok a, w) k p = k a w p
  continue-after f (err e, w) k p = p

  pub bind-after :
      (m : Action A) (f : A → Action B)
      → Leads Q P m
      → ((a : A) → Keeps P (f a))
      → Leads Q P (m >>= f)
  unfolding ◌>>=◌
  bind-after m f k h w q = continue-after f (m w) h (k w q)

-- The steps of `execute` but for the operation.
module _ (P : Db → Type 0) (ignores : Ignores P) (env : Env) where
  find_record-Keeps : (endpoint key : String) → Keeps P (find_record env endpoint key)
  unfolding find_record
  find_record-Keeps endpoint key w p = statement-Keeps P env _ _ _ w p p

  insert_record-Keeps : (endpoint key hash : String) → Keeps P (insert_record env endpoint key hash)
  unfolding insert_record
  insert_record-Keeps endpoint key hash w p = statement-Keeps P env _ _ _ w p (ignores w.db _ p)

  update_record-Keeps :
      (id : Uuid) (change : IdempotencyRecord → IdempotencyRecord)
      → Keeps P (update_record env id change)
  unfolding update_record
  update_record-Keeps id change w p = statement-Keeps P env _ _ _ w p (ignores w.db _ p)

  restart_record-Keeps :
      (r : IdempotencyRecord) (body : Option Body) → Keeps P (restart_record env r body)
  unfolding restart_record
  restart_record-Keeps r (some body) = λ w p. p
  restart_record-Keeps r none =
      bind-Keeps P _ _ (throw_if-Keeps P _ _)
        (λ _. bind-Keeps P _ _ (update_record-Keeps r.id _) (λ _ w p. p))

  claim_existing-Keeps :
      (hash : String) (r : IdempotencyRecord) → Keeps P (claim_existing env hash r)
  unfolding claim_existing assert_request_hash
  claim_existing-Keeps hash r =
      bind-Keeps P _ _ (throw_if-Keeps P _ _)
        (λ _. restart_record-Keeps r (completed_body r.status r.response_body))

  or_rethrow-Keeps : (e : Exception) (body : Option Body) → Keeps P (or_rethrow e body)
  or_rethrow-Keeps e none = λ w p. p
  or_rethrow-Keeps e (some body) = λ w p. p

  reply_of_duplicate-Keeps :
      (hash : String) (e : Exception) (r : Option IdempotencyRecord)
      → Keeps P (reply_of_duplicate hash e r)
  unfolding reply_of_duplicate assert_request_hash
  reply_of_duplicate-Keeps hash e none = λ w p. p
  reply_of_duplicate-Keeps hash e (some r) =
      bind-Keeps P _ _ (throw_if-Keeps P _ _)
        (λ _. or_rethrow-Keeps e (completed_body r.status r.response_body))

  on_insert_error-Keeps :
      (endpoint key hash : String) (e : Exception)
      → Keeps P (on_insert_error env endpoint key hash e)
  unfolding on_insert_error
  on_insert_error-Keeps endpoint key hash query_failed =
      bind-Keeps P _ _ (find_record-Keeps endpoint key)
        (λ r. reply_of_duplicate-Keeps hash query_failed r)
  on_insert_error-Keeps endpoint key hash _ = λ w p. p

  claim_found-Keeps :
      (endpoint key hash : String) (found : Option IdempotencyRecord)
      → Keeps P (claim_found env endpoint key hash found)
  unfolding claim_found claim_new
  claim_found-Keeps endpoint key hash none =
      try_catch-Keeps P _ _ (bind-Keeps P _ _ (insert_record-Keeps endpoint key hash) (λ _ w p. p))
        (on_insert_error-Keeps endpoint key hash)
  claim_found-Keeps endpoint key hash (some r) = claim_existing-Keeps hash r

  claim-Keeps : (endpoint key hash : String) → Keeps P (claim env endpoint key hash)
  unfolding claim
  claim-Keeps endpoint key hash =
      bind-Keeps P _ _ (find_record-Keeps endpoint key) (claim_found-Keeps endpoint key hash)

-- The operation leads from `Q` to `P`, and it is run at most once.
module _ (Q P : Db → Type 0) (ignores_before : Ignores Q) (ignores_after : Ignores P)
    (weaken : (db : Db) → Q db → P db) (env : Env) (operation : Action Outcome)
    (leads : Leads Q P operation) where
  handled-after :
      (handler : Exception → Action Body) (o : Result Body × World)
      → ((e : Exception) → Keeps P (handler e))
      → P o.1.db
      → P (handled o.0 handler o.1).1.db
  handled-after handler (ok a, w) k p = p
  handled-after handler (err e, w) k p = k e w p

  run_operation-Leads :
      (endpoint key : String) → Leads Q P (run_operation env endpoint key operation)
  unfolding run_operation complete fail try_catch
  run_operation-Leads endpoint key =
      bind-before Q P _ _ weaken (find_record-Keeps Q ignores_before env endpoint key) (λ found.
        bind-before Q P _ _ weaken (or_throw-Keeps Q found entity_not_found) (λ r w q.
          handled-after (fail env r) (complete env r operation w)
            (λ e. bind-Keeps P _ _ (update_record-Keeps P ignores_after env r.id _) (λ _ v p. p))
            (bind-after Q P _ _ leads
              (λ result.
                bind-Keeps P _ _ (update_record-Keeps P ignores_after env r.id _) (λ _ v p. p))
              w q)))

  answer-Leads :
      (endpoint key : String) (reply : Option Body)
      → Leads Q P (answer env endpoint key operation reply)
  unfolding answer
  answer-Leads endpoint key none = run_operation-Leads endpoint key
  answer-Leads endpoint key (some body) = λ w q. weaken w.db q

  pub execute-Leads :
      {Request : Type 0} (create_payload_hash : Request → String) (endpoint : String)
      (key : Option String) (payload : Request)
      → Leads Q P (execute create_payload_hash env endpoint key payload operation)
  unfolding execute execute_with_key
  execute-Leads create_payload_hash endpoint none payload = λ w q. weaken w.db q
  execute-Leads create_payload_hash endpoint (some key) payload =
      bind-before Q P _ _ weaken (throw_if-Keeps Q (is_missing (some key)) idempotency_key_required)
        (λ _.
          bind-before Q P _ _ weaken
            (claim-Keeps Q ignores_before env endpoint key (create_payload_hash payload))
            (λ reply. answer-Leads endpoint key reply))
