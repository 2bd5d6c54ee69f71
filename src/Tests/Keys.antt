-- ===== src/Tests/Keys.antt =====
-- Requests with an idempotency key, on a state that has two of them stored.
use distributed_ledger_and_t.Prelude.{
  pos, String, Option, none, some, [], ◌∷◌, ◌≡◌, refl, eqb, eq_iff, arith, true, false,
}
use distributed_ledger_and_t.Common.Exceptions.{
  ok, err, query_failed, account_not_found, idempotency_payload_mismatch,
}
use distributed_ledger_and_t.Entities.{
  AccountStatus, Body, account_body, error_body, IdempotencyRecord, IdempotencyStatus,
}
use distributed_ledger_and_t.Database.{World, Env, Action, next}
use distributed_ledger_and_t.Idempotency.{Outcome, execute}
use distributed_ledger_and_t.Idempotency.Stored.{IsStored, other_tables}
use distributed_ledger_and_t.Idempotency.Claiming.{IsNew, claimed}
use distributed_ledger_and_t.Idempotency.Fresh.{
  execute_completes, execute_fails, execute_loses_reply, execute_retries,
}
use distributed_ledger_and_t.Idempotency.Again.{
  reclaimed, execute_refuses_reuse, execute_runs_again,
}
use distributed_ledger_and_t.Tests.Books.{calm, books, idle}

abbrev stored : String → IdempotencyStatus → Option Body → IdempotencyRecord
stored key status body = record {
  id = 7;
  endpoint = "accounts";
  idempotency_key = key;
  request_hash = "USD";
  status = status;
  transaction_id = none;
  response_code = none;
  response_body = body;
  created_at = 0;
  updated_at = 0;
}

abbrev opened_account : Body
opened_account = account_body (record {
  id = 1;
  currency = "USD";
  balance = pos 0;
  status = AccountStatus.active;
  created_at = 0;
})

abbrev done : IdempotencyRecord
done = stored "done" IdempotencyStatus.completed (some opened_account)

abbrev running : IdempotencyRecord
running = stored "running" IdempotencyStatus.processing none

abbrev pub keys : World
keys = idle (record books { idempotency_records = done ∷ running ∷ [] })

abbrev reply : Outcome
reply = record { status_code = 201; body = opened_account; transaction_id = none }

abbrev pub returning : Action Outcome
returning w = (ok reply, next w)

abbrev throwing : Action Outcome
throwing w = (err (account_not_found 9), next w)

-- The fifth statement of a request fails.
abbrev lossy : Env
lossy = record calm { fault = λ n. eqb n 4 }

key-IsNew : IsNew (λ s. s) calm "accounts" "new" "USD" keys
key-IsNew = record {
  present = refl;
  absent = refl;
  fresh = refl;
  found = refl;
  inserted = refl;
  found_again = refl;
}

lossy_key-IsNew : IsNew (λ s. s) lossy "accounts" "new" "USD" keys
lossy_key-IsNew = record {
  present = refl;
  absent = refl;
  fresh = refl;
  found = refl;
  inserted = refl;
  found_again = refl;
}

abbrev at_work : Env → World
at_work env = next (claimed (λ s. s) env "accounts" "new" "USD" keys)

execute_completes_example :
    let (answer, u) = execute (λ s. s) calm "accounts" (some "new") "USD" returning keys in
    (answer ≡ ok opened_account)
    × IsStored "accounts" "new" "USD" IdempotencyStatus.completed 201 opened_account none keys
        (at_work calm).db
        u
execute_completes_example =
    execute_completes (λ s. s) calm "accounts" "new" "USD" returning reply keys (at_work calm)
      key-IsNew refl refl refl

execute_fails_example :
    let (answer, u) = execute (λ s. s) calm "accounts" (some "new") "USD" throwing keys in
    (answer ≡ err (account_not_found 9))
    × IsStored "accounts" "new" "USD" IdempotencyStatus.failed 404
        (error_body (account_not_found 9))
        none
        keys
        (at_work calm).db
        u
execute_fails_example =
    execute_fails (λ s. s) calm "accounts" "new" "USD" throwing (account_not_found 9) keys
      (at_work calm) key-IsNew refl refl refl

execute_loses_reply_example :
    let (answer, u) = execute (λ s. s) lossy "accounts" (some "new") "USD" returning keys in
    (answer ≡ err query_failed)
    × IsStored "accounts" "new" "USD" IdempotencyStatus.failed 500
        (error_body query_failed)
        none
        keys
        (at_work lossy).db
        u
execute_loses_reply_example =
    execute_loses_reply (λ s. s) lossy "accounts" "new" "USD" returning reply keys (at_work lossy)
      lossy_key-IsNew refl refl refl refl

execute_refuses_reuse_example :
    let u = (execute (λ s. s) calm "accounts" (some "new") "USD" returning keys).1 in
    execute (λ s. s) calm "accounts" (some "new") "EUR" throwing u
    ≡ (err idempotency_payload_mismatch, next u)
execute_refuses_reuse_example =
    execute_refuses_reuse (λ s. s) calm "accounts" "new" "USD" returning (ok reply) keys
      (at_work calm) key-IsNew refl refl refl refl "EUR"
      (λ e. let same : false ≡ true = (eq_iff "USD" "EUR").1 e in ground arith) throwing

abbrev at_work_again : World
at_work_again =
    next (reclaimed (λ s. s) lossy "accounts" "new" "USD" query_failed keys (next (at_work lossy)))

execute_runs_again_example :
    let u = (execute (λ s. s) lossy "accounts" (some "new") "USD" returning keys).1 in
    ((execute (λ s. s) lossy "accounts" (some "new") "USD" returning u).0 ≡ ok opened_account)
    × (other_tables
          (reclaimed
            (λ s. s)
            lossy
            "accounts"
            "new"
            "USD"
            query_failed
            keys
            (next (at_work lossy))).db
        ≡ other_tables (at_work lossy).db)
execute_runs_again_example =
    execute_runs_again (λ s. s) lossy "accounts" "new" "USD" returning returning reply reply keys
      (at_work lossy) at_work_again lossy_key-IsNew refl refl refl (λ m late. ground arith) refl
      refl

execute_retries_example :
    let (first, u) = execute (λ s. s) calm "accounts" (some "new") "USD" returning keys in
    (first ≡ ok opened_account)
    × ((other : Action Outcome)
        → execute (λ s. s) calm "accounts" (some "new") "USD" other u ≡ (ok opened_account, next u))
execute_retries_example =
    execute_retries (λ s. s) calm "accounts" "new" "USD" returning reply keys (at_work calm)
      key-IsNew refl refl refl refl
