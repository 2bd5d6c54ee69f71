-- ===== src/Idempotency/Stored.antt =====
-- The record that `execute` of modules/idempotency/idempotency.service.ts leaves for a key.
use distributed_ledger_and_t.Prelude.{ℕ, String, Option, some, [], ◌∷◌, ◌++◌, ◌≡◌}
use distributed_ledger_and_t.Entities.{Uuid, Body, IdempotencyRecord, IdempotencyStatus}
use distributed_ledger_and_t.Database.{Db, World}

-- A record for this endpoint, key and hash of the payload, with this status and reply.
pub record HoldsReply (endpoint key request_hash : String) (status : IdempotencyStatus) (code : ℕ)
    (body : Body) (transaction_id : Option Uuid) (r : IdempotencyRecord) : Type 0 where
  pub for_endpoint : r.endpoint ≡ endpoint
  pub for_key : r.idempotency_key ≡ key
  pub for_payload : r.request_hash ≡ request_hash
  pub has_status : r.status ≡ status
  pub has_code : r.response_code ≡ some code
  pub has_body : r.response_body ≡ some body
  pub has_transaction : r.transaction_id ≡ transaction_id

-- The tables but that of the records.
abbrev pub other_tables : Db → Db
other_tables db = record db { idempotency_records = [] }

-- In `u` the records are those of `w` and one more, which holds the reply; the other tables are
-- those of `db`.
pub record IsStored (endpoint key request_hash : String) (status : IdempotencyStatus) (code : ℕ)
    (body : Body) (transaction_id : Option Uuid) (w : World) (db : Db) (u : World) : Type 0 where
  pub row : IdempotencyRecord
  pub added : u.idempotency_records ≡ w.idempotency_records ++ row ∷ []
  pub holds : HoldsReply endpoint key request_hash status code body transaction_id row
  pub others : other_tables u.db ≡ other_tables db
