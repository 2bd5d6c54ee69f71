-- ===== src/Database/Unused.antt =====
-- The uuids that are still to be drawn are in no table.
use distributed_ledger_and_t.Prelude.{
  ℕ, true, false, List, ◌≡◌, ◌≤◌, ◌<◌, refl, sym, subst, ◌∙◌, arith, has_row, eqb, eqb-eq,
  Bool-cases, inl, inr, Row,
}
use distributed_ledger_and_t.Common.Exceptions.{Result, ok, err}
use distributed_ledger_and_t.Entities.{
  Account, Transaction, LedgerEntry, OutboxEvent, IdempotencyRecord, account_row, transaction_row,
  ledger_entry_row, outbox_event_row, idempotency_record_row,
}
use distributed_ledger_and_t.Database.{
  Db, World, Env, Action, rolled_back, continue, in_transaction, ◌>>=◌,
}

-- From a step on, the uuids that `gen_random_uuid` draws are new.
pub record IsUnused (env : Env) (step : ℕ) (db : Db) : Type 0 where
  pub accounts : (n : ℕ) → step ≤ n → has_row (env.gen_random_uuid n) db.accounts ≡ false
  pub transactions : (n : ℕ) → step ≤ n → has_row (env.gen_random_uuid n) db.transactions ≡ false
  pub ledger_entries :
      (n : ℕ) → step ≤ n → has_row (env.gen_random_uuid n) db.ledger_entries ≡ false
  pub outbox_events : (n : ℕ) → step ≤ n → has_row (env.gen_random_uuid n) db.outbox_events ≡ false
  pub idempotency_records :
      (n : ℕ) → step ≤ n → has_row (env.gen_random_uuid n) db.idempotency_records ≡ false

-- No uuid is drawn twice.
abbrev pub DrawsOnce : Env → Type 0
DrawsOnce env = (m n : ℕ) → env.gen_random_uuid m ≡ env.gen_random_uuid n → m ≡ n

pub IsUnused-later : (env : Env) (s t : ℕ) (db : Db) → s ≤ t → IsUnused env s db → IsUnused env t db
IsUnused-later env s t db le u = record {
  accounts = λ n h. u.accounts n (omega arith);
  transactions = λ n h. u.transactions n (omega arith);
  ledger_entries = λ n h. u.ledger_entries n (omega arith);
  outbox_events = λ n h. u.outbox_events n (omega arith);
  idempotency_records = λ n h. u.idempotency_records n (omega arith);
}

-- One table at a time.
module _ (env : Env) (step : ℕ) (db : Db) (u : IsUnused env step db) where
  pub with_accounts :
      (rows : List Account)
      → ((n : ℕ) → step ≤ n → has_row (env.gen_random_uuid n) rows ≡ false)
      → IsUnused env step (record db { accounts = rows })
  with_accounts rows h = record {
    accounts = h;
    transactions = u.transactions;
    ledger_entries = u.ledger_entries;
    outbox_events = u.outbox_events;
    idempotency_records = u.idempotency_records;
  }

  pub with_transactions :
      (rows : List Transaction)
      → ((n : ℕ) → step ≤ n → has_row (env.gen_random_uuid n) rows ≡ false)
      → IsUnused env step (record db { transactions = rows })
  with_transactions rows h = record {
    accounts = u.accounts;
    transactions = h;
    ledger_entries = u.ledger_entries;
    outbox_events = u.outbox_events;
    idempotency_records = u.idempotency_records;
  }

  pub with_ledger_entries :
      (rows : List LedgerEntry)
      → ((n : ℕ) → step ≤ n → has_row (env.gen_random_uuid n) rows ≡ false)
      → IsUnused env step (record db { ledger_entries = rows })
  with_ledger_entries rows h = record {
    accounts = u.accounts;
    transactions = u.transactions;
    ledger_entries = h;
    outbox_events = u.outbox_events;
    idempotency_records = u.idempotency_records;
  }

  pub with_outbox_events :
      (rows : List OutboxEvent)
      → ((n : ℕ) → step ≤ n → has_row (env.gen_random_uuid n) rows ≡ false)
      → IsUnused env step (record db { outbox_events = rows })
  with_outbox_events rows h = record {
    accounts = u.accounts;
    transactions = u.transactions;
    ledger_entries = u.ledger_entries;
    outbox_events = h;
    idempotency_records = u.idempotency_records;
  }

  pub with_idempotency_records :
      (rows : List IdempotencyRecord)
      → ((n : ℕ) → step ≤ n → has_row (env.gen_random_uuid n) rows ≡ false)
      → IsUnused env step (record db { idempotency_records = rows })
  with_idempotency_records rows h = record {
    accounts = u.accounts;
    transactions = u.transactions;
    ledger_entries = u.ledger_entries;
    outbox_events = u.outbox_events;
    idempotency_records = h;
  }

pub draws-differ :
    (env : Env)
    → DrawsOnce env
    → (m n : ℕ) → m < n
    → eqb (env.gen_random_uuid m) (env.gen_random_uuid n) ≡ false
draws-differ env once m n lt =
    elim (Bool-cases (eqb (env.gen_random_uuid m) (env.gen_random_uuid n))) [
      | inl same ↦ absurd (
          let e : m ≡ n = once m n (eqb-eq (env.gen_random_uuid m) (env.gen_random_uuid n) same) in
          omega arith)
      | inr other ↦ other
    ]

-- A key of a row that is there is none of the unused ones.
pub taken-differs {ℓ} :
    {A : Type ℓ} ⦃r : Row A⦄ (k j : ℕ) (xs : List A)
    → has_row k xs ≡ true
    → has_row j xs ≡ false
    → eqb k j ≡ false
taken-differs k j xs h g = elim (Bool-cases (eqb k j)) [
  | inl same ↦ absurd (
      let h' : has_row j xs ≡ true = subst (λ i. has_row i xs ≡ true) (eqb-eq k j same) h in
      let e : true ≡ false = sym h' ∙ g in ground arith)
  | inr other ↦ other
]

-- What an action does to the steps and the unused uuids, whether it returns or throws.
pub record Advances (env : Env) (w v : World) : Type 0 where
  pub later : w.step ≤ v.step
  pub unused : IsUnused env v.step v.db

module _ (env : Env) (least : ℕ) where
  abbrev pub Draws {ℓ} : {A : Type ℓ} → Action A → Type 0
  Draws m = (w : World) → least ≤ w.step → IsUnused env w.step w.db → Advances env w (m w).1

  pub Advances-trans : {u v w : World} → Advances env u v → Advances env v w → Advances env u w
  Advances-trans a b = record {
    later = let x = a.later in let y = b.later in omega arith;
    unused = b.unused;
  }

  pub same-Draws {ℓ} : {A : Type ℓ} (m : Action A) → ((w : World) → (m w).1 ≡ w) → Draws m
  same-Draws m same w le u =
      subst (Advances env w) (sym (same w)) (record { later = omega arith; unused = u })

  module _ {ℓ κ} {A : Type ℓ} {B : Type κ} where
    continue-Draws :
        (f : A → Action B) (w : World) (o : Result A × World)
        → ((a : A) → Draws (f a))
        → least ≤ w.step
        → Advances env w o.1
        → Advances env w (continue o.0 f o.1).1
    continue-Draws f w (ok a, v) k le h =
        Advances-trans h (k a v (let x = h.later in omega arith) h.unused)
    continue-Draws f w (err e, v) k le h = h

    pub bind-Draws :
        (m : Action A) (f : A → Action B) → Draws m → ((a : A) → Draws (f a)) → Draws (m >>= f)
    unfolding ◌>>=◌
    bind-Draws m f h k w le u = continue-Draws f w (m w) k le (h w le u)

  module _ {ℓ} {A : Type ℓ} where
    rolled_back-Advances :
        (w : World) (o : Result A × World)
        → IsUnused env w.step w.db
        → Advances env w o.1
        → Advances env w (rolled_back w.db o).1
    rolled_back-Advances w (ok a, v) u h = h
    rolled_back-Advances w (err e, v) u h = record {
      later = h.later;
      unused = IsUnused-later env w.step v.step w.db h.later u;
    }

    pub in_transaction-Draws :
        (body : Action A) (w : World)
        → IsUnused env w.step w.db
        → Advances env w (body w).1
        → Advances env w (in_transaction body w).1
    unfolding in_transaction
    in_transaction-Draws body w u h = rolled_back-Advances w (body w) u h

module _ {ℓ κ} {A : Type ℓ} {B : Type κ} (env : Env) where
  continue-Advances :
      (f : A → Action B) (w : World) (o : Result A × World)
      → Advances env w o.1
      → ((a : A) → o.0 ≡ ok a → Advances env o.1 (f a o.1).1)
      → Advances env w (continue o.0 f o.1).1
  continue-Advances f w (ok a, v) h k = Advances-trans env 0 h (k a refl)
  continue-Advances f w (err e, v) h k = h

  -- A first action from one state, and what follows from the state that it leaves.
  pub bind-Advances :
      (m : Action A) (f : A → Action B) (w : World)
      → Advances env w (m w).1
      → ((a : A) → (m w).0 ≡ ok a → Advances env (m w).1 (f a (m w).1).1)
      → Advances env w ((m >>= f) w).1
  unfolding ◌>>=◌
  bind-Advances m f w h k = continue-Advances f w (m w) h k
