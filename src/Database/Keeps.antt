-- ===== src/Database/Keeps.antt =====
-- Invariants of the tables that an action keeps, whether it returns or throws.
use distributed_ledger_and_t.Prelude.{Bool, Option, none, some, ◌||◌, Bool-cases, inl, inr}
use distributed_ledger_and_t.Common.Exceptions.{Exception, Result, ok, err}
use distributed_ledger_and_t.Database.{
  World, Db, Env, Action, rolled_back, continue, handled, statement, in_transaction, or_throw,
  throw_if, try_catch, ◌>>=◌,
}

module _ (P : Db → Type 0) where
  -- `P` holds of the tables after the action, when it holds before it.
  abbrev pub Keeps {ℓ} : {A : Type ℓ} → Action A → Type 0
  Keeps m = (w : World) → P w.db → P (m w).1.db

  module _ {ℓ} {A : Type ℓ} where
    pub statement-Keeps :
        (env : Env) (violated : Bool) (a : A) (after : Db) (w : World)
        → P w.db
        → P after
        → P (statement env violated a after w).1.db
    statement-Keeps env violated a after w before p =
        elim (Bool-cases (env.fault w.step || violated)) [
          | inl failed ↦ rw failed before
          | inr passed ↦ rw passed p
        ]

    rolled_back-Keeps :
        (before : Db) (o : Result A × World) → P before → P o.1.db → P (rolled_back before o).1.db
    rolled_back-Keeps before (ok a, w) p q = q
    rolled_back-Keeps before (err e, w) p q = p

    pub in_transaction-Keeps : (body : Action A) → Keeps body → Keeps (in_transaction body)
    unfolding in_transaction
    in_transaction-Keeps body k w p = rolled_back-Keeps w.db (body w) p (k w p)

    handled-Keeps :
        (handler : Exception → Action A) (o : Result A × World)
        → ((e : Exception) → Keeps (handler e))
        → P o.1.db
        → P (handled o.0 handler o.1).1.db
    handled-Keeps handler (ok a, w) k p = p
    handled-Keeps handler (err e, w) k p = k e w p

    pub try_catch-Keeps :
        (body : Action A) (handler : Exception → Action A)
        → Keeps body
        → ((e : Exception) → Keeps (handler e))
        → Keeps (try_catch body handler)
    unfolding try_catch
    try_catch-Keeps body handler k h w p = handled-Keeps handler (body w) h (k w p)

    pub or_throw-Keeps : (o : Option A) (e : Exception) → Keeps (or_throw o e)
    unfolding or_throw
    or_throw-Keeps none e w p = p
    or_throw-Keeps (some a) e w p = p

  module _ {ℓ κ} {A : Type ℓ} {B : Type κ} where
    continue-Keeps :
        (f : A → Action B) (o : Result A × World)
        → ((a : A) → Keeps (f a))
        → P o.1.db
        → P (continue o.0 f o.1).1.db
    continue-Keeps f (ok a, w) k p = k a w p
    continue-Keeps f (err e, w) k p = p

    pub bind-Keeps :
        (m : Action A) (f : A → Action B) → Keeps m → ((a : A) → Keeps (f a)) → Keeps (m >>= f)
    unfolding ◌>>=◌
    bind-Keeps m f k h w p = continue-Keeps f (m w) h (k w p)

  pub throw_if-Keeps : (c : Bool) (e : Exception) → Keeps (throw_if c e)
  unfolding throw_if
  throw_if-Keeps c e w p = p
