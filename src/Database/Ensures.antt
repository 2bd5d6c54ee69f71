-- ===== src/Database/Ensures.antt =====
-- Postconditions of actions: what holds of the result and of the state whenever an action returns.
use distributed_ledger_and_t.Prelude.{
  Bool, true, false, Option, none, some, ◌≡◌, refl, ⊤, ◌||◌, arith, Bool-cases, inl, inr, subst,
  sym,
}
use distributed_ledger_and_t.Common.Exceptions.{Exception, Result, ok, err}
use distributed_ledger_and_t.Database.{
  World, Db, rolled_back, continue, Env, Action, next, ◌>>=◌, statement, in_transaction, or_throw,
  throw_if,
}

-- `P` holds of the result and the state that the action returned, if it returned.
abbrev pub Ensures {ℓ} : {A : Type ℓ} → (A → World → Type 0) → Result A × World → Type 0
Ensures P (ok a, w) = P a w
Ensures P (err e, w) = Unit

-- The action returned, and `P` holds of the result and the state.
abbrev pub Returns {ℓ} : {A : Type ℓ} → (A → World → Type 0) → Result A × World → Type 0
Returns P (ok a, w) = P a w
Returns P (err e, w) = ⊥

or_false : (a b : Bool) → (a || b) ≡ false → b ≡ false
or_false a b h = ground arith

module _ {ℓ} {A : Type ℓ} where
  pub Ensures-weaken :
      (P Q : A → World → Type 0) (o : Result A × World)
      → ((a : A) (w : World) → P a w → Q a w)
      → Ensures P o
      → Ensures Q o
  Ensures-weaken P Q (ok a, w) f h = f a w h
  Ensures-weaken P Q (err e, w) f h = tt

  pub Returns-weaken :
      (P Q : A → World → Type 0) (o : Result A × World)
      → ((a : A) (w : World) → P a w → Q a w)
      → Returns P o
      → Returns Q o
  Returns-weaken P Q (ok a, w) f h = f a w h
  Returns-weaken P Q (err e, w) f h = h

  pub Returns-and :
      (P Q : A → World → Type 0) (o : Result A × World)
      → Returns P o
      → Ensures Q o
      → Returns (λ a w. P a w × Q a w) o
  Returns-and P Q (ok a, w) h e = (h, e)
  Returns-and P Q (err x, w) h e = h

  -- What an action ensures holds when it returns.
  pub Returns-Ensures :
      (P : A → World → Type 0) (o : Result A × World)
      → Returns (λ a w. Unit) o
      → Ensures P o
      → Returns P o
  Returns-Ensures P (ok a, w) h e = e
  Returns-Ensures P (err x, w) h e = h

  pub Returns-statement :
      (P : A → World → Type 0) (env : Env) (violated : Bool) (a : A) (after : Db) (w : World)
      → env.fault w.step ≡ false
      → violated ≡ false
      → P a (record (next w) { db = after })
      → Returns P (statement env violated a after w)
  Returns-statement P env violated a after w quiet allowed h = rw (quiet, allowed) h

  rolled_back-Returns :
      (P : A → World → Type 0) (before : Db) (o : Result A × World)
      → Returns P o
      → Returns P (rolled_back before o)
  rolled_back-Returns P before (ok a, w) h = h
  rolled_back-Returns P before (err e, w) h = h

  pub Returns-in_transaction :
      (P : A → World → Type 0) (body : Action A) (w : World)
      → Returns P (body w)
      → Returns P (in_transaction body w)
  unfolding in_transaction
  Returns-in_transaction P body w h = rolled_back-Returns P w.db (body w) h

  pub Returns-or_throw :
      (P : A → World → Type 0) (o : Option A) (a : A) (e : Exception) (w : World)
      → o ≡ some a
      → P a w
      → Returns P (or_throw o e w)
  unfolding or_throw
  Returns-or_throw P o a e w found h = rw found h

  pub Ensures-ok :
      (P : A → World → Type 0) (o : Result A × World) {a : A} → Ensures P o → o.0 ≡ ok a → P a o.1
  Ensures-ok P (ok b, w) h e = ground arith
  Ensures-ok P (err x, w) h e = cc

  pub Ensures-statement :
      (P : A → World → Type 0) (env : Env) (violated : Bool) (a : A) (after : Db) (w : World)
      → (violated ≡ false → P a (record (next w) { db = after }))
      → Ensures P (statement env violated a after w)
  Ensures-statement P env violated a after w h = elim (Bool-cases (env.fault w.step || violated)) [
    | inl failed ↦ rw failed tt
    | inr passed ↦ rw passed (h (or_false (env.fault w.step) violated passed))
  ]

  rolled_back-Ensures :
      (P : A → World → Type 0) (before : Db) (o : Result A × World)
      → Ensures P o
      → Ensures P (rolled_back before o)
  rolled_back-Ensures P before (ok a, w) h = h
  rolled_back-Ensures P before (err e, w) h = tt

  pub Ensures-in_transaction :
      (P : A → World → Type 0) (body : Action A) (w : World)
      → Ensures P (body w)
      → Ensures P (in_transaction body w)
  unfolding in_transaction
  Ensures-in_transaction P body w h = rolled_back-Ensures P w.db (body w) h

  -- A transaction that throws leaves the tables as they were.
  pub in_transaction_atomic :
      (body : Action A) (w : World) {e : Exception}
      → (in_transaction body w).0 ≡ err e
      → (in_transaction body w).1.db ≡ w.db
  unfolding in_transaction
  in_transaction_atomic body w h = atomic (body w) h
    where
      atomic :
          (o : Result A × World) {e : Exception}
          → (rolled_back w.db o).0 ≡ err e
          → (rolled_back w.db o).1.db ≡ w.db
      atomic (ok a, v) h = cc
      atomic (err e, v) h = refl

  -- What holds before and after every return of an action that is all or nothing always holds.
  pub all_or_nothing :
      (P : Db → Type 0) (w : World) (o : Result A × World)
      → ((e : Exception) → o.0 ≡ err e → o.1.db ≡ w.db)
      → P w.db
      → Ensures (λ a v. P v.db) o
      → P o.1.db
  all_or_nothing P w (ok a, v) atomic before after = after
  all_or_nothing P w (err e, v) atomic before after = subst P (sym (atomic e refl)) before

  pub Ensures-or_throw :
      (P : A → World → Type 0) (o : Option A) (e : Exception) (w : World)
      → ((a : A) → o ≡ some a → P a w)
      → Ensures P (or_throw o e w)
  unfolding or_throw
  Ensures-or_throw P none e w h = tt
  Ensures-or_throw P (some a) e w h = h a refl

module _ {ℓ κ} {A : Type ℓ} {B : Type κ} where
  continue-Ensures :
      (P : B → World → Type 0) (f : A → Action B) (o : Result A × World)
      → Ensures (λ a v. Ensures P (f a v)) o
      → Ensures P (continue o.0 f o.1)
  continue-Ensures P f (ok a, w) h = h
  continue-Ensures P f (err e, w) h = tt

  pub Ensures-bind :
      (P : B → World → Type 0) (m : Action A) (f : A → Action B) (w : World)
      → Ensures (λ a v. Ensures P (f a v)) (m w)
      → Ensures P ((m >>= f) w)
  unfolding ◌>>=◌
  Ensures-bind P m f w h = continue-Ensures P f (m w) h

module _ {ℓ κ} {A : Type ℓ} {B : Type κ} where
  continue-Returns :
      (P : B → World → Type 0) (f : A → Action B) (o : Result A × World)
      → Returns (λ a v. Returns P (f a v)) o
      → Returns P (continue o.0 f o.1)
  continue-Returns P f (ok a, w) h = h
  continue-Returns P f (err e, w) h = absurd h

  pub Returns-bind :
      (P : B → World → Type 0) (m : Action A) (f : A → Action B) (w : World)
      → Returns (λ a v. Returns P (f a v)) (m w)
      → Returns P ((m >>= f) w)
  unfolding ◌>>=◌
  Returns-bind P m f w h = continue-Returns P f (m w) h

pub Returns-throw_if :
    (P : ⊤ → World → Type 0) (c : Bool) (e : Exception) (w : World)
    → c ≡ false
    → P tt w
    → Returns P (throw_if c e w)
unfolding throw_if
Returns-throw_if P c e w passed h = rw passed h

pub Ensures-throw_if :
    (P : ⊤ → World → Type 0) (c : Bool) (e : Exception) (w : World)
    → (c ≡ false → P tt w)
    → Ensures P (throw_if c e w)
unfolding throw_if
Ensures-throw_if P true e w h = tt
Ensures-throw_if P false e w h = h refl
