-- ===== src/Database/Cases.antt =====
-- The outcomes of single actions, one case for each.
use distributed_ledger_and_t.Prelude.{
  Bool, true, false, Option, none, some, ◌≡◌, refl, ⊤, ◌||◌, Bool-cases, inl, inr, arith,
}
use distributed_ledger_and_t.Common.Exceptions.{Exception, query_failed, Result, ok, err}
use distributed_ledger_and_t.Database.{World, Db, Env, next, statement, or_throw, throw_if}

or_false : (a b : Bool) → (a || b) ≡ false → (a ≡ false) × (b ≡ false)
or_false a b h = ground arith

module _ {ℓ} {A : Type ℓ} (P : Result A × World → Type 0) where
  -- A statement fails and changes nothing, or has its effect.
  pub statement-cases :
      (env : Env) (violated : Bool) (a : A) (after : Db) (w : World)
      → P (err query_failed, next w)
      → (env.fault w.step ≡ false → violated ≡ false → P (ok a, record (next w) { db = after }))
      → P (statement env violated a after w)
  statement-cases env violated a after w failed done =
      elim (Bool-cases (env.fault w.step || violated)) [
        | inl e ↦ rw e failed
        | inr e ↦ rw e (done (or_false _ violated e).0 (or_false (env.fault w.step) violated e).1)
      ]

  pub or_throw-cases :
      (o : Option A) (e : Exception) (w : World)
      → (o ≡ none → P (err e, w))
      → ((a : A) → o ≡ some a → P (ok a, w))
      → P (or_throw o e w)
  unfolding or_throw
  or_throw-cases none e w missing found = missing refl
  or_throw-cases (some a) e w missing found = found a refl

pub throw_if-cases :
    (P : Result ⊤ × World → Type 0) (c : Bool) (e : Exception) (w : World)
    → (c ≡ true → P (err e, w))
    → (c ≡ false → P (ok tt, w))
    → P (throw_if c e w)
unfolding throw_if
throw_if-cases P true e w thrown passed = thrown refl
throw_if-cases P false e w thrown passed = passed refl
