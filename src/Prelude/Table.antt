-- ===== src/Prelude/Table.antt =====
-- Database tables as lists of rows with a primary key, oldest row first.
use Prim.Native.Nat.{ℕ}
use mathlib.Core.Path.{◌≡◌, refl}
use mathlib.Core.Logic.{inl, inr}
use mathlib.Core.Bool.{Bool, true, false}
use mathlib.Core.Option.{Option, none, some}
use mathlib.Core.List.{List, [], ◌∷◌, ◌++◌}
use native.Mathlib.Omega.{arith}
use distributed_ledger_and_t.Prelude.Lists.{All}
use distributed_ledger_and_t.Prelude.Tests.{eqb_self, if◌then◌else◌, eqb, eqb-eq, Bool-cases}

-- A type of rows, with the column that is the primary key.
pub record Row {ℓ} (A : Type ℓ) : Type ℓ where
  pub key : A → ℕ

module _ {ℓ} {A : Type ℓ} ⦃r : Row A⦄ where
  -- `findOne({ where: { id } })`
  abbrev pub find_row : ℕ → List A → Option A
  find_row k [] = none
  find_row k (x ∷ xs) = if eqb (r.key x) k then some x else find_row k xs

  abbrev pub has_row : ℕ → List A → Bool
  has_row k xs = elim (find_row k xs) [ none ↦ false | some _ ↦ true ]

  -- `save(row)`: the row with its key is replaced, or the row is added.
  abbrev pub save_row : A → List A → List A
  save_row a [] = a ∷ []
  save_row a (x ∷ xs) = if eqb (r.key x) (r.key a) then a ∷ xs else x ∷ save_row a xs

  -- `update(id, …)`: nothing happens when there is no such row.
  abbrev pub update_row : ℕ → (A → A) → List A → List A
  update_row k f [] = []
  update_row k f (x ∷ xs) = if eqb (r.key x) k then f x ∷ xs else x ∷ update_row k f xs

  -- The constraint PRIMARY KEY.
  abbrev pub Distinct : List A → Type ℓ
  Distinct [] = Unit
  Distinct (x ∷ xs) = (find_row (r.key x) xs ≡ none) × Distinct xs

  pub find_row-append_none :
      (k : ℕ) (xs : List A) (a : A)
      → find_row k xs ≡ none
      → find_row k (xs ++ a ∷ []) ≡ (if eqb (r.key a) k then some a else none)
  find_row-append_none k [] a h = refl
  find_row-append_none k (x ∷ xs) a h = ground (arith, find_row-append_none k xs a)

  pub find_row-append_other :
      (k : ℕ) (xs : List A) (a : A)
      → eqb (r.key a) k ≡ false
      → find_row k (xs ++ a ∷ []) ≡ find_row k xs
  find_row-append_other k [] a h = ground arith
  find_row-append_other k (x ∷ xs) a h = ground (arith, find_row-append_other k xs a)

  pub has_row-none : (k : ℕ) (xs : List A) → has_row k xs ≡ false → find_row k xs ≡ none
  has_row-none k xs h = ground arith

  pub has_row-append :
      (k : ℕ) (xs : List A) (a : A)
      → has_row k xs ≡ false
      → eqb (r.key a) k ≡ false
      → has_row k (xs ++ a ∷ []) ≡ false
  has_row-append k [] a h e = ground arith
  has_row-append k (x ∷ xs) a h e = ground (arith, has_row-append k xs a)

  pub has_row-save_row :
      (k : ℕ) (a : A) (xs : List A)
      → has_row k xs ≡ false
      → eqb (r.key a) k ≡ false
      → has_row k (save_row a xs) ≡ false
  has_row-save_row k a [] h e = ground arith
  has_row-save_row k a (x ∷ xs) h e = ground (arith, has_row-save_row k a xs)

  pub has_row-key : (k : ℕ) (xs : List A) {a : A} → find_row k xs ≡ some a → has_row k xs ≡ true
  has_row-key k xs e = rw (e, has_row) refl

  pub save_row-append_fresh :
      (a b : A) (xs : List A)
      → find_row (r.key a) xs ≡ none
      → r.key b ≡ r.key a
      → save_row a (xs ++ b ∷ []) ≡ xs ++ a ∷ []
  save_row-append_fresh a b [] h e = ground arith
  save_row-append_fresh a b (x ∷ xs) h e = ground (arith, save_row-append_fresh a b xs)

  pub find_row-key : (k : ℕ) (xs : List A) {a : A} → find_row k xs ≡ some a → r.key a ≡ k
  find_row-key k [] e = cc
  find_row-key k (x ∷ xs) {a} e = elim (Bool-cases (eqb (r.key x) k)) [
    | inl same ↦ found (eqb-eq (r.key x) k same) (ground arith)
    | inr other ↦ find_row-key k xs (ground arith)
  ]
    where
      found : r.key x ≡ k → x ≡ a → r.key a ≡ k
      found h p = rw (← p) h

  pub find_row-save_row :
      (k : ℕ) (a : A) (xs : List A)
      → find_row k (save_row a xs) ≡ (if eqb (r.key a) k then some a else find_row k xs)
  find_row-save_row k a [] = refl
  find_row-save_row k a (x ∷ xs) = ground (arith, find_row-save_row k a xs)

  pub save_row-Distinct : (a : A) (xs : List A) → Distinct xs → Distinct (save_row a xs)
  save_row-Distinct a [] d = ground arith
  save_row-Distinct a (x ∷ xs) d =
      ground (arith, save_row-Distinct a xs d.1, find_row-save_row (r.key x) a xs)

  pub append-Distinct :
      (xs : List A) (a : A) → find_row (r.key a) xs ≡ none → Distinct xs → Distinct (xs ++ a ∷ [])
  append-Distinct [] a h d = (refl, tt)
  append-Distinct (x ∷ xs) a h d =
      ground (arith, append-Distinct xs a, find_row-append_none (r.key x) xs a)

module _ {ℓ} {A : Type ℓ} ⦃r : Row A⦄ where
  find_row-cons :
      (x : A) (xs : List A) (k : ℕ) (a : A)
      → find_row (r.key x) xs ≡ none
      → find_row k xs ≡ some a
      → find_row k (x ∷ xs) ≡ some a
  find_row-cons x xs k a new found = ground arith

module _ {ℓ κ} {A : Type ℓ} ⦃r : Row A⦄ where
  -- What holds of every row that can be found holds of every row.
  pub All-find_row :
      (P : A → Type κ) (xs : List A)
      → ((k : ℕ) (a : A) → find_row k xs ≡ some a → P a)
      → Distinct xs
      → All P xs
  All-find_row P [] h d = tt
  All-find_row P (x ∷ xs) h d = (
    h (r.key x) x (rw (eqb_self (r.key x))),
    All-find_row P xs (λ k a found. h k a (find_row-cons x xs k a d.0 found)) d.1,
  )
