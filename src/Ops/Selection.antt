-- ===== src/Ops/Selection.antt =====
-- The rows of a table that a query of modules/ops/ops.service.ts asks for.
use mathlib.Core.List.{Permᴰ}
use mathlib.Core.List.Permᴰ
use distributed_ledger_and_t.Prelude.{
  Bool, true, List, [], ◌∷◌, ◌++◌, ◌≡◌, ◌↔◌, refl, not, arith, filter, All, Bool-cases, inl, inr,
}
use distributed_ledger_and_t.Entities.{Uuid, Time}
use distributed_ledger_and_t.Ops.{newest_first}
use distributed_ledger_and_t.Ops.Pages.{
  sort_by-perm, All-sort_by, All-filter, IsNewestFirst, sort_by-IsNewestFirst,
}

-- `all` are the rows of the table that match, each as often as it is stored, the newest first.
pub record IsSelection {ℓ} {A : Type ℓ} (Matches : A → Type 0) (created_at : A → Time)
    (table all : List A) : Type ℓ where
  pub rest : List A
  pub split : Permᴰ (all ++ rest) table
  pub match_all : All Matches all
  pub none_left : All (λ a. ¬ Matches a) rest
  pub newest : IsNewestFirst created_at all

module _ {ℓ} {A : Type ℓ} where
  perm_middle : (xs ys : List A) (a : A) → Permᴰ (xs ++ a ∷ ys) (a ∷ xs ++ ys)
  perm_middle [] ys a = Permᴰ.refl (a ∷ ys)
  perm_middle (x ∷ xs) ys a =
      Permᴰ.trans (Permᴰ.cons refl (perm_middle xs ys a)) (Permᴰ.swap refl refl)

  append-perm : (zs : List A) {xs ys : List A} → Permᴰ xs ys → Permᴰ (xs ++ zs) (ys ++ zs)
  append-perm zs Permᴰ.nil = Permᴰ.refl zs
  append-perm zs (Permᴰ.cons e p) = Permᴰ.cons e (append-perm zs p)
  append-perm zs (Permᴰ.swap e e') = Permᴰ.trans (Permᴰ.swap e e') (Permᴰ.refl _)
  append-perm zs (Permᴰ.trans p q) = Permᴰ.trans (append-perm zs p) (append-perm zs q)

  filter-splits :
      (test : A → Bool) (xs : List A) → Permᴰ (filter test xs ++ filter (λ a. not (test a)) xs) xs
  filter-splits test [] = Permᴰ.nil
  filter-splits test (x ∷ xs) = elim (Bool-cases (test x)) [
    | inl passed ↦ rw passed (Permᴰ.cons refl (filter-splits test xs))
    | inr failed ↦ rw failed (
        Permᴰ.trans (perm_middle (filter test xs) (filter (λ a. not (test a)) xs) x)
          (Permᴰ.cons refl (filter-splits test xs)))
  ]

  All-weaken : (P Q : A → Type 0) (xs : List A) → ((a : A) → P a → Q a) → All P xs → All Q xs
  All-weaken P Q [] f h = tt
  All-weaken P Q (x ∷ xs) f h = (f x h.0, All-weaken P Q xs f h.1)

  pub newest_first-IsSelection :
      (tie : Uuid → Uuid → Bool) (id : A → Uuid) (created_at : A → Time) (Matches : A → Type 0)
      (test : A → Bool) (table : List A)
      → ((a : A) → (test a ≡ true) ↔ Matches a)
      → IsSelection Matches created_at table (newest_first tie id created_at (filter test table))
  newest_first-IsSelection tie id created_at Matches test table iff = record {
    rest = filter (λ a. not (test a)) table;
    split =
        Permᴰ.trans (append-perm (filter (λ a. not (test a)) table) (sort_by-perm _ _))
          (filter-splits test table);
    match_all =
        All-sort_by _ _ (filter test table)
          (All-weaken _ _ (filter test table) (λ a e. (iff a).0 e) (All-filter test table));
    none_left =
        All-weaken _ _ (filter (λ a. not (test a)) table)
          (λ a e m. let passed = (iff a).1 m in ground arith)
          (All-filter (λ a. not (test a)) table);
    newest = sort_by-IsNewestFirst created_at (λ a b. tie (id a) (id b)) (filter test table);
  }
