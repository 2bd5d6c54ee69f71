-- ===== src/Ops/Pages.antt =====
-- Pages of a sorted list.
use mathlib.Core.List.{Permᴰ}
use mathlib.Core.List.Permᴰ
use distributed_ledger_and_t.Prelude.{
  ℕ, zero, suc, Bool, true, List, [], ◌∷◌, ◌++◌, ◌≡◌, ◌≤◌, ◌+◌, ◌*◌, refl, ap, ◌∙◌, arith, ltb, eqb,
  false, ◌||◌, ◌&&◌, length, take, drop, filter, insert_sorted, sort_by, All, Bool-cases, inl, inr,
}

module _ {ℓ} {A : Type ℓ} where
  pub take-drop : (n : ℕ) (xs : List A) → take n xs ++ drop n xs ≡ xs
  take-drop zero xs = refl
  take-drop (suc n) [] = refl
  take-drop (suc n) (x ∷ xs) = ap (λ ys. x ∷ ys) (take-drop n xs)

  take_none : (n : ℕ) → ◌≡◌ {A = List A} (take n []) []
  take_none zero = refl
  take_none (suc n) = refl

  pub take-append : (m n : ℕ) (xs : List A) → take m xs ++ take n (drop m xs) ≡ take (m + n) xs
  take-append zero n xs = let e : n ≡ 0 + n = omega arith in ap (λ k. take k xs) e
  take-append (suc m) n [] =
      let e : suc (m + n) ≡ suc m + n = omega arith in take_none n ∙ ap (λ k. take k []) e
  take-append (suc m) n (x ∷ xs) =
      let e : suc (m + n) ≡ suc m + n = omega arith in
      ap (λ ys. x ∷ ys) (take-append m n xs) ∙ ap (λ k. take k (x ∷ xs)) e

  pub take_all : (n : ℕ) (xs : List A) → length xs ≤ n → take n xs ≡ xs
  take_all zero [] h = refl
  take_all (suc n) [] h = refl
  take_all zero (x ∷ xs) h = absurd (omega arith)
  take_all (suc n) (x ∷ xs) h = ap (λ ys. x ∷ ys) (take_all n xs (omega arith))

  -- The first `count` pages of `limit` rows, one after the other.
  abbrev pub pages : (limit count : ℕ) → List A → List A
  pages limit zero xs = []
  pages limit (suc count) xs = pages limit count xs ++ take limit (drop (count * limit) xs)

  pub pages-take : (limit count : ℕ) (xs : List A) → pages limit count xs ≡ take (count * limit) xs
  pages-take limit zero xs = let e : 0 ≡ 0 * limit = omega arith in ap (λ k. take k xs) e
  pages-take limit (suc count) xs =
      ap (λ ys. ys ++ take limit (drop (count * limit) xs)) (pages-take limit count xs)
      ∙ take-append (count * limit) limit xs
      ∙ ap (λ n. take n xs) swap_sum
    where
      swap_sum : count * limit + limit ≡ suc count * limit
      swap_sum = omega arith

  length-insert_sorted :
      (before : A → A → Bool) (a : A) (xs : List A)
      → length (insert_sorted before a xs) ≡ suc (length xs)
  length-insert_sorted before a [] = refl
  length-insert_sorted before a (x ∷ xs) = ground (arith, length-insert_sorted before a xs)

  pub length-sort_by :
      (before : A → A → Bool) (xs : List A) → length (sort_by before xs) ≡ length xs
  length-sort_by before [] = refl
  length-sort_by before (x ∷ xs) =
      length-insert_sorted before x (sort_by before xs) ∙ ap suc (length-sort_by before xs)

  insert_sorted-perm :
      (before : A → A → Bool) (a : A) (xs : List A) → Permᴰ (insert_sorted before a xs) (a ∷ xs)
  insert_sorted-perm before a [] = Permᴰ.refl (a ∷ [])
  insert_sorted-perm before a (x ∷ xs) = elim (Bool-cases (before a x)) [
    | inl first ↦ rw first (Permᴰ.refl (a ∷ x ∷ xs))
    | inr later ↦
        rw later
          (Permᴰ.trans (Permᴰ.cons refl (insert_sorted-perm before a xs)) (Permᴰ.swap refl refl))
  ]

  pub sort_by-perm : (before : A → A → Bool) (xs : List A) → Permᴰ (sort_by before xs) xs
  sort_by-perm before [] = Permᴰ.nil
  sort_by-perm before (x ∷ xs) =
      Permᴰ.trans (insert_sorted-perm before x (sort_by before xs))
        (Permᴰ.cons refl (sort_by-perm before xs))

module _ {ℓ κ} {A : Type ℓ} (P : A → Type κ) where
  pub All-take : (n : ℕ) (xs : List A) → All P xs → All P (take n xs)
  All-take zero xs h = tt
  All-take (suc n) [] h = tt
  All-take (suc n) (x ∷ xs) h = (h.0, All-take n xs h.1)

  pub All-drop : (n : ℕ) (xs : List A) → All P xs → All P (drop n xs)
  All-drop zero xs h = h
  All-drop (suc n) [] h = tt
  All-drop (suc n) (x ∷ xs) h = All-drop n xs h.1

  pub All-insert_sorted :
      (before : A → A → Bool) (a : A) (xs : List A)
      → P a
      → All P xs
      → All P (insert_sorted before a xs)
  All-insert_sorted before a [] p h = (p, tt)
  All-insert_sorted before a (x ∷ xs) p h = elim (Bool-cases (before a x)) [
    | inl first ↦ rw first (p, h)
    | inr later ↦ rw later (h.0, All-insert_sorted before a xs p h.1)
  ]

  pub All-sort_by : (before : A → A → Bool) (xs : List A) → All P xs → All P (sort_by before xs)
  All-sort_by before [] h = tt
  All-sort_by before (x ∷ xs) h =
      All-insert_sorted before x (sort_by before xs) h.0 (All-sort_by before xs h.1)

module _ {ℓ} {A : Type ℓ} (test : A → Bool) where
  pub All-filter : (xs : List A) → All (λ a. test a ≡ true) (filter test xs)
  All-filter [] = tt
  All-filter (x ∷ xs) = elim (Bool-cases (test x)) [
    | inl passed ↦ rw passed (passed, All-filter xs)
    | inr failed ↦ rw failed (All-filter xs)
  ]

-- Rows in descending order of a date.
module _ {ℓ} {A : Type ℓ} (created_at : A → ℕ) where
  abbrev pub IsNewestFirst : List A → Type 0
  IsNewestFirst [] = Unit
  IsNewestFirst (x ∷ xs) = All (λ y. created_at y ≤ created_at x) xs × IsNewestFirst xs

  older :
      (a x : A) (xs : List A)
      → created_at x ≤ created_at a
      → All (λ y. created_at y ≤ created_at x) xs
      → All (λ y. created_at y ≤ created_at a) xs
  older a x [] h all = tt
  older a x (y ∷ ys) h all = (let first = all.0 in omega arith, older a x ys h all.1)

  pub take-IsNewestFirst : (n : ℕ) (xs : List A) → IsNewestFirst xs → IsNewestFirst (take n xs)
  take-IsNewestFirst zero xs h = tt
  take-IsNewestFirst (suc n) [] h = tt
  take-IsNewestFirst (suc n) (x ∷ xs) h =
      (All-take (λ y. created_at y ≤ created_at x) n xs h.0, take-IsNewestFirst n xs h.1)

  pub drop-IsNewestFirst : (n : ℕ) (xs : List A) → IsNewestFirst xs → IsNewestFirst (drop n xs)
  drop-IsNewestFirst zero xs h = h
  drop-IsNewestFirst (suc n) [] h = tt
  drop-IsNewestFirst (suc n) (x ∷ xs) h = drop-IsNewestFirst n xs h.1

-- Rows sorted by a date, and by `tie` where the dates are the same.
module _ {ℓ} {A : Type ℓ} (created_at : A → ℕ) where
  abbrev pub before : (A → A → Bool) → A → A → Bool
  before tie a b =
      ltb (created_at b) (created_at a) || (eqb (created_at a) (created_at b) && tie a b)

  insert_sorted-IsNewestFirst :
      (tie : A → A → Bool) (a : A) (xs : List A)
      → IsNewestFirst created_at xs
      → IsNewestFirst created_at (insert_sorted (before tie) a xs)
  insert_sorted-IsNewestFirst tie a [] h = (tt, tt)
  insert_sorted-IsNewestFirst tie a (x ∷ xs) h = elim (Bool-cases (before tie a x)) [
    | inl first ↦
        let le : created_at x ≤ created_at a = ground arith in
        rw first ((le, older created_at a x xs le h.0), h)
    | inr later ↦
        let le : created_at a ≤ created_at x = ground arith in
        rw later (
          All-insert_sorted (λ y. created_at y ≤ created_at x) (before tie) a xs le h.0,
          insert_sorted-IsNewestFirst tie a xs h.1,
        )
  ]

  pub sort_by-IsNewestFirst :
      (tie : A → A → Bool) (xs : List A) → IsNewestFirst created_at (sort_by (before tie) xs)
  sort_by-IsNewestFirst tie [] = tt
  sort_by-IsNewestFirst tie (x ∷ xs) =
      insert_sorted-IsNewestFirst tie x (sort_by (before tie) xs) (sort_by-IsNewestFirst tie xs)

  -- No two rows have the same date.
  abbrev pub HaveOwnDates : List A → Type 0
  HaveOwnDates [] = Unit
  HaveOwnDates (x ∷ xs) = All (λ y. eqb (created_at x) (created_at y) ≡ false) xs × HaveOwnDates xs

  insert_sorted-tie :
      (first second : A → A → Bool) (a : A) (xs : List A)
      → All (λ y. eqb (created_at a) (created_at y) ≡ false) xs
      → insert_sorted (before first) a xs ≡ insert_sorted (before second) a xs
  insert_sorted-tie first second a [] h = refl
  insert_sorted-tie first second a (x ∷ xs) h =
      rw (h.0, insert_sorted-tie first second a xs h.1) refl

  -- Then it does not matter how rows of the same date are ordered.
  pub sort_by-tie :
      (first second : A → A → Bool) (xs : List A)
      → HaveOwnDates xs
      → sort_by (before first) xs ≡ sort_by (before second) xs
  sort_by-tie first second [] h = refl
  sort_by-tie first second (x ∷ xs) h =
      insert_sorted-tie first second x (sort_by (before first) xs)
        (All-sort_by _ (before first) xs h.0)
      ∙ ap (insert_sorted (before second) x) (sort_by-tie first second xs h.1)
