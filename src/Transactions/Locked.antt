-- ===== src/Transactions/Locked.antt =====
-- The rows that a transfer locks: `find` with `In(orderedIds)`, and the check that there are two.
use distributed_ledger_and_t.Prelude.{
  ℕ, suc, Bool, true, false, none, some, List, [], ◌∷◌, ◌≡◌, refl, ◌∙◌, ap, arith, ◌+◌, ◌||◌,
  if◌then◌else◌, find_row, has_row, Distinct, eqb, leb, length, filter, sort_by, insert_sorted,
  subst, Bool-cases, inl, inr, eqb-eq,
}
use distributed_ledger_and_t.Entities.{Uuid, Account, account_row}
use distributed_ledger_and_t.Database.{World}
use distributed_ledger_and_t.Transactions.{TransferDto, is_in}
use distributed_ledger_and_t.Transactions.Guards.{locked_by}

length-insert_sorted :
    (a : Account) (xs : List Account)
    → length (insert_sorted (λ a b. leb a.id b.id) a xs) ≡ suc (length xs)
length-insert_sorted a [] = refl
length-insert_sorted a (x ∷ xs) = ground (arith, length-insert_sorted a xs)

length-sort_by : (xs : List Account) → length (sort_by (λ a b. leb a.id b.id) xs) ≡ length xs
length-sort_by [] = refl
length-sort_by (x ∷ xs) =
    length-insert_sorted x (sort_by (λ a b. leb a.id b.id) xs) ∙ ap suc (length-sort_by xs)

abbrev count : Bool → ℕ
count true = 1
count false = 0

is_in-sorted : (k a b : Uuid) → is_in k (sort_by leb (a ∷ b ∷ [])) ≡ (eqb a k || eqb b k)
is_in-sorted k a b = ground arith

abbrev found_count : Uuid → List Account → ℕ
found_count k xs = count (has_row k xs)

module _ (i j : Uuid) (differ : eqb i j ≡ false) where
  cons_count :
      (x : Account) (xs : List Account)
      → find_row x.id xs ≡ none
      → (if is_in x.id (sort_by leb (i ∷ j ∷ []))
          then suc (found_count i xs + found_count j xs)
          else found_count i xs + found_count j xs)
        ≡ found_count i (x ∷ xs) + found_count j (x ∷ xs)
  cons_count x xs new = elim (Bool-cases (eqb x.id i)) [
    | inl first ↦
        let e = eqb-eq x.id i first in
        let new_i = subst (λ k. find_row k xs ≡ none) e new in ground arith
    | inr other ↦ elim (Bool-cases (eqb x.id j)) [
      | inl second ↦
          let e = eqb-eq x.id j second in
          let new_j = subst (λ k. find_row k xs ≡ none) e new in ground arith
      | inr neither ↦ ground arith
    ]
  ]

  locked_count :
      (xs : List Account)
      → Distinct xs
      → length (filter (λ a. is_in a.id (sort_by leb (i ∷ j ∷ []))) xs)
        ≡ found_count i xs + found_count j xs
  locked_count [] d = refl
  locked_count (x ∷ xs) d = elim (Bool-cases (is_in x.id (sort_by leb (i ∷ j ∷ [])))) [
    | inl taken ↦ rw (taken, locked_count xs d.1) (rw taken at (cons_count x xs d.0))
    | inr passed ↦ rw (passed, locked_count xs d.1) (rw passed at (cons_count x xs d.0))
  ]

-- A transfer between two accounts of the table finds two rows to lock.
pub two_locked :
    (dto : TransferDto) (w : World) (a b : Account)
    → Distinct w.accounts
    → eqb dto.from_account_id dto.to_account_id ≡ false
    → find_row dto.from_account_id w.accounts ≡ some a
    → find_row dto.to_account_id w.accounts ≡ some b
    → length (locked_by dto w) ≡ 2
two_locked dto w a b d differ found_a found_b =
    length-sort_by _
    ∙ locked_count dto.from_account_id dto.to_account_id differ w.accounts d
    ∙ ground arith
