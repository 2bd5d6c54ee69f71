-- ===== src/Transactions/LockOrder.antt =====
-- The order in which the transfers of modules/transactions/transactions.service.ts lock their rows.
use distributed_ledger_and_t.Prelude.{
  ℕ, Bool, true, false, List, [], ◌∷◌, ◌++◌, ◌≡◌, ◌≤◌, refl, arith, map, All, leb, sort_by,
  insert_sorted, filter, Bool-cases, inl, inr,
}
use distributed_ledger_and_t.Entities.{Uuid, Account}
use distributed_ledger_and_t.Database.{World, Env}
use distributed_ledger_and_t.Database.Ensures.{Ensures}
use distributed_ledger_and_t.Transactions.{TransferDto, transfer, is_in}
use distributed_ledger_and_t.Transactions.Guards.{locked_by, transfer-Ensures}

-- Ids in ascending order.
abbrev pub IsAscending : List Uuid → Type 0
IsAscending [] = Unit
IsAscending (k ∷ ks) = All (λ j. k ≤ j) ks × IsAscending ks

abbrev by_id : Account → Account → Bool
by_id a b = leb a.id b.id

abbrev ids : List Account → List Uuid
ids xs = map (λ a. a.id) xs

above : (j k : ℕ) (ks : List ℕ) → j ≤ k → All (λ i. k ≤ i) ks → All (λ i. j ≤ i) ks
above j k [] h all = tt
above j k (i ∷ is) h all = (let first = all.0 in omega arith, above j k is h all.1)

All-insert_sorted :
    (k : ℕ) (a : Account) (xs : List Account)
    → k ≤ a.id
    → All (λ i. k ≤ i) (ids xs)
    → All (λ i. k ≤ i) (ids (insert_sorted by_id a xs))
All-insert_sorted k a [] h all = (h, tt)
All-insert_sorted k a (x ∷ xs) h all = elim (Bool-cases (leb a.id x.id)) [
  | inl before ↦ rw before (h, all)
  | inr after ↦ rw after (all.0, All-insert_sorted k a xs h all.1)
]

leb-le : (a b : ℕ) → leb a b ≡ true → a ≤ b
leb-le a b h = ground arith

leb-ge : (a b : ℕ) → leb a b ≡ false → b ≤ a
leb-ge a b h = ground arith

insert_sorted-IsAscending :
    (a : Account) (xs : List Account)
    → IsAscending (ids xs)
    → IsAscending (ids (insert_sorted by_id a xs))
insert_sorted-IsAscending a [] s = (tt, tt)
insert_sorted-IsAscending a (x ∷ xs) s = elim (Bool-cases (leb a.id x.id)) [
  | inl before ↦
      rw before
        ((leb-le a.id x.id before, above a.id x.id (ids xs) (leb-le a.id x.id before) s.0), s)
  | inr after ↦
      rw after (
        All-insert_sorted x.id a xs (leb-ge a.id x.id after) s.0,
        insert_sorted-IsAscending a xs s.1,
      )
]

sort_by-IsAscending : (xs : List Account) → IsAscending (ids (sort_by by_id xs))
sort_by-IsAscending [] = tt
sort_by-IsAscending (x ∷ xs) =
    insert_sorted-IsAscending x (sort_by by_id xs) (sort_by-IsAscending xs)

-- In any environment, a transfer that returns has locked the rows selected by its two ids in
-- ascending order of their ids, and no other row.
pub transfer_locks_in_order :
    (env : Env) (dto : TransferDto) (w : World)
    → Ensures
        (λ r v.
          (v.locks ≡ w.locks ++ map (λ a. a.id) (locked_by dto w))
          × IsAscending (map (λ a. a.id) (locked_by dto w)))
        (transfer env dto w)
transfer_locks_in_order env dto w =
    transfer-Ensures _ env dto w λ a b at t rows e n differ u v enough p. (
      refl,
      sort_by-IsAscending (
          filter (λ c. is_in c.id (sort_by leb (dto.from_account_id ∷ dto.to_account_id ∷ [])))
            w.accounts),
    )
