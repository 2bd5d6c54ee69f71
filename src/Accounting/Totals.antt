-- ===== src/Accounting/Totals.antt =====
-- The sum of all balances, and bounds on single balances by it.
use distributed_ledger_and_t.Prelude.{
  ℤ, pos, ◌+ℤ◌, ◌≤ℤ◌, int_laws, +ℤ_assoc, true, false, some, List, [], ◌∷◌, ◌≡◌, sym, arith,
  find_row, save_row, eqb, Bool-cases, inl, inr, subst, ap, ◌∙◌, All, All-find_row,
}
use distributed_ledger_and_t.Entities.{Uuid, Time, Account, account_row}
use distributed_ledger_and_t.Database.{Db}
use distributed_ledger_and_t.Transactions.{stamp}
use distributed_ledger_and_t.Accounting.{balance_of, shown_balance, total_balance, IsSound}

abbrev pub AreNonneg : List Account → Type 0
AreNonneg = All (λ (a : Account). pos 0 ≤ℤ a.balance)

pub IsSound-AreNonneg : (db : Db) → IsSound db → AreNonneg db.accounts
IsSound-AreNonneg db s =
    All-find_row (λ (a : Account). pos 0 ≤ℤ a.balance) db.accounts
      (λ k a found. subst (λ o. pos 0 ≤ℤ shown_balance o) found (s.nonneg k)) s.accounts_distinct

pub total_balance_nonneg : (xs : List Account) → AreNonneg xs → pos 0 ≤ℤ total_balance xs
total_balance_nonneg [] h = omega arith
total_balance_nonneg (x ∷ xs) h = let rest = total_balance_nonneg xs h.1 in omega int_laws

pub balance_of-le-total :
    (k : Uuid) (xs : List Account) → AreNonneg xs → balance_of k xs ≤ℤ total_balance xs
balance_of-le-total k [] h = omega arith
balance_of-le-total k (x ∷ xs) h = elim (Bool-cases (eqb x.id k)) [
  | inl same ↦ rw same (let rest = total_balance_nonneg xs h.1 in omega int_laws)
  | inr other ↦ rw other (let rest = balance_of-le-total k xs h.1 in omega int_laws)
]

no_third : (i j k : Uuid) → eqb i j ≡ true → eqb i k ≡ true → eqb j k ≡ false → ⊥
no_third i j k p q differ = ground arith

pub two_balances-le-total :
    (j k : Uuid) (xs : List Account)
    → eqb j k ≡ false
    → AreNonneg xs
    → balance_of j xs +ℤ balance_of k xs ≤ℤ total_balance xs
two_balances-le-total j k [] differ h = omega int_laws
two_balances-le-total j k (x ∷ xs) differ h = elim (Bool-cases (eqb x.id j)) [
  | inl is_j ↦ elim (Bool-cases (eqb x.id k)) [
    | inl is_k ↦ absurd (no_third x.id j k is_j is_k differ)
    | inr not_k ↦ rw (is_j, not_k) (let rest = balance_of-le-total k xs h.1 in omega int_laws)
  ]
  | inr not_j ↦ elim (Bool-cases (eqb x.id k)) [
    | inl is_k ↦ rw (not_j, is_k) (let rest = balance_of-le-total j xs h.1 in omega int_laws)
    | inr not_k ↦
        rw (not_j, not_k) (let rest = two_balances-le-total j k xs differ h.1 in omega int_laws)
  ]
]

behind : (x t u a b : ℤ) → t +ℤ a ≡ u +ℤ b → x +ℤ t +ℤ a ≡ x +ℤ u +ℤ b
behind x t u a b e = +ℤ_assoc x t a ∙ ap (λ s. x +ℤ s) e ∙ sym (+ℤ_assoc x u b)

swap_balances : (x a b t : ℤ) → x ≡ a → b +ℤ t +ℤ a ≡ x +ℤ t +ℤ b
swap_balances x a b t e = rw e (omega int_laws)

-- Saving one account with a new balance moves the total by the difference.
pub total_balance-save_row :
    (at : Time) (a : Account) (b : ℤ) (xs : List Account)
    → find_row a.id xs ≡ some a
    → total_balance (save_row (stamp at (record a { balance = b })) xs) +ℤ a.balance
      ≡ total_balance xs +ℤ b
total_balance-save_row at a b [] found = cc
total_balance-save_row at a b (x ∷ xs) found = elim (Bool-cases (eqb x.id a.id)) [
  | inl same ↦ rw same (
      let e = ap shown_balance (rw same at found) in
      swap_balances x.balance a.balance b (total_balance xs) e)
  | inr other ↦ rw other (
      behind x.balance _ (total_balance xs) a.balance b
        (total_balance-save_row at a b xs (rw other at found)))
]
