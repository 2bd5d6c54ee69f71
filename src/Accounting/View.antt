-- ===== src/Accounting/View.antt =====
-- The bank that the table of accounts of modules/transactions shows.
use mathlib.Core.Option
use mathlib.Core.Path.{subst₂}
use distributed_ledger_and_t.Prelude.{
  ℤ, Option, none, some, List, [], ◌∷◌, ◌++◌, ◌≡◌, refl, ap, subst, ◌∙◌, eqb, find_row,
  find_row-key, find_row-save_row, find_row-append_none, find_row-append_other, eqb-eq, save_row,
  arith, Bool-cases, inl, inr,
}
use distributed_ledger_and_t.Common.Exceptions.{Exception, Result, ok, err}
use distributed_ledger_and_t.Entities.{Uuid, Time, Account, account_row}
use distributed_ledger_and_t.Database.{World}
use distributed_ledger_and_t.Database.Ensures.{Returns}
use distributed_ledger_and_t.Transactions.{stamp}
use distributed_ledger_and_t.Accounting.Bank.{Bank, put, holding, view, observe}

pub same_bank : (b c : Bank) → ((k : Uuid) → b k ≡ c k) → b ≡ c
same_bank b c h = λ i k. h k i

pub view-find_row :
    (k : Uuid) (accounts : List Account) {a : Account}
    → find_row k accounts ≡ some a
    → view accounts k ≡ some (holding a)
view-find_row k accounts found = ap (Option.map holding) found

pub view-save_row :
    (at : Time) (a : Account) (accounts : List Account)
    → view (save_row (stamp at a) accounts) ≡ put a.id (holding a) (view accounts)
view-save_row at a accounts = same_bank _ _ (λ k. elim (Bool-cases (eqb a.id k)) [
  | inl same ↦ rw (find_row-save_row k (stamp at a) accounts, same) refl
  | inr other ↦ rw (find_row-save_row k (stamp at a) accounts, other) refl
])

pub same_row : (o : Option Account) {a b : Account} → o ≡ some a → o ≡ some b → b ≡ a
same_row o e f = cc

-- The row `b` that a request found is saved with a new balance.
pub view-set :
    (k : Uuid) (at : Time) (a b : Account) (x y : ℤ) (accounts : List Account)
    → find_row k accounts ≡ some a
    → find_row k accounts ≡ some b
    → x ≡ y
    → view (save_row (stamp at (record b { balance = x })) accounts)
      ≡ put k (record (holding a) { balance = y }) (view accounts)
view-set k at a b x y accounts found_a found_b same =
    view-save_row at (record b { balance = x }) accounts
    ∙ subst₂
        (λ id z.
          put b.id (holding (record b { balance = x })) (view accounts)
          ≡ put id (record (holding b) { balance = z }) (view accounts))
        (find_row-key k accounts found_b) same refl
    ∙ ap (λ (c : Account). put k (record (holding c) { balance = y }) (view accounts))
        (same_row _ found_a found_b)

pub view-append :
    (a : Account) (accounts : List Account)
    → find_row a.id accounts ≡ none
    → view (accounts ++ a ∷ []) ≡ put a.id (holding a) (view accounts)
view-append a accounts new = same_bank _ _ (λ k. elim (Bool-cases (eqb a.id k)) [
  | inl same ↦
      rw
        (
          find_row-append_none k accounts a
              (subst (λ j. find_row j accounts ≡ none) (eqb-eq a.id k same) new),
          same,
        )
        refl
  | inr other ↦ rw (find_row-append_other k accounts a other, other) refl
])

same_exception {ℓ} : {A : Type ℓ} {e f : Exception} → ◌≡◌ {A = Result A} (err e) (err f) → e ≡ f
same_exception e = cc

module _ {ℓ} {A : Type ℓ} where
  -- A refusal that leaves the tables alone, and a return.
  pub observe-refused :
      (o : Result A × World) (w : World) (e : Exception)
      → o.0 ≡ err e
      → ((f : Exception) → o.0 ≡ err f → o.1.db ≡ w.db)
      → observe o ≡ (some e, view w.accounts)
  observe-refused (ok a, v) w e thrown atomic = absurd (ground arith)
  observe-refused (err f, v) w e thrown atomic =
      let same = same_exception thrown in
      let kept = atomic f refl in λ i. (some (same i), view (kept i).accounts)

  pub observe-returned :
      (o : Result A × World) (bank : Bank)
      → Returns (λ a v. view v.accounts ≡ bank) o
      → observe o ≡ (none, bank)
  observe-returned (ok a, v) bank h = ap (λ (b : Bank). (none, b)) h
  observe-returned (err f, v) bank h = absurd h
