-- ===== src/Reconciliation/Clean.antt =====
-- What the two queries of modules/reconciliation/reconciliation.service.ts report.
use distributed_ledger_and_t.Prelude.{
  ℤ, pos, ◌+ℤ◌, eqb_ℤ, eq_of_parts, Bool, true, false, List, [], ◌∷◌, ◌≡◌, ◌↔◌, refl, sym, ◌∙◌,
  ◌-ℤ◌, ap, subst, arith, map, not, eqb, eqb-eq, filter, All, Bool-cases, inl, inr,
}
use distributed_ledger_and_t.Entities.{Uuid, Account, LedgerEntry, LedgerEntryType, account_row}
use distributed_ledger_and_t.Reconciliation.{
  ledger_balance, debit_total, credit_total, is_mismatched, is_unbalanced, is_member,
  transaction_groups, find_account_balance_mismatches, find_unbalanced_transactions,
}
use distributed_ledger_and_t.Reconciliation.Sums.{
  sum_of, on_account, within_transaction, ledger_balance-sum_of, debit_total-sum_of,
  credit_total-sum_of,
}

nonempty {ℓ} : {A : Type ℓ} (x : A) (xs : List A) → x ∷ xs ≡ [] → ⊥
nonempty x xs h = cc

module _ {ℓ κ} {A : Type ℓ} {B : Type κ} where
  pub map-filter-empty :
      (f : A → B) (p : A → Bool) (xs : List A)
      → map f (filter p xs) ≡ []
      → All (λ x. p x ≡ false) xs
  map-filter-empty f p [] h = tt
  map-filter-empty f p (x ∷ xs) h = elim (Bool-cases (p x)) [
    | inl reported ↦ absurd (nonempty (f x) (map f (filter p xs)) (rw reported at h))
    | inr passed ↦ (passed, map-filter-empty f p xs (rw passed at h))
  ]

  pub empty-map-filter :
      (f : A → B) (p : A → Bool) (xs : List A)
      → All (λ x. p x ≡ false) xs
      → map f (filter p xs) ≡ []
  empty-map-filter f p [] h = refl
  empty-map-filter f p (x ∷ xs) h = rw h.0 (empty-map-filter f p xs h.1)

eqb_ℤ-eq : (a b : ℤ) → not (eqb_ℤ a b) ≡ false → a ≡ b
eqb_ℤ-eq a b h = eq_of_parts a b (ground arith)

eqb_ℤ-self : (a b : ℤ) → a ≡ b → not (eqb_ℤ a b) ≡ false
eqb_ℤ-self a b e = ground arith

outside-cons :
    (t : Uuid) (e : LedgerEntry) (es : List LedgerEntry)
    → is_member t (transaction_groups (e ∷ es)) ≡ false
    → (eqb e.transaction_id t ≡ false) × (is_member t (transaction_groups es) ≡ false)
unfolding transaction_groups
outside-cons t e es h = ground arith

-- A transaction without entries has no debits and no credits.
outside_groups :
    (t : Uuid) (es : List LedgerEntry)
    → is_member t (transaction_groups es) ≡ false
    → debit_total t es ≡ credit_total t es
unfolding debit_total credit_total
outside_groups t [] h = refl
outside_groups t (e ∷ es) h =
    let (other, outside) = outside-cons t e es h in
    rw other (ap (λ x. pos 0 +ℤ x) (outside_groups t es outside))

All-member :
    (P : Uuid → Type 0) (t : Uuid) (ids : List Uuid) → All P ids → is_member t ids ≡ true → P t
All-member P t [] h m = cc
All-member P t (id ∷ ids) h m = elim (Bool-cases (eqb id t)) [
  | inl same ↦ subst P (eqb-eq id t same) h.0
  | inr other ↦ All-member P t ids h.1 (rw other at m)
]

All-map {ℓ} :
    {A : Type ℓ} (P Q : A → Type 0) (xs : List A) → ((x : A) → P x → Q x) → All P xs → All Q xs
All-map P Q [] f h = tt
All-map P Q (x ∷ xs) f h = (f x h.0, All-map P Q xs f h.1)

All-always {ℓ} : {A : Type ℓ} (P : A → Type 0) (xs : List A) → ((x : A) → P x) → All P xs
All-always P [] f = tt
All-always P (x ∷ xs) f = (f x, All-always P xs f)

pub no_mismatch_exact :
    (accounts : List Account) (entries : List LedgerEntry)
    → (find_account_balance_mismatches accounts entries ≡ [])
      ↔ All (λ (a : Account). ledger_balance a.id entries ≡ a.balance) accounts
unfolding find_account_balance_mismatches
no_mismatch_exact accounts entries = (
  λ h.
      All-map _ _ accounts (λ a. eqb_ℤ-eq (ledger_balance a.id entries) a.balance)
        (map-filter-empty _ (is_mismatched entries) accounts h),
  λ h.
      empty-map-filter _ (is_mismatched entries) accounts
        (All-map _ _ accounts (λ a. eqb_ℤ-self (ledger_balance a.id entries) a.balance) h),
)

pub no_imbalance_exact :
    (entries : List LedgerEntry)
    → (find_unbalanced_transactions entries ≡ [])
      ↔ ((t : Uuid) → debit_total t entries ≡ credit_total t entries)
unfolding find_unbalanced_transactions
no_imbalance_exact entries = (
  λ h t. elim (Bool-cases (is_member t (transaction_groups entries))) [
    | inl grouped ↦ eqb_ℤ-eq (debit_total t entries) (credit_total t entries) (
        All-member (λ t. is_unbalanced entries t ≡ false) t (transaction_groups entries)
          (map-filter-empty _ (is_unbalanced entries) (transaction_groups entries) h) grouped)
    | inr outside ↦ outside_groups t entries outside
  ],
  λ h. empty-map-filter _ (is_unbalanced entries) (transaction_groups entries) (
      All-always _ (transaction_groups entries)
        (λ t. eqb_ℤ-self (debit_total t entries) (credit_total t entries) (h t))),
)

-- No account is reported as mismatched exactly when the balance of every account is the sum of the
-- amounts of its credit entries less that of its debit entries.
pub account_mismatches_exact :
    (accounts : List Account) (entries : List LedgerEntry)
    → (find_account_balance_mismatches accounts entries ≡ [])
      ↔ All
          (λ (a : Account).
            a.balance
            ≡ sum_of (on_account a.id LedgerEntryType.credit) entries
              -ℤ sum_of (on_account a.id LedgerEntryType.debit) entries)
          accounts
account_mismatches_exact accounts entries = (
  λ h.
      All-map _ _ accounts (λ a e. sym e ∙ ledger_balance-sum_of a.id entries)
        ((no_mismatch_exact accounts entries).0 h),
  λ h.
      (no_mismatch_exact accounts entries).1
        (All-map _ _ accounts (λ a e. ledger_balance-sum_of a.id entries ∙ sym e) h),
)

-- No transaction is reported as unbalanced exactly when, for every transaction id, the amounts of its
-- debit entries and those of its credit entries have the same sum.
pub unbalanced_transactions_exact :
    (entries : List LedgerEntry)
    → (find_unbalanced_transactions entries ≡ []) ↔ (
        (t : Uuid)
        → sum_of (within_transaction t LedgerEntryType.debit) entries
          ≡ sum_of (within_transaction t LedgerEntryType.credit) entries)
unbalanced_transactions_exact entries = (
  λ h t.
      sym (debit_total-sum_of t entries)
      ∙ (no_imbalance_exact entries).0 h t
      ∙ credit_total-sum_of t entries,
  λ h.
      (no_imbalance_exact entries).1
        (λ t. debit_total-sum_of t entries ∙ h t ∙ sym (credit_total-sum_of t entries)),
)
