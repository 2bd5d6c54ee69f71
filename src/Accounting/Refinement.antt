-- ===== src/Accounting/Refinement.antt =====
-- The operations of modules/transactions against the bank that they are to be.
use distributed_ledger_and_t.Prelude.{
  ℤ, pos, ◌+ℤ◌, ◌-ℤ◌, ◌≤ℤ◌, ltb_ℤ, false, ◌≡◌, sym, ap, subst, ◌∙◌, arith, find_row, find_row-key,
  str_eq, eq_iff, Bool-cases, Option-cases, inl, inr,
}
use distributed_ledger_and_t.Common.Exceptions.{err, account_inactive}
use distributed_ledger_and_t.Common.Number.{max_safe_integer, add_number, sub_number}
use distributed_ledger_and_t.Entities.{Account, is_active, account_row}
use distributed_ledger_and_t.Database.{World, Env}
use distributed_ledger_and_t.Database.Ensures.{Ensures, Returns-Ensures, Returns-weaken}
use distributed_ledger_and_t.Transactions.{DepositDto, deposit, withdraw}
use distributed_ledger_and_t.Transactions.Atomicity.{deposit_atomic, withdraw_atomic}
use distributed_ledger_and_t.Transactions.Guards.{IsUsable, deposit-Ensures, withdraw-Ensures}
use distributed_ledger_and_t.Transactions.Outcomes.{IsQuiet}
use distributed_ledger_and_t.Accounting.{balance_of, shown_balance, IsSound}
use distributed_ledger_and_t.Accounting.Effects.{own_id, sub_as_add, deposit_exact, withdraw_exact}
use distributed_ledger_and_t.Accounting.Success.{deposit_succeeds, withdraw_succeeds}
use distributed_ledger_and_t.Accounting.Bank.{
  put, deposit_to, withdraw_from, settle, holding, view, observe,
}
use distributed_ledger_and_t.Accounting.View.{view-set, same_row, observe-refused, observe-returned}
use distributed_ledger_and_t.Accounting.Refusals.{
  deposit_missing, deposit_inactive, deposit_mismatch, withdraw_missing, withdraw_inactive,
  withdraw_mismatch, withdraw_short,
}

pub not_less : (balance amount : ℤ) → ltb_ℤ balance amount ≡ false → amount ≤ℤ balance
not_less balance amount h = ground arith

module _ (env : Env) (dto : DepositDto) (w : World) (q : IsQuiet env w) (s : IsSound w.db)
    (positive : pos 1 ≤ℤ dto.amount)
    (small : balance_of dto.account_id w.accounts +ℤ dto.amount ≤ℤ max_safe_integer) where
  deposit-shows :
      (a : Account)
      → IsUsable dto.account_id dto.currency w a
      → Ensures
          (λ r v.
            view v.accounts
            ≡ put dto.account_id
                (record (holding a) { balance = a.balance +ℤ dto.amount })
                (view w.accounts))
          (deposit env dto w)
  deposit-shows a u = deposit-Ensures _ env dto w λ b at t rows e n v p.
      let found = own_id dto.account_id b w.accounts v.found in
      view-set dto.account_id at a b (add_number b.balance dto.amount) (a.balance +ℤ dto.amount)
        w.accounts u.found v.found
        (deposit_exact dto b w at s found positive
            (subst (λ x. x +ℤ dto.amount ≤ℤ max_safe_integer) (ap shown_balance v.found) small)
          ∙ ap (λ (c : Account). c.balance +ℤ dto.amount) (same_row _ u.found v.found))

  pub deposit-refines :
      observe (deposit env dto w)
      ≡ settle (view w.accounts) (deposit_to dto (view w.accounts) (view w.accounts dto.account_id))
  deposit-refines = elim (Option-cases (find_row dto.account_id w.accounts)) [
    | inl missing ↦ rw missing (
        observe-refused (deposit env dto w) w _ (deposit_missing env q.no_fault dto w missing)
          (deposit_atomic env w dto))
    | inr (a, found) ↦ elim (Bool-cases (is_active a.status)) [
      | inr blocked ↦
          rw (found, blocked)
            (observe-refused (deposit env dto w) w _
              (subst (λ id. (deposit env dto w).0 ≡ err (account_inactive id))
                (find_row-key dto.account_id w.accounts found)
                (deposit_inactive env q.no_fault dto w a found blocked))
              (deposit_atomic env w dto))
      | inl active ↦ elim (Bool-cases (str_eq a.currency dto.currency)) [
        | inr other ↦
            rw (found, active, other)
              (observe-refused (deposit env dto w) w _
                (deposit_mismatch env q.no_fault dto w a found active other)
                (deposit_atomic env w dto))
        | inl same ↦
            let u : IsUsable dto.account_id dto.currency w a = record {
              found = found;
              is_active = active;
              same_currency = (eq_iff a.currency dto.currency).0 same;
            } in
            rw (found, active, same)
              (rw active at (
                observe-returned (deposit env dto w) _ (
                  Returns-Ensures _ (deposit env dto w)
                    (Returns-weaken _ _ (deposit env dto w) (λ r v h. tt)
                      (deposit_succeeds env dto w q s positive a u small))
                    (deposit-shows a u))))
      ]
    ]
  ]

module _ (env : Env) (dto : DepositDto) (w : World) (q : IsQuiet env w) (s : IsSound w.db)
    (positive : pos 1 ≤ℤ dto.amount) where
  withdraw-shows :
      (a : Account)
      → IsUsable dto.account_id dto.currency w a
      → Ensures
          (λ r v.
            view v.accounts
            ≡ put dto.account_id
                (record (holding a) { balance = a.balance -ℤ dto.amount })
                (view w.accounts))
          (withdraw env dto w)
  withdraw-shows a u = withdraw-Ensures _ env dto w λ b at t rows e n v enough p.
      let found = own_id dto.account_id b w.accounts v.found in
      view-set dto.account_id at a b (sub_number b.balance dto.amount) (a.balance -ℤ dto.amount)
        w.accounts u.found v.found
        (withdraw_exact dto b w at s found positive enough
          ∙ sym (sub_as_add b.balance dto.amount)
          ∙ ap (λ (c : Account). c.balance -ℤ dto.amount) (same_row _ u.found v.found))

  pub withdraw-refines :
      observe (withdraw env dto w)
      ≡ settle
          (view w.accounts)
          (withdraw_from dto (view w.accounts) (view w.accounts dto.account_id))
  withdraw-refines = elim (Option-cases (find_row dto.account_id w.accounts)) [
    | inl missing ↦ rw missing (
        observe-refused (withdraw env dto w) w _ (withdraw_missing env q.no_fault dto w missing)
          (withdraw_atomic env w dto))
    | inr (a, found) ↦ elim (Bool-cases (is_active a.status)) [
      | inr blocked ↦
          rw (found, blocked)
            (observe-refused (withdraw env dto w) w _
              (subst (λ id. (withdraw env dto w).0 ≡ err (account_inactive id))
                (find_row-key dto.account_id w.accounts found)
                (withdraw_inactive env q.no_fault dto w a found blocked))
              (withdraw_atomic env w dto))
      | inl active ↦ elim (Bool-cases (str_eq a.currency dto.currency)) [
        | inr other ↦
            rw (found, active, other)
              (observe-refused (withdraw env dto w) w _
                (withdraw_mismatch env q.no_fault dto w a found active other)
                (withdraw_atomic env w dto))
        | inl same ↦ elim (Bool-cases (ltb_ℤ a.balance dto.amount)) [
          | inl short ↦
              rw (found, active, same, short)
                (observe-refused (withdraw env dto w) w _
                  (withdraw_short env q.no_fault dto w a found active same short)
                  (withdraw_atomic env w dto))
          | inr covered ↦
              let u : IsUsable dto.account_id dto.currency w a = record {
                found = found;
                is_active = active;
                same_currency = (eq_iff a.currency dto.currency).0 same;
              } in
              let enough =
                subst (λ x. dto.amount ≤ℤ x) (sym (ap shown_balance found))
                  (not_less a.balance dto.amount covered) in
              rw (found, active, same, covered)
                (rw active at (
                  observe-returned (withdraw env dto w) _ (
                    Returns-Ensures _ (withdraw env dto w)
                      (Returns-weaken _ _ (withdraw env dto w) (λ r v h. tt)
                        (withdraw_succeeds env dto w q s positive a u enough))
                      (withdraw-shows a u))))
        ]
      ]
    ]
  ]
