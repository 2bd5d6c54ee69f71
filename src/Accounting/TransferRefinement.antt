-- ===== src/Accounting/TransferRefinement.antt =====
-- Transfers of modules/transactions against the bank.
use mathlib.Core.Path.{subst₂}
use distributed_ledger_and_t.Prelude.{
  ℤ, pos, ◌+ℤ◌, ◌-ℤ◌, ◌≤ℤ◌, int_laws, ltb_ℤ, false, none, some, ◌≡◌, refl, sym, ap, subst, ◌∙◌, eqb,
  find_row, find_row-key, find_row-save_row, save_row, str_eq, eq_iff, Bool-cases, Option-cases,
  inl, inr,
}
use distributed_ledger_and_t.Common.Exceptions.{Exception, err, account_inactive}
use distributed_ledger_and_t.Common.Number.{max_safe_integer, add_number, sub_number}
use distributed_ledger_and_t.Entities.{Time, Account, is_active, account_row}
use distributed_ledger_and_t.Database.{World, Env}
use distributed_ledger_and_t.Database.Ensures.{Ensures, Returns-Ensures, Returns-weaken}
use distributed_ledger_and_t.Transactions.{TransferDto, transfer, stamp}
use distributed_ledger_and_t.Transactions.Atomicity.{transfer_atomic}
use distributed_ledger_and_t.Transactions.Guards.{IsUsable, transfer-Ensures}
use distributed_ledger_and_t.Transactions.Outcomes.{IsQuiet}
use distributed_ledger_and_t.Accounting.{balance_of, shown_balance, IsSound}
use distributed_ledger_and_t.Accounting.Effects.{own_id, sub_as_add, debit_exact, credit_exact}
use distributed_ledger_and_t.Accounting.TransferSuccess.{transfer_succeeds}
use distributed_ledger_and_t.Accounting.Bank.{
  Bank, put, transfer_between, settle, holding, view, observe,
}
use distributed_ledger_and_t.Accounting.View.{view-set, same_row, observe-refused, observe-returned}
use distributed_ledger_and_t.Accounting.Refinement.{not_less}
use distributed_ledger_and_t.Accounting.Refusals.{
  transfer_from_missing, transfer_to_missing, transfer_from_inactive, transfer_to_inactive,
  transfer_from_mismatch, transfer_to_mismatch, transfer_short,
}

module _ (env : Env) (dto : TransferDto) (w : World) (q : IsQuiet env w) (s : IsSound w.db)
    (positive : pos 1 ≤ℤ dto.amount)
    (differ : eqb dto.from_account_id dto.to_account_id ≡ false) where
  -- The bank after a transfer from `a` to `b`.
  abbrev moved_between : Account → Account → Bank
  moved_between a b =
      put dto.to_account_id (record (holding b) { balance = b.balance +ℤ dto.amount })
        (put dto.from_account_id (record (holding a) { balance = a.balance -ℤ dto.amount })
          (view w.accounts))

  found_after :
      (at : Time) (a : Account) (x : ℤ)
      → find_row dto.from_account_id w.accounts ≡ some a
      → find_row dto.to_account_id (save_row (stamp at (record a { balance = x })) w.accounts)
        ≡ find_row dto.to_account_id w.accounts
  found_after at a x found =
      find_row-save_row dto.to_account_id (stamp at (record a { balance = x })) w.accounts
      ∙ rw (find_row-key dto.from_account_id w.accounts found, differ) refl

  module _
      (together : balance_of dto.from_account_id w.accounts
          +ℤ balance_of dto.to_account_id w.accounts
        ≤ℤ max_safe_integer) where
    transfer-shows :
        (a b : Account)
        → IsUsable dto.from_account_id dto.currency w a
        → IsUsable dto.to_account_id dto.currency w b
        → Ensures (λ r v. view v.accounts ≡ moved_between a b) (transfer env dto w)
    transfer-shows a b u v = transfer-Ensures _ env dto w λ c d at t rows e n apart u' v' enough p.
        let found_c = own_id dto.from_account_id c w.accounts u'.found in
        let found_d = own_id dto.to_account_id d w.accounts v'.found in
        let same_c = same_row _ u.found u'.found in
        let both =
          subst₂ (λ x y. x +ℤ y ≤ℤ max_safe_integer) (ap shown_balance u'.found)
            (ap shown_balance v'.found) together in
        let room : d.balance +ℤ dto.amount ≤ℤ max_safe_integer = omega int_laws in
        let same_d = same_row _ v.found v'.found in
        view-set dto.to_account_id at b d (add_number d.balance dto.amount)
          (b.balance +ℤ dto.amount) _ (found_after at c _ u'.found ∙ v.found)
          (found_after at c _ u'.found ∙ v'.found)
          (credit_exact dto c d w at s found_c found_d positive enough room
            ∙ ap (λ (x : Account). x.balance +ℤ dto.amount) same_d)
        ∙ ap (put dto.to_account_id (record (holding b) { balance = b.balance +ℤ dto.amount })) (
            view-set dto.from_account_id at a c (sub_number c.balance dto.amount)
              (a.balance -ℤ dto.amount) w.accounts u.found u'.found
              (debit_exact dto c d w at s found_c found_d positive enough
                ∙ sym (sub_as_add c.balance dto.amount)
                ∙ ap (λ (x : Account). x.balance -ℤ dto.amount) same_c))

    transfer-accepts :
        (a b : Account)
        → IsUsable dto.from_account_id dto.currency w a
        → IsUsable dto.to_account_id dto.currency w b
        → dto.amount ≤ℤ a.balance
        → observe (transfer env dto w) ≡ (none, moved_between a b)
    transfer-accepts a b u v covered =
        let enough = subst (λ x. dto.amount ≤ℤ x) (sym (ap shown_balance u.found)) covered in
        observe-returned (transfer env dto w) _ (
          Returns-Ensures _ (transfer env dto w)
            (Returns-weaken _ _ (transfer env dto w) (λ r v h. tt)
              (transfer_succeeds env dto w q s positive a b u v differ enough together))
            (transfer-shows a b u v))

    -- The two rows are there.
    module _ (a b : Account) (from_found : find_row dto.from_account_id w.accounts ≡ some a)
        (to_found : find_row dto.to_account_id w.accounts ≡ some b) where
      answered :
          observe (transfer env dto w)
          ≡ settle
              (view w.accounts)
              (transfer_between dto (view w.accounts) (some (holding a)) (some (holding b)))
      answered = elim (Bool-cases (is_active a.status)) [
        | inr blocked ↦ rw blocked (
            refused _ (
              subst (λ id. (transfer env dto w).0 ≡ err (account_inactive id))
                (find_row-key dto.from_account_id w.accounts from_found)
                (transfer_from_inactive env q.no_fault dto w differ a b s.accounts_distinct
                  from_found to_found blocked)))
        | inl from_active ↦ elim (Bool-cases (is_active b.status)) [
          | inr blocked ↦
              rw (from_active, blocked)
                (refused _ (
                  subst (λ id. (transfer env dto w).0 ≡ err (account_inactive id))
                    (find_row-key dto.to_account_id w.accounts to_found)
                    (transfer_to_inactive env q.no_fault dto w differ a b s.accounts_distinct
                      from_found to_found from_active blocked)))
          | inl to_active ↦ elim (Bool-cases (str_eq a.currency dto.currency)) [
            | inr other ↦
                rw (from_active, to_active, other)
                  (refused _ (
                    transfer_from_mismatch env q.no_fault dto w differ a b s.accounts_distinct
                      from_found to_found from_active to_active other))
            | inl from_same ↦ elim (Bool-cases (str_eq b.currency dto.currency)) [
              | inr other ↦
                  rw (from_active, to_active, from_same, other)
                    (refused _ (
                      transfer_to_mismatch env q.no_fault dto w differ a b s.accounts_distinct
                        from_found to_found from_active to_active from_same other))
              | inl to_same ↦ elim (Bool-cases (ltb_ℤ a.balance dto.amount)) [
                | inl short ↦
                    rw (from_active, to_active, from_same, to_same, short)
                      (refused _ (
                        transfer_short env q.no_fault dto w differ a b s.accounts_distinct
                          from_found to_found from_active to_active from_same to_same short))
                | inr covered ↦
                    rw (from_active, to_active, from_same, to_same, covered)
                      (rw (from_active, to_active) at
                        (transfer-accepts a b
                          (record {
                            found = from_found;
                            is_active = from_active;
                            same_currency = (eq_iff a.currency dto.currency).0 from_same;
                          })
                          (record {
                            found = to_found;
                            is_active = to_active;
                            same_currency = (eq_iff b.currency dto.currency).0 to_same;
                          })
                          (not_less a.balance dto.amount covered)))
              ]
            ]
          ]
        ]
      ]
        where
          refused :
              (e : Exception)
              → (transfer env dto w).0 ≡ err e
              → observe (transfer env dto w) ≡ (some e, view w.accounts)
          refused e thrown =
              observe-refused (transfer env dto w) w e thrown (transfer_atomic env w dto)

    -- Over sound books, with no failing statement and fresh uuids, a transfer of at least 1 between two
    -- different ids, their balances together at most 2^53 - 1, is that of the bank: the same exception, or
    -- none, and the same accounts afterwards.
    pub transfer-refines :
        observe (transfer env dto w)
        ≡ settle (view w.accounts) (
            transfer_between dto
              (view w.accounts)
              (view w.accounts dto.from_account_id)
              (view w.accounts dto.to_account_id))
    transfer-refines = elim (Option-cases (find_row dto.from_account_id w.accounts)) [
      | inl missing ↦ rw missing (
          observe-refused (transfer env dto w) w _
            (transfer_from_missing env q.no_fault dto w differ missing) (transfer_atomic env w dto))
      | inr (a, from_found) ↦ elim (Option-cases (find_row dto.to_account_id w.accounts)) [
        | inl missing ↦
            rw (from_found, missing)
              (observe-refused (transfer env dto w) w _
                (transfer_to_missing env q.no_fault dto w differ a from_found missing)
                (transfer_atomic env w dto))
        | inr (b, to_found) ↦ rw (from_found, to_found) (answered a b from_found to_found)
      ]
    ]
