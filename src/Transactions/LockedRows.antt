-- ===== src/Transactions/LockedRows.antt =====
-- The rows that modules/transactions has locked, and the uuids drawn until then.
use distributed_ledger_and_t.Prelude.{
  suc, true, Option, none, some, List, [], ◌∷◌, ◌≡◌, refl, sym, ◌∙◌, subst, arith, has_row,
  has_row-key, find_row, find_row-key, sort_by, leb,
}
use distributed_ledger_and_t.Common.Exceptions.{Exception, Result, ok}
use distributed_ledger_and_t.Entities.{Uuid, Account, account_row}
use distributed_ledger_and_t.Database.{Db, World, Env, or_throw}
use distributed_ledger_and_t.Database.Cases.{statement-cases}
use distributed_ledger_and_t.Database.Unused.{IsUnused, DrawsOnce, IsUnused-later, Advances}
use distributed_ledger_and_t.Transactions.{
  TransferDto, lock_account, lock_accounts, accounts_by_id, is_in, transfer_accounts,
}
use distributed_ledger_and_t.Transactions.Guards.{find_row-accounts_by_id, from_is_in, to_is_in}
use distributed_ledger_and_t.Transactions.Draws.{AreRows}

pub unchanged : (env : Env) (w : World) → IsUnused env w.step w.db → Advances env w w
unchanged env w u = record { later = omega arith; unused = u }

or_throw-ok :
    (o : Option Account) (e : Exception) (w : World) (a : Account)
    → (or_throw o e w).0 ≡ ok a
    → o ≡ some a
unfolding or_throw
or_throw-ok none e w a h = cc
or_throw-ok (some b) e w a h = cc

or_throw-same : (o : Option Account) (e : Exception) (w : World) → (or_throw o e w).1 ≡ w
unfolding or_throw
or_throw-same none e w = refl
or_throw-same (some b) e w = refl

same_result {ℓ} : {A : Type ℓ} {a b : A} → ◌≡◌ {A = Result A} (ok a) (ok b) → a ≡ b
same_result e = cc

-- The row that a request found, and what it locked, are still there.
module _ (env : Env) (once : DrawsOnce env) where
  lock_account-ok :
      (id : Uuid) (w : World) (found : Option Account)
      → (lock_account env id w).0 ≡ ok found
      → (find_row id w.accounts ≡ found) × ((lock_account env id w).1.db ≡ w.db)
  unfolding lock_account
  lock_account-ok id w found =
      statement-cases (λ o. o.0 ≡ ok found → (find_row id w.accounts ≡ found) × (o.1.db ≡ w.db)) env
        _ _ _ _ (λ e. absurd (ground arith)) (λ q p e. (same_result e, refl))

  pub lock_account-Advances :
      (id : Uuid) (w : World) → IsUnused env w.step w.db → Advances env w (lock_account env id w).1
  unfolding lock_account
  lock_account-Advances id w u =
      let later = IsUnused-later env w.step (suc w.step) w.db (omega arith) u in
      statement-cases (λ o. Advances env w o.1) env _ _ _ _
        (record { later = omega arith; unused = later })
        (λ q p. record { later = omega arith; unused = later })

  lock_accounts-ok :
      (ids : List Uuid) (w : World) (found : List Account)
      → (lock_accounts env ids w).0 ≡ ok found
      → (accounts_by_id ids w.accounts ≡ found) × ((lock_accounts env ids w).1.db ≡ w.db)
  unfolding lock_accounts
  lock_accounts-ok ids w found =
      statement-cases
        (λ o. o.0 ≡ ok found → (accounts_by_id ids w.accounts ≡ found) × (o.1.db ≡ w.db)) env _ _ _
        _ (λ e. absurd (ground arith)) (λ q p e. (same_result e, refl))

  pub lock_accounts-Advances :
      (ids : List Uuid) (w : World)
      → IsUnused env w.step w.db
      → Advances env w (lock_accounts env ids w).1
  unfolding lock_accounts
  lock_accounts-Advances ids w u =
      let later = IsUnused-later env w.step (suc w.step) w.db (omega arith) u in
      statement-cases (λ o. Advances env w o.1) env _ _ _ _
        (record { later = omega arith; unused = later })
        (λ q p. record { later = omega arith; unused = later })

  pub or_throw-Advances :
      (o : Option Account) (e : Exception) (w : World)
      → IsUnused env w.step w.db
      → Advances env w (or_throw o e w).1
  or_throw-Advances o e w u = subst (Advances env w) (sym (or_throw-same o e w)) (unchanged env w u)

  -- What is found under its id is a row.
  found-IsRow :
      (k : Uuid) (a : Account) (table : List Account)
      → find_row k table ≡ some a
      → has_row a.id table ≡ true
  found-IsRow k a table found =
      has_row-key a.id table
        (subst (λ i. find_row i table ≡ some a) (sym (find_row-key k table found)) found)

  -- The state after the rows of an account were locked and the account was found.
  module _ (id : Uuid) (e : Exception) (w : World) (found : Option Account) (a : Account)
      (locked : (lock_account env id w).0 ≡ ok found)
      (got : (or_throw found e (lock_account env id w).1).0 ≡ ok a) where
    pub still_there : has_row a.id (or_throw found e (lock_account env id w).1).1.accounts ≡ true
    still_there =
        let (same, db) = lock_account-ok id w found locked in
        subst (λ (v : World). has_row a.id v.accounts ≡ true) (sym (or_throw-same found e _))
          (subst (λ (b : Db). has_row a.id b.accounts ≡ true) (sym db)
            (found-IsRow id a w.accounts (same ∙ or_throw-ok found e _ a got)))

  -- A row of the selection is a row of the table.
  selected-IsRow :
      (k a b : Uuid) (account : Account) (w : World)
      → is_in k (sort_by leb (a ∷ b ∷ [])) ≡ true
      → find_row k (accounts_by_id (sort_by leb (a ∷ b ∷ [])) w.accounts) ≡ some account
      → has_row account.id w.accounts ≡ true
  selected-IsRow k a b account w among found =
      found-IsRow k account w.accounts (sym (find_row-accounts_by_id k _ w.accounts among) ∙ found)

  -- The state after both rows of a transfer were locked and found.
  module _ (dto : TransferDto) (e : Exception) (w : World) (found : List Account) (a b : Account)
      (locked : (lock_accounts env (sort_by leb (dto.from_account_id ∷ dto.to_account_id ∷ [])) w).0
        ≡ ok found) where
    abbrev ids : List Uuid
    ids = sort_by leb (dto.from_account_id ∷ dto.to_account_id ∷ [])

    abbrev after : World
    after = (lock_accounts env ids w).1

    abbrev after_from : World
    after_from = (or_throw (find_row dto.from_account_id found) e after).1

    one_there :
        (k : Uuid) (x : Account)
        → is_in k ids ≡ true
        → find_row k found ≡ some x
        → has_row x.id w.accounts ≡ true
    one_there k x among got = selected-IsRow k dto.from_account_id dto.to_account_id x w among (
        subst (λ (l : List Account). find_row k l ≡ some x)
          (sym (lock_accounts-ok ids w found locked).0) got)

    pub both_there :
        (or_throw (find_row dto.from_account_id found) e after).0 ≡ ok a
        → (or_throw (find_row dto.to_account_id found) e after_from).0 ≡ ok b
        → AreRows
            (transfer_accounts dto a b)
            (or_throw (find_row dto.to_account_id found) e after_from).1.accounts
    both_there got_a got_b =
        let (_, db) = lock_accounts-ok ids w found locked in
        subst (λ (v : World). AreRows (transfer_accounts dto a b) v.accounts)
          (sym (or_throw-same (find_row dto.to_account_id found) e after_from))
          (subst (λ (v : World). AreRows (transfer_accounts dto a b) v.accounts)
            (sym (or_throw-same (find_row dto.from_account_id found) e after))
            (subst (λ (d : Db). AreRows (transfer_accounts dto a b) d.accounts) (sym db)
              (
                one_there dto.from_account_id a (from_is_in dto.from_account_id dto.to_account_id)
                    (or_throw-ok (find_row dto.from_account_id found) e after a got_a),
                (
                  one_there dto.to_account_id b (to_is_in dto.from_account_id dto.to_account_id)
                      (or_throw-ok (find_row dto.to_account_id found) e after_from b got_b),
                  tt,
                ),
              )))
