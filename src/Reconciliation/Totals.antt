-- ===== src/Reconciliation/Totals.antt =====
-- The sums of the reconciliation queries over a ledger that grows.
use distributed_ledger_and_t.Prelude.{
  ℤ, pos, ◌+ℤ◌, int_laws, List, [], ◌∷◌, ◌++◌, ◌≡◌, eqb, option_eqb, if◌then◌else◌, refl,
}
use distributed_ledger_and_t.Entities.{Uuid, LedgerEntry}
use distributed_ledger_and_t.Ledger.{EntryInput}
use distributed_ledger_and_t.Reconciliation.{
  ledger_balance, debit_total, credit_total, signed, debit_amount, credit_amount,
}
use distributed_ledger_and_t.Transactions.Posting.{AreRowsOf}

module _ (k : Uuid) where
  pub ledger_balance-append :
      (xs ys : List LedgerEntry)
      → ledger_balance k (xs ++ ys) ≡ ledger_balance k xs +ℤ ledger_balance k ys
  unfolding ledger_balance
  ledger_balance-append [] ys = omega int_laws
  ledger_balance-append (e ∷ es) ys = rw (ledger_balance-append es ys) (omega int_laws)

  pub debit_total-append :
      (xs ys : List LedgerEntry) → debit_total k (xs ++ ys) ≡ debit_total k xs +ℤ debit_total k ys
  unfolding debit_total
  debit_total-append [] ys = omega int_laws
  debit_total-append (e ∷ es) ys = rw (debit_total-append es ys) (omega int_laws)

  pub credit_total-append :
      (xs ys : List LedgerEntry)
      → credit_total k (xs ++ ys) ≡ credit_total k xs +ℤ credit_total k ys
  unfolding credit_total
  credit_total-append [] ys = omega int_laws
  credit_total-append (e ∷ es) ys = rw (credit_total-append es ys) (omega int_laws)

-- What the entries that are about to be written will add to the sums.
abbrev pub input_balance : Uuid → List EntryInput → ℤ
input_balance k [] = pos 0
input_balance k (e ∷ es) =
    (if option_eqb e.account_id k then signed e.entry_type e.amount else pos 0)
    +ℤ input_balance k es

abbrev pub input_debits : Uuid → List EntryInput → ℤ
input_debits k [] = pos 0
input_debits k (e ∷ es) =
    (if eqb e.transaction_id k then debit_amount e.entry_type e.amount else pos 0)
    +ℤ input_debits k es

abbrev pub input_credits : Uuid → List EntryInput → ℤ
input_credits k [] = pos 0
input_credits k (e ∷ es) =
    (if eqb e.transaction_id k then credit_amount e.entry_type e.amount else pos 0)
    +ℤ input_credits k es

module _ (k : Uuid) where
  pub ledger_balance-rows :
      (es : List EntryInput) (rows : List LedgerEntry)
      → AreRowsOf es rows
      → ledger_balance k rows ≡ input_balance k es
  unfolding ledger_balance
  ledger_balance-rows [] [] h = refl
  ledger_balance-rows [] (r ∷ rs) h = absurd h
  ledger_balance-rows (e ∷ es) [] h = absurd h
  ledger_balance-rows (e ∷ es) (r ∷ rs) (same, rest) =
      cc (same.1, same.3, same.4, ledger_balance-rows es rs rest)

  pub debit_total-rows :
      (es : List EntryInput) (rows : List LedgerEntry)
      → AreRowsOf es rows
      → debit_total k rows ≡ input_debits k es
  unfolding debit_total
  debit_total-rows [] [] h = refl
  debit_total-rows [] (r ∷ rs) h = absurd h
  debit_total-rows (e ∷ es) [] h = absurd h
  debit_total-rows (e ∷ es) (r ∷ rs) (same, rest) =
      cc (same.0, same.3, same.4, debit_total-rows es rs rest)

  pub credit_total-rows :
      (es : List EntryInput) (rows : List LedgerEntry)
      → AreRowsOf es rows
      → credit_total k rows ≡ input_credits k es
  unfolding credit_total
  credit_total-rows [] [] h = refl
  credit_total-rows [] (r ∷ rs) h = absurd h
  credit_total-rows (e ∷ es) [] h = absurd h
  credit_total-rows (e ∷ es) (r ∷ rs) (same, rest) =
      cc (same.0, same.3, same.4, credit_total-rows es rs rest)
