-- ===== src/Reconciliation/Sums.antt =====
-- The sums of the queries of modules/reconciliation/reconciliation.service.ts.
use distributed_ledger_and_t.Prelude.{
  ℤ, pos, ◌+ℤ◌, ◌-ℤ◌, int_laws, Bool, true, false, Option, none, some, List, [], ◌∷◌, ◌≡◌, refl,
  eqb, option_eqb, ◌&&◌, if◌then◌else◌,
}
use distributed_ledger_and_t.Entities.{Uuid, LedgerEntry, LedgerEntryType}
use distributed_ledger_and_t.Reconciliation.{
  ledger_balance, debit_total, credit_total, signed, debit_amount, credit_amount,
}

-- The amounts of the entries that pass a test, together.
abbrev pub sum_of : (LedgerEntry → Bool) → List LedgerEntry → ℤ
sum_of test [] = pos 0
sum_of test (e ∷ es) = if test e then e.amount +ℤ sum_of test es else sum_of test es

abbrev pub is_of_type : LedgerEntryType → LedgerEntryType → Bool
is_of_type LedgerEntryType.debit LedgerEntryType.debit = true
is_of_type LedgerEntryType.credit LedgerEntryType.credit = true
is_of_type _ _ = false

abbrev pub names : Uuid → Option Uuid → Bool
names k none = false
names k (some id) = eqb id k

-- The entries of one type on an account, and those in a transaction.
abbrev pub on_account : Uuid → LedgerEntryType → LedgerEntry → Bool
on_account k type e = names k e.account_id && is_of_type type e.entry_type

abbrev pub within_transaction : Uuid → LedgerEntryType → LedgerEntry → Bool
within_transaction t type e = eqb e.transaction_id t && is_of_type type e.entry_type

option_eqb-names : (x : Option Uuid) (k : Uuid) → option_eqb x k ≡ names k x
option_eqb-names none k = refl
option_eqb-names (some id) k = refl

-- What one entry adds to each sum.
one_signed :
    (passed : Bool) (type : LedgerEntryType) (a c d : ℤ)
    → (if passed then signed type a else pos 0) +ℤ (c -ℤ d)
      ≡ (if passed && is_of_type LedgerEntryType.credit type then a +ℤ c else c)
        -ℤ (if passed && is_of_type LedgerEntryType.debit type then a +ℤ d else d)
one_signed false type a c d = omega int_laws
one_signed true LedgerEntryType.credit a c d = omega int_laws
one_signed true LedgerEntryType.debit a c d = omega int_laws

one_debit :
    (passed : Bool) (type : LedgerEntryType) (a x : ℤ)
    → (if passed then debit_amount type a else pos 0) +ℤ x
      ≡ (if passed && is_of_type LedgerEntryType.debit type then a +ℤ x else x)
one_debit false type a x = omega int_laws
one_debit true LedgerEntryType.credit a x = omega int_laws
one_debit true LedgerEntryType.debit a x = refl

one_credit :
    (passed : Bool) (type : LedgerEntryType) (a x : ℤ)
    → (if passed then credit_amount type a else pos 0) +ℤ x
      ≡ (if passed && is_of_type LedgerEntryType.credit type then a +ℤ x else x)
one_credit false type a x = omega int_laws
one_credit true LedgerEntryType.credit a x = refl
one_credit true LedgerEntryType.debit a x = omega int_laws

pub ledger_balance-sum_of :
    (k : Uuid) (es : List LedgerEntry)
    → ledger_balance k es
      ≡ sum_of (on_account k LedgerEntryType.credit) es
        -ℤ sum_of (on_account k LedgerEntryType.debit) es
unfolding ledger_balance
ledger_balance-sum_of k [] = omega int_laws
ledger_balance-sum_of k (e ∷ es) =
    rw (option_eqb-names e.account_id k, ledger_balance-sum_of k es)
      (one_signed (names k e.account_id) e.entry_type e.amount _ _)

pub debit_total-sum_of :
    (t : Uuid) (es : List LedgerEntry)
    → debit_total t es ≡ sum_of (within_transaction t LedgerEntryType.debit) es
unfolding debit_total
debit_total-sum_of t [] = refl
debit_total-sum_of t (e ∷ es) =
    rw (debit_total-sum_of t es) (one_debit (eqb e.transaction_id t) e.entry_type e.amount _)

pub credit_total-sum_of :
    (t : Uuid) (es : List LedgerEntry)
    → credit_total t es ≡ sum_of (within_transaction t LedgerEntryType.credit) es
unfolding credit_total
credit_total-sum_of t [] = refl
credit_total-sum_of t (e ∷ es) =
    rw (credit_total-sum_of t es) (one_credit (eqb e.transaction_id t) e.entry_type e.amount _)
