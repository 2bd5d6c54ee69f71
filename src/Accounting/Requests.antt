-- ===== src/Accounting/Requests.antt =====
-- Sequences of requests to modules/accounts and modules/transactions.
use distributed_ledger_and_t.Prelude.{
  ℤ, pos, ◌+ℤ◌, ◌≤ℤ◌, int_laws, List, [], ◌∷◌, ◌++◌, ◌≡◌, refl, sym, ap, subst, ◌∙◌, arith,
  has_row-none, append-Distinct, eqb, All, Bool-cases, inl, inr,
}
use distributed_ledger_and_t.Common.Exceptions.{Exception, Result, err}
use distributed_ledger_and_t.Common.Number.{max_safe_integer}
use distributed_ledger_and_t.Entities.{Uuid, Account, TransactionResponse, account_row}
use distributed_ledger_and_t.Database.{Db, World, Env, ◌>>=◌}
use distributed_ledger_and_t.Database.Ensures.{
  Ensures, Ensures-bind, Ensures-statement, Ensures-weaken, all_or_nothing,
}
use distributed_ledger_and_t.Accounts.{
  CreateAccountDto, new_account, insert_account, create_account,
}
use distributed_ledger_and_t.Transactions.{DepositDto, TransferDto, deposit, withdraw, transfer}
use distributed_ledger_and_t.Transactions.Atomicity.{
  deposit_atomic, withdraw_atomic, transfer_atomic, transfer_same,
}
use distributed_ledger_and_t.Accounting.{balance_of, total_balance, IsSound}
use distributed_ledger_and_t.Accounting.Soundness.{
  deposit-IsSound, withdraw-IsSound, transfer-IsSound,
}
use distributed_ledger_and_t.Accounting.Totals.{
  IsSound-AreNonneg, balance_of-le-total, two_balances-le-total,
}
use distributed_ledger_and_t.Accounting.Movements.{
  deposit-IsDeposit, withdraw-IsWithdrawal, transfer-IsTransfer,
}

pub data Request : Type 0 where
  create_account_request : CreateAccountDto → Request
  deposit_request : DepositDto → Request
  withdraw_request : DepositDto → Request
  transfer_request : TransferDto → Request

-- `@Min(1)` on the amounts.
abbrev pub IsValid : Request → Type 0
IsValid (create_account_request dto) = Unit
IsValid (deposit_request dto) = pos 1 ≤ℤ dto.amount
IsValid (withdraw_request dto) = pos 1 ≤ℤ dto.amount
IsValid (transfer_request dto) = pos 1 ≤ℤ dto.amount

-- The state after a request, whatever its answer.
unfoldable pub perform : Env → Request → World → World
perform env (create_account_request dto) w = (create_account env dto w).1
perform env (deposit_request dto) w = (deposit env dto w).1
perform env (withdraw_request dto) w = (withdraw env dto w).1
perform env (transfer_request dto) w = (transfer env dto w).1

unfoldable pub serve : Env → List Request → World → World
serve env [] w = w
serve env (r ∷ rs) w = serve env rs (perform env r w)

-- What the deposits of a sequence of requests can add.
abbrev pub deposit_amount : Request → ℤ
deposit_amount (create_account_request dto) = pos 0
deposit_amount (deposit_request dto) = dto.amount
deposit_amount (withdraw_request dto) = pos 0
deposit_amount (transfer_request dto) = pos 0

abbrev pub deposit_amounts : List Request → ℤ
deposit_amounts [] = pos 0
deposit_amounts (r ∷ rs) = deposit_amount r +ℤ deposit_amounts rs

-- A new account has a balance of zero, and no entry of the ledger is its own.
balance_of-append_zero :
    (k : Uuid) (a : Account) (accounts : List Account)
    → a.balance ≡ pos 0
    → balance_of k (accounts ++ a ∷ []) ≡ balance_of k accounts
balance_of-append_zero k a [] e = ground arith
balance_of-append_zero k a (x ∷ xs) e = ground (arith, balance_of-append_zero k a xs e)

total_balance-append_zero :
    (a : Account) (accounts : List Account)
    → a.balance ≡ pos 0
    → total_balance (accounts ++ a ∷ []) ≡ total_balance accounts
total_balance-append_zero a [] e = rw e (omega int_laws)
total_balance-append_zero a (x ∷ xs) e = ap (λ t. x.balance +ℤ t) (total_balance-append_zero a xs e)

plus_zero : (t : ℤ) → t ≡ t +ℤ pos 0
plus_zero t = omega int_laws

create_account-IsSound :
    (env : Env) (dto : CreateAccountDto) (w : World)
    → IsSound w.db
    → Ensures
        (λ r v. IsSound v.db × (total_balance v.accounts ≡ total_balance w.accounts +ℤ pos 0))
        (create_account env dto w)
unfolding create_account insert_account
create_account-IsSound env dto w s = Ensures-bind _ _ _ w (
    Ensures-statement _ env _ (new_account env dto w) _ w λ fresh.
      let id = env.gen_random_uuid w.step in
      let same = λ (k : Uuid). balance_of-append_zero k (new_account env dto w) w.accounts refl in
      (
        record {
          accounts_distinct =
              append-Distinct w.accounts (new_account env dto w) (has_row-none id w.accounts fresh)
                s.accounts_distinct;
          transactions_distinct = s.transactions_distinct;
          nonneg = λ k. subst (λ b. pos 0 ≤ℤ b) (sym (same k)) (s.nonneg k);
          safe = λ k. subst (λ b. b ≤ℤ max_safe_integer) (sym (same k)) (s.safe k);
          matches = λ k. same k ∙ s.matches k;
          balanced = s.balanced;
        },
        total_balance-append_zero (new_account env dto w) w.accounts refl
            ∙ plus_zero (total_balance w.accounts),
      ))

create_account_atomic :
    (env : Env) (dto : CreateAccountDto) (w : World) (e : Exception)
    → (create_account env dto w).0 ≡ err e
    → (create_account env dto w).1.db ≡ w.db
unfolding create_account insert_account ◌>>=◌
create_account_atomic env dto w e h = ground arith

at_most : (a b : ℤ) → a ≡ b → a ≤ℤ b
at_most a b e = subst (λ t. a ≤ℤ t) e (omega arith)

pub deposit_amounts_nonneg : (rs : List Request) → All IsValid rs → pos 0 ≤ℤ deposit_amounts rs
deposit_amounts_nonneg [] valid = omega arith
deposit_amounts_nonneg (create_account_request dto ∷ rs) valid =
    let rest = deposit_amounts_nonneg rs valid.1 in omega int_laws
deposit_amounts_nonneg (deposit_request dto ∷ rs) valid =
    let rest = deposit_amounts_nonneg rs valid.1 in omega int_laws
deposit_amounts_nonneg (withdraw_request dto ∷ rs) valid =
    let rest = deposit_amounts_nonneg rs valid.1 in omega int_laws
deposit_amounts_nonneg (transfer_request dto ∷ rs) valid =
    let rest = deposit_amounts_nonneg rs valid.1 in omega int_laws

-- The books are sound, and all balances together are at most `limit`.
abbrev pub IsSoundWithin : ℤ → Db → Type 0
IsSoundWithin limit db = IsSound db × (total_balance db.accounts ≤ℤ limit)

exactly :
    (limit : ℤ) (db : Db) → IsSound db → total_balance db.accounts ≡ limit → IsSoundWithin limit db
exactly limit db s e = (s, subst (λ t. total_balance db.accounts ≤ℤ t) e (omega arith))

pub perform_lem :
    (env : Env) (r : Request) (w : World)
    → IsValid r
    → IsSound w.db
    → total_balance w.accounts +ℤ deposit_amount r ≤ℤ max_safe_integer
    → IsSoundWithin (total_balance w.accounts +ℤ deposit_amount r) (perform env r w).db
unfolding perform
perform_lem env (create_account_request dto) w valid s small =
    all_or_nothing (IsSoundWithin _) w (create_account env dto w) (create_account_atomic env dto w)
      (s, omega int_laws)
      (Ensures-weaken _ _ (create_account env dto w) (λ a v h. exactly _ v.db h.0 h.1)
        (create_account-IsSound env dto w s))
perform_lem env (deposit_request dto) w valid s small =
    let bound = balance_of-le-total dto.account_id w.accounts (IsSound-AreNonneg w.db s) in
    (
      deposit-IsSound env dto w s valid (omega int_laws),
      all_or_nothing (λ db. total_balance db.accounts ≤ℤ total_balance w.accounts +ℤ dto.amount) w
          (deposit env dto w) (deposit_atomic env w dto) (omega int_laws)
          (Ensures-weaken _ _ (deposit env dto w) (λ a v h. at_most _ _ h.total)
            (deposit-IsDeposit env dto w s valid (omega int_laws))),
    )
perform_lem env (withdraw_request dto) w valid s small = (
  withdraw-IsSound env dto w s valid,
  all_or_nothing (λ db. total_balance db.accounts ≤ℤ total_balance w.accounts +ℤ pos 0) w
      (withdraw env dto w) (withdraw_atomic env w dto) (omega int_laws)
      (Ensures-weaken _ _ (withdraw env dto w)
        (λ a v h. let e = at_most _ _ h.1.total in omega int_laws)
        (withdraw-IsWithdrawal env dto w s valid)),
)
perform_lem env (transfer_request dto) w valid s small =
    elim (Bool-cases (eqb dto.from_account_id dto.to_account_id)) [
      | inl same ↦
          subst
            (λ (o : Result TransactionResponse × World).
              IsSoundWithin (total_balance w.accounts +ℤ pos 0) o.1.db)
            (sym (transfer_same env w dto same)) (s, omega int_laws)
      | inr differ ↦
          let bound =
            two_balances-le-total dto.from_account_id dto.to_account_id w.accounts differ
              (IsSound-AreNonneg w.db s) in
          (
            transfer-IsSound env dto w s valid (omega int_laws),
            all_or_nothing (λ db. total_balance db.accounts ≤ℤ total_balance w.accounts +ℤ pos 0) w
                (transfer env dto w) (transfer_atomic env w dto) (omega int_laws)
                (Ensures-weaken _ _ (transfer env dto w) (λ a v h. at_most _ _ h.1.total)
                  (transfer-IsTransfer env dto w s valid (omega int_laws))),
          )
    ]

-- Requests to create accounts, deposit, withdraw and transfer, with amounts of at least 1 and
-- whatever their order and answers, keep the books sound, if all balances and all deposits together
-- are at most 2^53 - 1: no balance becomes negative, every balance is that of the ledger, and every
-- transaction's debits are its credits.
pub serve-IsSound :
    (env : Env) (rs : List Request) (w : World)
    → All IsValid rs
    → IsSound w.db
    → total_balance w.accounts +ℤ deposit_amounts rs ≤ℤ max_safe_integer
    → IsSound (serve env rs w).db
unfolding serve
serve-IsSound env [] w valid s small = s
serve-IsSound env (r ∷ rs) w valid s small =
    let rest = deposit_amounts_nonneg rs valid.1 in
    let step = perform_lem env r w valid.0 s (omega int_laws) in
    serve-IsSound env rs (perform env r w) valid.1 step.0 (let bound = step.1 in omega int_laws)
