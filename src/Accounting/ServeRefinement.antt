-- ===== src/Accounting/ServeRefinement.antt =====
-- Sequences of requests to modules/accounts and modules/transactions against the bank.
use mathlib.Core.Option
use distributed_ledger_and_t.Prelude.{
  ◌+ℤ◌, ◌≤ℤ◌, int_laws, Option, none, List, [], ◌∷◌, ◌≡◌, sym, ap, arith, All, eqb, find_row,
  has_row-none, Bool-cases, inl, inr,
}
use distributed_ledger_and_t.Common.Exceptions.{Exception, Result, ok, err}
use distributed_ledger_and_t.Common.Number.{max_safe_integer}
use distributed_ledger_and_t.Entities.{account_row}
use distributed_ledger_and_t.Database.{World, Env, ◌>>=◌}
use distributed_ledger_and_t.Database.Unused.{Advances}
use distributed_ledger_and_t.Accounts.{
  CreateAccountDto, new_account, insert_account, create_account,
}
use distributed_ledger_and_t.Transactions.{deposit, withdraw, transfer}
use distributed_ledger_and_t.Transactions.Atomicity.{transfer_same}
use distributed_ledger_and_t.Transactions.Outcomes.{IsQuiet}
use distributed_ledger_and_t.Transactions.Requests.{
  deposit-Advances, withdraw-Advances, transfer-Advances, create_account-Advances,
}
use distributed_ledger_and_t.Accounting.{total_balance, IsSound}
use distributed_ledger_and_t.Accounting.Totals.{
  IsSound-AreNonneg, balance_of-le-total, two_balances-le-total,
}
use distributed_ledger_and_t.Accounting.Requests.{
  Request, create_account_request, deposit_request, withdraw_request, transfer_request, IsValid,
  perform, serve, deposit_amount, deposit_amounts, deposit_amounts_nonneg, perform_lem,
}
use distributed_ledger_and_t.Accounting.Bank.{
  Bank, open_account, respond, settle, Serves, idle, serves, holding, view, observe,
}
use distributed_ledger_and_t.Accounting.View.{view-append}
use distributed_ledger_and_t.Accounting.Refinement.{deposit-refines, withdraw-refines}
use distributed_ledger_and_t.Accounting.TransferRefinement.{transfer-refines}

-- The exception that answers a request, if one does.
unfoldable pub answer : Env → Request → World → Option Exception
answer env (create_account_request dto) w = (observe (create_account env dto w)).0
answer env (deposit_request dto) w = (observe (deposit env dto w)).0
answer env (withdraw_request dto) w = (observe (withdraw env dto w)).0
answer env (transfer_request dto) w = (observe (transfer env dto w)).0

-- The answers to a sequence of requests, one after the other.
unfoldable pub answers : Env → List Request → World → List (Option Exception)
answers env [] w = []
answers env (r ∷ rs) w = answer env r w ∷ answers env rs (perform env r w)

pub perform-Advances :
    (env : Env) (r : Request) (w : World) → IsQuiet env w → Advances env w (perform env r w)
unfolding perform
perform-Advances env (create_account_request dto) w q =
    create_account-Advances env q.draws_once dto w q.unused
perform-Advances env (deposit_request dto) w q = deposit-Advances env q.draws_once dto w q.unused
perform-Advances env (withdraw_request dto) w q = withdraw-Advances env q.draws_once dto w q.unused
perform-Advances env (transfer_request dto) w q = transfer-Advances env q.draws_once dto w q.unused

pub perform-IsQuiet :
    (env : Env) (r : Request) (w : World) → IsQuiet env w → IsQuiet env (perform env r w)
perform-IsQuiet env r w q = record {
  no_fault = q.no_fault;
  draws_once = q.draws_once;
  unused = (perform-Advances env r w q).unused;
}

shown {ℓ} :
    {A : Type ℓ} (o : Result A × World) {c : Option Exception × Bank}
    → observe o ≡ c
    → ((observe o).0, view o.1.accounts) ≡ c
shown (ok a, v) h = h
shown (err e, v) h = h

new_unused :
    (env : Env) (w : World)
    → IsQuiet env w
    → find_row (env.gen_random_uuid w.step) w.accounts ≡ none
new_unused env w q = has_row-none _ w.accounts (q.unused.accounts w.step (omega arith))

create_account-refines :
    (env : Env) (dto : CreateAccountDto) (w : World)
    → IsQuiet env w
    → observe (create_account env dto w)
      ≡ (none, open_account (env.gen_random_uuid w.step) dto (view w.accounts))
unfolding create_account insert_account ◌>>=◌
create_account-refines env dto w q =
    rw (q.no_fault w.step, q.unused.accounts w.step (omega arith))
      (ap (λ (b : Bank). (none, b))
        (view-append (new_account env dto w) w.accounts (new_unused env w q)))

perform-refines :
    (env : Env) (r : Request) (w : World)
    → IsValid r
    → IsQuiet env w
    → IsSound w.db
    → total_balance w.accounts +ℤ deposit_amount r ≤ℤ max_safe_integer
    → settle (view w.accounts) (respond (env.gen_random_uuid w.step) r (view w.accounts))
      ≡ (answer env r w, view (perform env r w).accounts)
unfolding perform answer
perform-refines env (create_account_request dto) w valid q s small =
    sym (shown (create_account env dto w) (create_account-refines env dto w q))
perform-refines env (deposit_request dto) w valid q s small =
    let bound = balance_of-le-total dto.account_id w.accounts (IsSound-AreNonneg w.db s) in
    sym (shown (deposit env dto w) (deposit-refines env dto w q s valid (omega int_laws)))
perform-refines env (withdraw_request dto) w valid q s small =
    sym (shown (withdraw env dto w) (withdraw-refines env dto w q s valid))
perform-refines env (transfer_request dto) w valid q s small =
    elim (Bool-cases (eqb dto.from_account_id dto.to_account_id)) [
      | inl same ↦
          rw same (sym (shown (transfer env dto w) (ap observe (transfer_same env w dto same))))
      | inr differ ↦
          let bound =
            two_balances-le-total dto.from_account_id dto.to_account_id w.accounts differ
              (IsSound-AreNonneg w.db s) in
          rw differ (
            sym (
              shown (transfer env dto w)
                (transfer-refines env dto w q s valid differ (omega int_laws))))
    ]

-- Over sound books, with no failing statement and fresh uuids, with amounts of at least 1, and all
-- balances and all deposits together at most 2^53 - 1: a sequence of requests to create accounts,
-- deposit, withdraw and transfer, whatever they ask, is a run of the bank. Each request is answered by
-- the exception that the bank answers, or by none when the bank accepts it, and the table of accounts
-- then shows the currency, balance and activity of every account as the bank has them.
pub serve_refines :
    (env : Env) (rs : List Request) (w : World)
    → All IsValid rs
    → IsQuiet env w
    → IsSound w.db
    → total_balance w.accounts +ℤ deposit_amounts rs ≤ℤ max_safe_integer
    → Serves (view w.accounts) rs (answers env rs w) (view (serve env rs w).accounts)
unfolding serve answers
serve_refines env [] w valid q s small = idle (view w.accounts)
serve_refines env (r ∷ rs) w valid q s small =
    let rest = deposit_amounts_nonneg rs valid.1 in
    let sound = perform_lem env r w valid.0 s (omega int_laws) in
    serves (view w.accounts) (view (perform env r w).accounts) _ r rs (answer env r w) _
      (env.gen_random_uuid w.step) (ap (Option.map holding) (new_unused env w q))
      (perform-refines env r w valid.0 q s (omega int_laws))
      (serve_refines env rs (perform env r w) valid.1 (perform-IsQuiet env r w q) sound.0
        (let bound = sound.1 in omega int_laws))
