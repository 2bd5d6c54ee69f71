-- ===== src/Transactions/Requests.antt =====
-- The uuids that the operations of modules/transactions and modules/accounts draw.
use distributed_ledger_and_t.Prelude.{
  suc, [], ◌∷◌, arith, has_row-append, find_row, eqb, Bool-cases, inl, inr, sort_by, leb,
}
use distributed_ledger_and_t.Entities.{account_row}
use distributed_ledger_and_t.Database.{World, Env, throw_if}
use distributed_ledger_and_t.Database.Cases.{statement-cases}
use distributed_ledger_and_t.Database.Unused.{
  IsUnused, with_accounts, DrawsOnce, IsUnused-later, draws-differ, Advances, bind-Advances,
  in_transaction-Draws,
}
use distributed_ledger_and_t.Accounts.{
  CreateAccountDto, new_account, insert_account, create_account,
}
use distributed_ledger_and_t.Transactions.{
  DepositDto, TransferDto, assert_active_account, assert_currency, assert_sufficient_funds, deposit,
  withdraw, transfer,
}
use distributed_ledger_and_t.Transactions.Draws.{stays, post-Advances}
use distributed_ledger_and_t.Transactions.LockedRows.{
  unchanged, lock_account-Advances, lock_accounts-Advances, or_throw-Advances, still_there,
  both_there,
}

module _ (env : Env) (once : DrawsOnce env) where
  pub deposit-Advances :
      (dto : DepositDto) (w : World)
      → IsUnused env w.step w.db
      → Advances env w (deposit env dto w).1
  unfolding deposit assert_active_account assert_currency throw_if
  deposit-Advances dto w u =
      let first = lock_account-Advances env once dto.account_id w u in
      in_transaction-Draws env 0 _ w u (
        bind-Advances env _ _ w first (λ found locked.
          let second = or_throw-Advances env once found _ _ first.unused in
          bind-Advances env _ _ _ second (λ a got.
            bind-Advances env _ _ _ (unchanged env _ second.unused) (λ _ _.
              bind-Advances env _ _ _ (unchanged env _ second.unused) (λ _ _.
                post-Advances env once _ _ _ _
                  (still_there env once dto.account_id _ w found a locked got, tt)
                  second.unused)))))

  pub withdraw-Advances :
      (dto : DepositDto) (w : World)
      → IsUnused env w.step w.db
      → Advances env w (withdraw env dto w).1
  unfolding withdraw assert_active_account assert_currency assert_sufficient_funds throw_if
  withdraw-Advances dto w u =
      let first = lock_account-Advances env once dto.account_id w u in
      in_transaction-Draws env 0 _ w u (
        bind-Advances env _ _ w first (λ found locked.
          let second = or_throw-Advances env once found _ _ first.unused in
          bind-Advances env _ _ _ second (λ a got.
            bind-Advances env _ _ _ (unchanged env _ second.unused) (λ _ _.
              bind-Advances env _ _ _ (unchanged env _ second.unused) (λ _ _.
                bind-Advances env _ _ _ (unchanged env _ second.unused) (λ _ _.
                  post-Advances env once _ _ _ _
                    (still_there env once dto.account_id _ w found a locked got, tt)
                    second.unused))))))

  pub transfer-Advances :
      (dto : TransferDto) (w : World)
      → IsUnused env w.step w.db
      → Advances env w (transfer env dto w).1
  unfolding transfer assert_active_account assert_currency assert_sufficient_funds throw_if
  transfer-Advances dto w u = elim (Bool-cases (eqb dto.from_account_id dto.to_account_id)) [
    | inl same ↦ rw same (unchanged env w u)
    | inr differ ↦
        let ids = sort_by leb (dto.from_account_id ∷ dto.to_account_id ∷ []) in
        let first = lock_accounts-Advances env once ids w u in
        rw differ (
          in_transaction-Draws env 0 _ w u (
            bind-Advances env _ _ w first (λ found locked.
              bind-Advances env _ _ _ (unchanged env _ first.unused) (λ _ _.
                let second =
                  or_throw-Advances env once (find_row dto.from_account_id found) _ _
                    first.unused in
                bind-Advances env _ _ _ second (λ a got_a.
                  let third =
                    or_throw-Advances env once (find_row dto.to_account_id found) _ _
                      second.unused in
                  bind-Advances env _ _ _ third (λ b got_b.
                    bind-Advances env _ _ _ (unchanged env _ third.unused) (λ _ _.
                      bind-Advances env _ _ _ (unchanged env _ third.unused) (λ _ _.
                        bind-Advances env _ _ _ (unchanged env _ third.unused) (λ _ _.
                          bind-Advances env _ _ _ (unchanged env _ third.unused) (λ _ _.
                            bind-Advances env _ _ _ (unchanged env _ third.unused) (λ _ _.
                              post-Advances env once _ _ _ _
                                (both_there env once dto _ w found a b locked got_a got_b)
                                third.unused)))))))))))
  ]

  pub create_account-Advances :
      (dto : CreateAccountDto) (w : World)
      → IsUnused env w.step w.db
      → Advances env w (create_account env dto w).1
  unfolding create_account insert_account
  create_account-Advances dto w u =
      let v = IsUnused-later env w.step (suc w.step) w.db (omega arith) u in
      let inserted : Advances env w (insert_account env dto w).1 =
        statement-cases (λ o. Advances env w o.1) env _ _ _ w (stays env once w u)
          (λ q p. record {
            later = omega arith;
            unused = with_accounts env (suc w.step) w.db v _ (λ n h.
                has_row-append (env.gen_random_uuid n) w.accounts (new_account env dto w)
                  (v.accounts n h) (draws-differ env once w.step n (omega arith)));
          }) in
      bind-Advances env _ _ w inserted (λ a _. unchanged env _ inserted.unused)
