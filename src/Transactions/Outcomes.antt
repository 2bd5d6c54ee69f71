-- ===== src/Transactions/Outcomes.antt =====
-- The outcomes of modules/transactions/transactions.service.ts when no statement fails for a reason
-- of its own.
use distributed_ledger_and_t.Prelude.{
  ℕ, suc, true, false, List, [], ◌∷◌, ◌++◌, ◌≡◌, refl, ap, arith, has_row-append, ◌≤◌, eqb_ℤ,
}
use distributed_ledger_and_t.Common.Number.{fits_bigint}
use distributed_ledger_and_t.Entities.{
  Uuid, Account, LedgerEntry, account_row, transaction_row, ledger_entry_row, outbox_event_row,
}
use distributed_ledger_and_t.Database.{Db, World, Env, throw_if, ◌>>=◌}
use distributed_ledger_and_t.Database.Unused.{IsUnused, DrawsOnce, draws-differ}
use distributed_ledger_and_t.Database.Ensures.{Returns, Returns-bind, Returns-statement}
use distributed_ledger_and_t.Ledger.{
  EntryInput, debits, credits, insert_entry, insert_entries, entry_row, create_entries,
}
use distributed_ledger_and_t.Outbox.{create_transaction_completed_event}
use distributed_ledger_and_t.Transactions.{
  Draft, insert_transaction, save_transaction, save_accounts, overflows, post,
}

-- No statement fails for a reason of its own, and no uuid is drawn twice or is in use.
pub record IsQuiet (env : Env) (w : World) : Type 0 where
  pub no_fault : (n : ℕ) → env.fault n ≡ false
  pub draws_once : DrawsOnce env
  pub unused : IsUnused env w.step w.db

module _ (env : Env) (d : Draft) (accounts : List Account) (first second : Uuid → EntryInput)
    (w : World) (q : IsQuiet env w) where
  create_two :
      (P : List LedgerEntry → World → Type 0) (one two : EntryInput) (u : World)
      → u.ledger_entries ≡ w.ledger_entries
      → w.step ≤ u.step
      → fits_bigint one.amount ≡ true
      → fits_bigint two.amount ≡ true
      → eqb_ℤ (debits (one ∷ two ∷ [])) (credits (one ∷ two ∷ [])) ≡ true
      → ((a : List LedgerEntry) (v : World)
          → v.outbox_events ≡ u.outbox_events
          → w.step ≤ v.step
          → P a v)
      → Returns P (create_entries env (one ∷ two ∷ []) u)
  unfolding create_entries insert_entries insert_entry ◌>>=◌ throw_if
  create_two P one two u same later fits_one fits_two balanced h =
      let row = entry_row env one u in
      let more = w.ledger_entries ++ row ∷ [] in
      rw
        (
          balanced,
          q.no_fault u.step,
          fits_one,
          same,
          q.unused.ledger_entries u.step later,
          q.no_fault (suc u.step),
          fits_two,
          has_row-append (env.gen_random_uuid (suc u.step)) w.ledger_entries row
              (q.unused.ledger_entries (suc u.step) (omega arith))
              (draws-differ env q.draws_once u.step (suc u.step) (omega arith)),
        )
        (h _ _ refl (omega arith))

  -- A posting of two balanced entries in range goes through.
  pub post-IsOk :
      (u : World)
      → u.db ≡ w.db
      → w.step ≤ u.step
      → fits_bigint d.amount ≡ true
      → overflows accounts ≡ false
      → ((t : Uuid) → fits_bigint (first t).amount ≡ true)
      → ((t : Uuid) → fits_bigint (second t).amount ≡ true)
      → ((t : Uuid)
          → eqb_ℤ (debits (first t ∷ second t ∷ [])) (credits (first t ∷ second t ∷ [])) ≡ true)
      → Returns (λ r v. Unit) (post env d accounts (λ t. first t ∷ second t ∷ []) u)
  unfolding post insert_transaction save_accounts save_transaction
      create_transaction_completed_event
  post-IsOk u same later fits fit_accounts fits_first fits_second balanced = Returns-bind _ _ _ u (
      Returns-statement _ env _ _ _ u (q.no_fault _)
        (rw (fits, same) (q.unused.transactions _ later))
        (Returns-bind _ _ _ _ (
          Returns-statement _ env _ _ _ _ (q.no_fault _) fit_accounts (
            Returns-bind _ _ _ _ (
              create_two _ (first _) (second _) _ (ap (λ (b : Db). b.ledger_entries) same)
                (omega arith) (fits_first _) (fits_second _) (balanced _)
                (λ rows v kept after. Returns-bind _ _ _ v (
                  Returns-bind _ _ _ _ (
                    Returns-statement _ env _ _ _ _ (q.no_fault _) (rw fits refl) (
                      Returns-bind _ _ _ _ (
                        Returns-statement _ env _ _ _ _ (q.no_fault _)
                          (rw (kept, same) (q.unused.outbox_events _ (omega arith))) tt))))))))))
