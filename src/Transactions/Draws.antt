-- ===== src/Transactions/Draws.antt =====
-- The uuids that modules/transactions and modules/accounts draw.
use distributed_ledger_and_t.Prelude.{
  ℕ, suc, Bool, true, false, none, List, [], ◌∷◌, ◌≡◌, ◌≤◌, refl, sym, ap, subst, arith, has_row,
  has_row-append, has_row-save_row, save_row, eqb, All,
}
use distributed_ledger_and_t.Common.Exceptions.{Exception, Result, ok}
use distributed_ledger_and_t.Entities.{
  Uuid, Time, Account, Transaction, account_row, transaction_row, ledger_entry_row,
  outbox_event_row,
}
use distributed_ledger_and_t.Database.{World, Env, next, statement, throw_if}
use distributed_ledger_and_t.Database.Cases.{statement-cases}
use distributed_ledger_and_t.Database.Unused.{
  IsUnused, with_accounts, with_transactions, with_ledger_entries, with_outbox_events, DrawsOnce,
  IsUnused-later, draws-differ, taken-differs, Advances, Draws, bind-Draws, bind-Advances,
}
use distributed_ledger_and_t.Ledger.{EntryInput, insert_entry, insert_entries, create_entries}
use distributed_ledger_and_t.Outbox.{create_transaction_completed_event}
use distributed_ledger_and_t.Transactions.{
  Draft, insert_transaction, save_transaction, save_rows, save_accounts, stamp, post,
}

-- Every account of the list is a row of the table.
abbrev pub AreRows : List Account → List Account → Type 0
AreRows accounts table = All (λ (a : Account). has_row a.id table ≡ true) accounts

module _ (env : Env) (once : DrawsOnce env) where
  pub stays : (w : World) → IsUnused env w.step w.db → Advances env w (next w)
  stays w u = record {
    later = omega arith;
    unused = IsUnused-later env w.step (suc w.step) w.db (omega arith) u;
  }

  read_statement {ℓ} :
      {A : Type ℓ} (a : A) (w : World)
      → IsUnused env w.step w.db
      → Advances env w (statement env false a w.db w).1
  read_statement a w u =
      statement-cases (λ o. Advances env w o.1) env false a w.db w (stays w u) (λ q p. stays w u)

  insert_entry-Draws : (least : ℕ) (e : EntryInput) → Draws env least (insert_entry env e)
  unfolding insert_entry
  insert_entry-Draws least e w le u =
      let v = IsUnused-later env w.step (suc w.step) w.db (omega arith) u in
      statement-cases (λ o. Advances env w o.1) env _ _ _ w (stays w u)
        (λ q p. record {
          later = omega arith;
          unused = with_ledger_entries env (suc w.step) w.db v _ (λ n h.
              has_row-append (env.gen_random_uuid n) w.ledger_entries _ (v.ledger_entries n h)
                (draws-differ env once w.step n (omega arith)));
        })

  insert_entries-Draws :
      (least : ℕ) (es : List EntryInput) → Draws env least (insert_entries env es)
  unfolding insert_entries
  insert_entries-Draws least [] = λ w le u. record { later = omega arith; unused = u }
  insert_entries-Draws least (e ∷ es) =
      bind-Draws env least _ _ (insert_entry-Draws least e) (λ row.
        bind-Draws env least _ _ (insert_entries-Draws least es)
          (λ rows w le u. record { later = omega arith; unused = u }))

  throw_if-Draws : (least : ℕ) (c : Bool) (e : Exception) → Draws env least (throw_if c e)
  unfolding throw_if
  throw_if-Draws least c e w le u = record { later = omega arith; unused = u }

  create_entries-Draws :
      (least : ℕ) (es : List EntryInput) → Draws env least (create_entries env es)
  unfolding create_entries
  create_entries-Draws least es =
      bind-Draws env least _ _ (throw_if-Draws least _ _) (λ _. insert_entries-Draws least es)

  save_transaction-Draws :
      (m : ℕ) (t : Transaction)
      → t.id ≡ env.gen_random_uuid m
      → Draws env (suc m) (save_transaction env t)
  unfolding save_transaction
  save_transaction-Draws m t e w le u =
      let v = IsUnused-later env w.step (suc w.step) w.db (omega arith) u in
      statement-cases (λ o. Advances env w o.1) env _ _ _ w (stays w u)
        (λ q p. record {
          later = omega arith;
          unused = with_transactions env (suc w.step) w.db v _ (λ n h.
              has_row-save_row (env.gen_random_uuid n) _ w.transactions (v.transactions n h) (
                subst (λ k. eqb k (env.gen_random_uuid n) ≡ false) (sym e)
                  (draws-differ env once m n (omega arith))));
        })

  event-Draws :
      (least : ℕ) (t : Transaction)
      → Draws env least (create_transaction_completed_event env t none)
  unfolding create_transaction_completed_event
  event-Draws least t w le u =
      let v = IsUnused-later env w.step (suc w.step) w.db (omega arith) u in
      statement-cases (λ o. Advances env w o.1) env _ _ _ w (stays w u)
        (λ q p. record {
          later = omega arith;
          unused = with_outbox_events env (suc w.step) w.db v _ (λ n h.
              has_row-append (env.gen_random_uuid n) w.outbox_events _ (v.outbox_events n h)
                (draws-differ env once w.step n (omega arith)));
        })

  has_row-save_rows :
      (k : Uuid) (at : Time) (accounts table : List Account)
      → has_row k table ≡ false
      → All (λ (a : Account). eqb a.id k ≡ false) accounts
      → has_row k (save_rows at accounts table) ≡ false
  has_row-save_rows k at [] table h d = h
  has_row-save_rows k at (a ∷ as') table h d =
      has_row-save_rows k at as' (save_row (stamp at a) table)
        (has_row-save_row k (stamp at a) table h d.0) d.1

  rows-differ :
      (k : Uuid) (accounts table : List Account)
      → AreRows accounts table
      → has_row k table ≡ false
      → All (λ (a : Account). eqb a.id k ≡ false) accounts
  rows-differ k [] table r h = tt
  rows-differ k (a ∷ as') table r h =
      (taken-differs a.id k table r.0 h, rows-differ k as' table r.1 h)

  save_accounts-Draws :
      (accounts : List Account) (w : World)
      → AreRows accounts w.accounts
      → IsUnused env w.step w.db
      → Advances env w (save_accounts env accounts w).1
  unfolding save_accounts
  save_accounts-Draws accounts w rows u =
      let v = IsUnused-later env w.step (suc w.step) w.db (omega arith) u in
      statement-cases (λ o. Advances env w o.1) env _ _ _ w (stays w u)
        (λ q p. record {
          later = omega arith;
          unused = with_accounts env (suc w.step) w.db v _ (λ n h.
              has_row-save_rows (env.gen_random_uuid n) (env.db_now w.step) accounts w.accounts
                (v.accounts n h)
                (rows-differ (env.gen_random_uuid n) accounts w.accounts rows (v.accounts n h)));
        })

  insert_transaction-Advances :
      (d : Draft) (w : World)
      → IsUnused env w.step w.db
      → Advances env w (insert_transaction env d w).1
  unfolding insert_transaction
  insert_transaction-Advances d w u =
      let v = IsUnused-later env w.step (suc w.step) w.db (omega arith) u in
      statement-cases (λ o. Advances env w o.1) env _ _ _ w (stays w u)
        (λ q p. record {
          later = omega arith;
          unused = with_transactions env (suc w.step) w.db v _ (λ n h.
              has_row-append (env.gen_random_uuid n) w.transactions _ (v.transactions n h)
                (draws-differ env once w.step n (omega arith)));
        })

  same_id : {t s : Transaction} → ◌≡◌ {A = Result Transaction} (ok t) (ok s) → t ≡ s
  same_id e = cc

  insert_transaction-ok :
      (d : Draft) (w : World) (t : Transaction)
      → (insert_transaction env d w).0 ≡ ok t
      → (t.id ≡ env.gen_random_uuid w.step)
        × ((insert_transaction env d w).1.accounts ≡ w.accounts)
        × (suc w.step ≤ (insert_transaction env d w).1.step)
  unfolding insert_transaction
  insert_transaction-ok d w t =
      statement-cases
        (λ o.
          o.0 ≡ ok t
          → (t.id ≡ env.gen_random_uuid w.step)
            × (o.1.accounts ≡ w.accounts)
            × (suc w.step ≤ o.1.step))
        env _ _ _ w (λ e. absurd (ground arith))
        (λ q p e. (ap (λ (s : Transaction). s.id) (sym (same_id e)), refl, omega arith))

  pub post-Advances :
      (d : Draft) (accounts : List Account) (entries : Uuid → List EntryInput) (w : World)
      → AreRows accounts w.accounts
      → IsUnused env w.step w.db
      → Advances env w (post env d accounts entries w).1
  unfolding post
  post-Advances d accounts entries w rows u =
      let first = insert_transaction-Advances d w u in
      bind-Advances env _ _ w first (λ t done.
        let (id, same, after) = insert_transaction-ok d w t done in
        let second =
          save_accounts-Draws accounts _ (subst (AreRows accounts) (sym same) rows) first.unused in
        bind-Advances env _ _ _ second (λ a saved.
          let later = second.later in
          bind-Draws env (suc w.step) _ _ (create_entries-Draws (suc w.step) (entries t.id))
            (λ es.
              bind-Draws env (suc w.step) _ _ (λ v le k. stays v k)
                (λ now.
                  bind-Draws env (suc w.step) _ _ (save_transaction-Draws w.step _ id)
                    (λ saved_transaction.
                      bind-Draws env (suc w.step) _ _ (event-Draws (suc w.step) saved_transaction)
                        (λ event v le k. record { later = omega arith; unused = k }))))
            _ (omega arith) second.unused))
