-- ===== src/Controllers/Soundness.antt =====
-- The books of modules/transactions under the requests of the controllers.
use distributed_ledger_and_t.Prelude.{
  ℤ, pos, ◌+ℤ◌, ◌≤ℤ◌, int_laws, String, Bool, false, Option, List, [], ◌∷◌, ◌≡◌, arith, Bool-cases,
  inl, inr,
}
use distributed_ledger_and_t.Common.Number.{max_safe_integer}
use distributed_ledger_and_t.Database.{World, Env}
use distributed_ledger_and_t.Transactions.{DepositDto}
use distributed_ledger_and_t.Accounting.Requests.{IsSoundWithin}
use distributed_ledger_and_t.Controllers.{Payload, post_deposit}
use distributed_ledger_and_t.Controllers.Validation.{is_currency, is_valid_deposit, validated}
use distributed_ledger_and_t.Controllers.Requests.{
  HttpRequest, posted_deposit, posted_withdraw, posted_transfer, posted_account, posted_webhook,
  asked_transaction, asked_balance, asked_statement, handle, handle_all, added, all_added,
}
use distributed_ledger_and_t.Controllers.Routes.{
  amount_valid, as_before, post_deposit-Leads, post_withdraw-Leads, post_transfer-Leads,
  post_account-Leads, post_webhook-Leads, transaction_route-Keeps, balance_route-Keeps,
  statement_route-Keeps,
}

module _ (is_url : String → Bool) (create_payload_hash : Payload → String) (env : Env) where
  refused_deposit :
      (key : Option String) (dto : DepositDto) (limit : ℤ) (w : World)
      → is_valid_deposit dto ≡ false
      → IsSoundWithin limit w.db
      → IsSoundWithin (limit +ℤ pos 0) (post_deposit is_url create_payload_hash env key dto w).1.db
  unfolding post_deposit validated
  refused_deposit key dto limit w invalid s = rw invalid (as_before env limit w.db s)

  handle_lem :
      (r : HttpRequest) (limit : ℤ) (w : World)
      → limit +ℤ added r ≤ℤ max_safe_integer
      → IsSoundWithin limit w.db
      → IsSoundWithin (limit +ℤ added r) (handle is_url create_payload_hash env r w).db
  unfolding handle
  handle_lem (posted_deposit key dto) limit w small s = elim (Bool-cases (is_valid_deposit dto)) [
    | inl valid ↦ rw valid (
        post_deposit-Leads env limit create_payload_hash is_url key dto valid (rw valid at small) w
          s)
    | inr invalid ↦ rw invalid (refused_deposit key dto limit w invalid s)
  ]
  handle_lem (posted_withdraw key dto) limit w small s =
      post_withdraw-Leads env limit create_payload_hash is_url (omega int_laws) key dto w s
  handle_lem (posted_transfer key dto) limit w small s =
      post_transfer-Leads env limit create_payload_hash is_url (omega int_laws) key dto w s
  handle_lem (posted_account key dto) limit w small s =
      post_account-Leads env limit create_payload_hash is_url (omega int_laws) key dto w s
  handle_lem (posted_webhook key dto) limit w small s =
      post_webhook-Leads env limit create_payload_hash is_url (omega int_laws) key dto w s
  handle_lem (asked_transaction id) limit w small s =
      as_before env limit _ (transaction_route-Keeps (IsSoundWithin limit) env id w s)
  handle_lem (asked_balance id) limit w small s =
      as_before env limit _ (balance_route-Keeps (IsSoundWithin limit) env id w s)
  handle_lem (asked_statement id count) limit w small s =
      as_before env limit _ (statement_route-Keeps (IsSoundWithin limit) env id count w s)

  added_nonneg : (r : HttpRequest) → pos 0 ≤ℤ added r
  added_nonneg (posted_deposit key dto) = elim (Bool-cases (is_valid_deposit dto)) [
    | inl valid ↦
        rw valid (
          let positive = amount_valid dto.amount (is_currency dto.currency) valid in omega int_laws)
    | inr invalid ↦ rw invalid (omega arith)
  ]
  added_nonneg _ = omega arith

  all_added_nonneg : (rs : List HttpRequest) → pos 0 ≤ℤ all_added rs
  all_added_nonneg [] = omega arith
  all_added_nonneg (r ∷ rs) =
      let first = added_nonneg r in let rest = all_added_nonneg rs in omega int_laws

  -- Whatever requests the controllers take, valid or not, with whatever keys, repeated or not, and
  -- whatever their answers and the environment: sound books stay sound, and if all balances together are
  -- at most a limit, they stay at most the limit and the amounts of the valid deposits asked for, if that
  -- is at most 2^53 - 1.
  pub handle_all-IsSound :
      (rs : List HttpRequest) (limit : ℤ) (w : World)
      → limit +ℤ all_added rs ≤ℤ max_safe_integer
      → IsSoundWithin limit w.db
      → IsSoundWithin (limit +ℤ all_added rs) (handle_all is_url create_payload_hash env rs w).db
  unfolding handle_all
  handle_all-IsSound [] limit w small s = as_before env limit w.db s
  handle_all-IsSound (r ∷ rs) limit w small s =
      let rest = all_added_nonneg rs in
      let after =
        handle_all-IsSound rs (limit +ℤ added r) (handle is_url create_payload_hash env r w)
          (omega int_laws) (handle_lem r limit w (omega int_laws) s) in
      (after.0, let bound = after.1 in omega int_laws)
