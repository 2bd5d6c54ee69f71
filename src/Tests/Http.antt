-- ===== src/Tests/Http.antt =====
-- Requests of the controllers, some with a key that comes again.
use distributed_ledger_and_t.Prelude.{
  String, Bool, true, List, [], ◌∷◌, pos, ◌+ℤ◌, none, some, refl, arith,
}
use distributed_ledger_and_t.Transactions.{DepositDto, TransferDto}
use distributed_ledger_and_t.Accounting.Expected.{IsDeposit, IsTransfer}
use distributed_ledger_and_t.Accounting.Requests.{IsSoundWithin}
use distributed_ledger_and_t.Controllers.{Payload, post_deposit, post_transfer}
use distributed_ledger_and_t.Controllers.Claims.{IsOnce}
use distributed_ledger_and_t.Controllers.Once.{post_deposit-IsOnce, post_transfer-IsOnce}
use distributed_ledger_and_t.Controllers.Requests.{
  HttpRequest, posted_deposit, posted_transfer, posted_account, asked_balance, handle_all,
}
use distributed_ledger_and_t.Controllers.Soundness.{handle_all-IsSound}
use distributed_ledger_and_t.Tests.Books.{
  calm, alice, bob, opened, books-IsSound, calm-IsQuiet, alice-IsUsable, bob-IsUsable,
}

abbrev any_url : String → Bool
any_url url = true

abbrev no_hash : Payload → String
no_hash payload = "hash"

abbrev pay_in : DepositDto
pay_in = record { account_id = 1; amount = pos 30; currency = "USD"; description = none }

abbrev pay_nothing : DepositDto
pay_nothing = record { account_id = 1; amount = pos 0; currency = "USD"; description = none }

abbrev pay_over : TransferDto
pay_over = record {
  from_account_id = 1;
  to_account_id = 2;
  amount = pos 30;
  currency = "USD";
  description = some "rent";
}

-- A deposit that is sent twice, one that is invalid, and one without a key.
abbrev morning : List HttpRequest
morning =
    posted_account (some "a") (record { currency = "USD"; status = none })
    ∷ posted_deposit (some "b") pay_in
    ∷ posted_deposit (some "b") pay_in
    ∷ posted_deposit (some "c") pay_nothing
    ∷ posted_transfer none pay_over
    ∷ asked_balance 1
    ∷ []

handle_all-IsSound_example :
    IsSoundWithin (pos 210) (handle_all any_url no_hash calm morning opened).db
unfolding ◌+ℤ◌
handle_all-IsSound_example =
    handle_all-IsSound any_url no_hash calm morning (pos 150) opened (omega arith)
      (books-IsSound, omega arith)

post_deposit-IsOnce_example :
    IsOnce (post_deposit any_url no_hash calm (some "b") pay_in) (IsDeposit pay_in) opened
unfolding ◌+ℤ◌
post_deposit-IsOnce_example =
    post_deposit-IsOnce any_url no_hash calm "b" opened calm-IsQuiet books-IsSound refl pay_in alice
      refl refl alice-IsUsable (omega arith)

post_transfer-IsOnce_example :
    IsOnce (post_transfer any_url no_hash calm (some "t") pay_over) (IsTransfer pay_over) opened
unfolding ◌+ℤ◌
post_transfer-IsOnce_example =
    post_transfer-IsOnce any_url no_hash calm "t" opened calm-IsQuiet books-IsSound refl pay_over
      alice bob refl refl alice-IsUsable bob-IsUsable refl (omega arith) (omega arith)
