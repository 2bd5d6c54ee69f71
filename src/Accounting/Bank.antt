-- ===== src/Accounting/Bank.antt =====
-- What modules/accounts and modules/transactions promise, as a bank: an account is its currency, its
-- balance and whether it is active; a request changes the bank or is refused with an exception.
use mathlib.Core.Option
use distributed_ledger_and_t.Prelude.{
  ℤ, pos, ◌+ℤ◌, ◌-ℤ◌, ltb_ℤ, String, Bool, Option, none, some, List, [], ◌∷◌, ◌≡◌, not, eqb,
  find_row, str_eq, if◌then◌else◌,
}
use distributed_ledger_and_t.Common.Exceptions.{
  Exception, account_not_found, accounts_not_found, account_inactive, currency_mismatch,
  insufficient_funds, same_account_transfer, Result, ok, err,
}
use distributed_ledger_and_t.Entities.{Uuid, Account, AccountStatus, is_active, account_row}
use distributed_ledger_and_t.Database.{World}
use distributed_ledger_and_t.Accounts.{CreateAccountDto}
use distributed_ledger_and_t.Transactions.{DepositDto, TransferDto}
use distributed_ledger_and_t.Accounting.Requests.{
  Request, create_account_request, deposit_request, withdraw_request, transfer_request,
}

pub record Holding : Type 0 where
  pub currency : String
  pub active : Bool
  pub balance : ℤ

abbrev pub Bank : Type 0
Bank = Uuid → Option Holding

abbrev pub put : Uuid → Holding → Bank → Bank
put id h bank k = if eqb id k then some h else bank k

abbrev pub open_account : Uuid → CreateAccountDto → Bank → Bank
open_account id dto = put id (record {
  currency = dto.currency;
  active = is_active (Option.get_or dto.status AccountStatus.active);
  balance = pos 0;
})

abbrev pub deposit_to : DepositDto → Bank → Option Holding → Result Bank
deposit_to dto bank none = err (account_not_found dto.account_id)
deposit_to dto bank (some h) =
    if not h.active
    then err (account_inactive dto.account_id)
    else if not (str_eq h.currency dto.currency)
    then err (currency_mismatch h.currency dto.currency)
    else ok (put dto.account_id (record h { balance = h.balance +ℤ dto.amount }) bank)

abbrev pub withdraw_from : DepositDto → Bank → Option Holding → Result Bank
withdraw_from dto bank none = err (account_not_found dto.account_id)
withdraw_from dto bank (some h) =
    if not h.active
    then err (account_inactive dto.account_id)
    else if not (str_eq h.currency dto.currency)
    then err (currency_mismatch h.currency dto.currency)
    else if ltb_ℤ h.balance dto.amount
    then err (insufficient_funds h.balance dto.amount)
    else ok (put dto.account_id (record h { balance = h.balance -ℤ dto.amount }) bank)

abbrev pub transfer_between : TransferDto → Bank → Option Holding → Option Holding → Result Bank
transfer_between dto bank (some a) (some b) =
    if not a.active
    then err (account_inactive dto.from_account_id)
    else if not b.active
    then err (account_inactive dto.to_account_id)
    else if not (str_eq a.currency dto.currency)
    then err (currency_mismatch a.currency dto.currency)
    else if not (str_eq b.currency dto.currency)
    then err (currency_mismatch b.currency dto.currency)
    else if ltb_ℤ a.balance dto.amount
    then err (insufficient_funds a.balance dto.amount)
    else ok (
        put dto.to_account_id (record b { balance = b.balance +ℤ dto.amount })
          (put dto.from_account_id (record a { balance = a.balance -ℤ dto.amount }) bank))
transfer_between dto bank _ _ = err (accounts_not_found dto.from_account_id dto.to_account_id)

-- The answer of the bank to a request; `id` is the number of an account that it opens.
abbrev pub respond : Uuid → Request → Bank → Result Bank
respond id (create_account_request dto) bank = ok (open_account id dto bank)
respond id (deposit_request dto) bank = deposit_to dto bank (bank dto.account_id)
respond id (withdraw_request dto) bank = withdraw_from dto bank (bank dto.account_id)
respond id (transfer_request dto) bank =
    if eqb dto.from_account_id dto.to_account_id
    then err (same_account_transfer dto.from_account_id)
    else transfer_between dto bank (bank dto.from_account_id) (bank dto.to_account_id)

-- The exception of the answer, if it is one, and the bank after it: a refusal changes nothing.
abbrev pub settle : Bank → Result Bank → Option Exception × Bank
settle before (ok after) = (none, after)
settle before (err e) = (some e, before)

-- The runs of the bank: the requests, the exceptions answered, and the bank at the end. An account
-- is opened under a number that is not in use.
pub data Serves : Bank → List Request → List (Option Exception) → Bank → Type 0 where
  idle : (bank : Bank) → Serves bank [] [] bank
  serves :
      (before after last : Bank) (r : Request) (rs : List Request) (answer : Option Exception)
      (answers : List (Option Exception)) (id : Uuid)
      → before id ≡ none
      → settle before (respond id r before) ≡ (answer, after)
      → Serves after rs answers last
      → Serves before (r ∷ rs) (answer ∷ answers) last

abbrev pub holding : Account → Holding
holding a = record { currency = a.currency; active = is_active a.status; balance = a.balance }

-- The bank that the table of accounts shows.
abbrev pub view : List Account → Bank
view accounts k = Option.map holding (find_row k accounts)

-- What a caller sees of the outcome of a request.
abbrev pub observe {ℓ} : {A : Type ℓ} → Result A × World → Option Exception × Bank
observe (ok a, w) = (none, view w.accounts)
observe (err e, w) = (some e, view w.accounts)
