-- ===== src/Office.antt =====
-- The tables that the services share beside the unified ledger's: customers, the registry's columns
-- of an account, bills of the Payments Platform and notifications. An id is a number; a text is the
-- number that `code` gives it, and the empty text is 0.
pub mod Accounts
pub mod Bills
use infraco_os.Common.{
  ℕ, ◌+◌, ◌/◌, ◌^◌, Bool, Option, none, some, List, [], ◌∷◌, find?, ◌==◌, if◌then◌else◌,
}
use infraco_os.Common.Int.{ℤ}
use infraco_os.Common.Result.{Result, ok, err}
use infraco_os.Database.Enums.{
  Error, AccountStatus, AccountType, CurrencyCode, InvoiceType, RentalUtilityType,
}
use infraco_os.Database.Transaction.{Action}
use infraco_os.Ledger.Tables.{Fin}
use infraco_os.Payments.Tables.{ApiLogRow}
use infraco_os.Rent.{Text}

-- The texts that the services make up as references.
pub data Reference : Type 0 where
  account_ref : (account_type : AccountType) → (customer stamp : ℕ) → Reference
  rent_ref : (lease : ℕ) → (period : Text) → Reference
  instalment_ref : (account index : ℕ) → Reference
  utility_ref : (charge : RentalUtilityType) → (lease : ℕ) → (period : Text) → Reference

-- The first eight of the 32 hexadecimal digits of a UUID.
abbrev pub uuid_head : ℕ → ℕ
uuid_head id = id / 2 ^ 96

-- fin.customer
pub record Customer : Type 0 where
  pub customer_id : ℕ
  pub wallet_id : Option ℕ

-- fin.account: the columns that the ledger does not read.
pub record AccountRow : Type 0 where
  pub account_id : ℕ
  pub customer_id : ℕ
  pub account_type : AccountType
  pub reference : ℕ
  pub status : AccountStatus
  pub currency : CurrencyCode

-- pay.bill_status, of which the code writes two.
pub data BillStatus : Type 0 where
  created bill_sent : BillStatus

-- pay.bill
pub record Bill : Type 0 where
  pub invoice_id : ℕ
  pub bill_ref : ℕ
  pub platform_bill_id : Option ℕ
  pub amount : ℤ
  pub currency : CurrencyCode
  pub status : BillStatus
  pub short_code : Option ℕ

pub data Recipient : Type 0 where
  to_customer to_user : ℕ → Recipient

pub data Template : Type 0 where
  rent_due instalment_due lease_renewal lease_renewal_ops : Template

-- core.notification, with the id of the lease or the reference that the payload names.
pub record Notice : Type 0 where
  pub recipient : Recipient
  pub template : Template
  pub about : ℕ

pub record Office : Type 0 where
  pub fin : Fin
  pub customers : List Customer
  pub account_rows : List AccountRow
  pub bills : List Bill
  pub platform_ids : List (ℕ × ℕ)
  pub api_log : List ApiLogRow
  pub notices : List Notice
  pub next_account_id : ℕ
  pub next_invoice_id : ℕ

abbrev pub has_customer : ℕ → Customer → Bool
has_customer id c = c.customer_id == id

-- Reads outside a transaction.
abbrev pub read : {S A : Type 0} → (S → A) → Action S A
read f s = (ok (f s), s)

-- `catch (err)` that throws another error.
abbrev pub map_error : {A : Type 0} → (Error → Error) → Result Error A → Result Error A
map_error f (ok a) = ok a
map_error f (err e) = err (f e)

abbrev pub rethrow : {S A : Type 0} → (Error → Error) → Action S A → Action S A
rethrow f m s = let (r, t) = m s in (map_error f r, t)

-- Code on some of the tables, run on more of them.
abbrev pub within : {S T A : Type 0} → (T → S) → (S → T → T) → Action S A → Action T A
within get put m t = let (r, s) = m (get t) in (r, put s t)
