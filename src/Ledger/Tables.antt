-- ===== src/Ledger/Tables.antt =====
-- The tables of the unified ledger, and the parameters of its operations.
use infraco_os.Common.{ℕ, Bool, Option, List}
use infraco_os.Common.Int.{ℤ}
use infraco_os.Database.Enums.{
  AccountType, CurrencyCode, InvoiceStatus, InvoiceType, PaymentMethod, TxnType,
}
use infraco_os.Accounting.Tables.{Books, Date}
use infraco_os.Approvals.{Approvals}
use infraco_os.Instalment.{ArrearsRisk}

-- A day, as the date that a journal carries and as the number by which due dates are compared.
pub record Day : Type 0 where
  pub date : Date
  pub number : ℕ

-- fin.account
pub record Account : Type 0 where
  pub account_id : ℕ
  pub account_type : AccountType
  pub balance : ℤ

-- fin.invoice
pub record Invoice : Type 0 where
  pub invoice_id : ℕ
  pub account_id : ℕ
  pub invoice_type : InvoiceType
  pub reference : ℕ
  pub amount : ℤ
  pub amount_paid : ℤ
  pub currency : CurrencyCode
  pub due_date : ℕ
  pub status : InvoiceStatus

-- fin.ledger_entry
pub record LedgerEntry : Type 0 where
  pub ledger_id : ℕ
  pub account_id : ℕ
  pub invoice_id : Option ℕ
  pub txn_type : TxnType
  pub amount : ℤ
  pub currency : CurrencyCode
  pub payment_method : PaymentMethod
  pub platform_txn_id : Option ℕ

-- fin.suspense_item
pub record SuspenseItem : Type 0 where
  pub suspense_id : ℕ
  pub platform_txn_id : ℕ
  pub amount : ℤ
  pub currency : CurrencyCode
  pub resolved : Bool

-- fin.arrears
pub record ArrearsSnapshot : Type 0 where
  pub account_id : ℕ
  pub total_outstanding : ℤ
  pub days_overdue : ℕ
  pub risk_category : ArrearsRisk

pub record Fin : Type 0 where
  pub books : Books
  pub approvals : Approvals
  pub accounts : List Account
  pub invoices : List Invoice
  pub ledger : List LedgerEntry
  pub suspense : List SuspenseItem
  pub arrears : List ArrearsSnapshot
  pub next_ledger_id : ℕ
  pub next_suspense_id : ℕ

-- `PostPaymentParams`; the narrative and the poster are stored and never read.
pub record PostPaymentParams : Type 0 where
  pub account_id : ℕ
  pub invoice_id : ℕ
  pub amount : ℤ
  pub currency : CurrencyCode
  pub payment_method : PaymentMethod
  pub platform_txn_id : Option ℕ

-- `PostPaymentResult`: `duplicated` has no ledger id and no invoice status.
pub data PostPaymentResult : Type 0 where
  duplicated : PostPaymentResult
  posted : (ledger_id : ℕ) → (invoice_status : InvoiceStatus) → PostPaymentResult

-- `AccountPosition`, without the date of the last payment.
pub record AccountPosition : Type 0 where
  pub balance : ℤ
  pub total_paid : ℤ
  pub arrears_outstanding : ℤ
  pub days_overdue : ℕ
  pub risk_category : ArrearsRisk
  pub next_due : Option ℕ
