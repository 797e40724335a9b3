-- ===== src/Office/Bills.antt =====
-- Bills of the Payments Platform: `createBill` of src/modules/payments/payments.service.ts. What the
-- platform answers to a bill is a parameter.
use infraco_os.Common.{
  ℕ, Bool, Option, none, some, List, ◌∷◌, exists, find?, update_where, ◌==◌, if◌then◌else◌,
}
use infraco_os.Database.Enums.{internal_error}
use infraco_os.Database.Transaction.{Action, Tx, ◌>>=◌, ◌>>◌, pure, or_throw, modify, with_actor}
use infraco_os.Ledger.Tables.{Invoice}
use infraco_os.Payments.Tables.{ApiStatus, sent, failed, skipped_unconfigured}
use infraco_os.Office.{
  Customer, AccountRow, BillStatus, created, bill_sent, Bill, Office, has_customer, read,
}

-- What `PaymentsPlatformClient.createBill` returns, without the HTTP status that is only logged.
pub record Pushed : Type 0 where
  pub accepted : Bool
  pub configured : Bool
  pub platform_bill_id : Option ℕ
  pub short_code : Option ℕ

-- The platform, which is sent an invoice's reference, amount, currency and due date, and a wallet.
abbrev pub Platform : Type 0
Platform = Invoice → Option ℕ → Pushed

abbrev pub has_invoice_id : ℕ → Invoice → Bool
has_invoice_id id i = i.invoice_id == id

abbrev pub has_account_id : ℕ → AccountRow → Bool
has_account_id id a = a.account_id == id

-- fin.invoice JOIN fin.account JOIN fin.customer
unfoldable pub bill_source : ℕ → Office → Option (Invoice × Customer)
bill_source id o = elim (find? (has_invoice_id id) o.fin.invoices) [
  | none ↦ none
  | some i ↦ elim (find? (has_account_id i.account_id) o.account_rows) [
    | none ↦ none
    | some a ↦ elim (find? (has_customer a.customer_id) o.customers) [
      | none ↦ none
      | some c ↦ some (i, c)
    ]
  ]
]

abbrev pub has_bill_ref : ℕ → Bill → Bool
has_bill_ref reference b = b.bill_ref == reference

abbrev bill_status : Pushed → BillStatus
bill_status p = if p.accepted then bill_sent else created

-- COALESCE(EXCLUDED.platform_bill_id, pay.bill.platform_bill_id)
abbrev coalesce : Option ℕ → Option ℕ → Option ℕ
coalesce none b = b
coalesce (some a) b = some a

abbrev pub repushed : Pushed → Bill → Bill
repushed p b = record b {
  platform_bill_id = coalesce p.platform_bill_id b.platform_bill_id;
  status = bill_status p;
  short_code = p.short_code;
}

abbrev new_bill : Invoice → Pushed → Bill
new_bill i p = record {
  invoice_id = i.invoice_id;
  bill_ref = i.reference;
  platform_bill_id = p.platform_bill_id;
  amount = i.amount;
  currency = i.currency;
  status = bill_status p;
  short_code = p.short_code;
}

-- INSERT INTO pay.bill … ON CONFLICT (bill_ref) DO UPDATE
unfoldable pub upsert_bill : Invoice → Pushed → List Bill → List Bill
upsert_bill i p bills =
    if exists (has_bill_ref i.reference) bills
    then update_where (has_bill_ref i.reference) (repushed p) bills
    else new_bill i p ∷ bills

-- The platform's id, stored back on the invoice.
abbrev store_platform_id : ℕ → Option ℕ → List (ℕ × ℕ) → List (ℕ × ℕ)
store_platform_id invoice none ids = ids
store_platform_id invoice (some id) ids = (invoice, id) ∷ ids

abbrev api_status : Pushed → ApiStatus
api_status p = if p.accepted then sent else if p.configured then failed else skipped_unconfigured

unfoldable pub bill_tx : Invoice → Pushed → Tx Office (Unit {0})
unfolding upsert_bill
bill_tx i p = do
  modify (λ o. record o { bills = upsert_bill i p o.bills })
  modify (λ o. record o {
    platform_ids = store_platform_id i.invoice_id p.platform_bill_id o.platform_ids;
  })
  modify (λ o. record o {
    api_log = record { correlation_id = i.reference; status = api_status p } ∷ o.api_log;
  })

unfoldable pub push_bill : Platform → Invoice × Customer → Action Office (Option ℕ × Bool)
unfolding bill_tx
push_bill platform (i, c) = do
  let pushed = platform i c.wallet_id
  with_actor (bill_tx i pushed)
  pure (pushed.platform_bill_id, pushed.accepted)

-- `createBill(invoiceId, actorId)`: the platform's id and whether it took the bill.
unfoldable pub create_bill : Platform → ℕ → Action Office (Option ℕ × Bool)
unfolding bill_source push_bill
create_bill platform invoice_id = do
  found ← read (bill_source invoice_id)
  source ← or_throw found internal_error
  push_bill platform source
