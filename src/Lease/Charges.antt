-- ===== src/Lease/Charges.antt =====
-- Utility charges of a tenant: `addUtilityCharge` of src/modules/lease/lease.service.ts.
pub mod Sums
use infraco_os.Common.{
  ℕ, ◌+◌, Bool, true, false, not, Option, none, some, List, [], ◌∷◌, exists, find?, update_where,
  ◌==◌, if◌then◌else◌, is_some,
}
use infraco_os.Common.Int.{ℤ, pos, ◌+ℤ◌, leb_ℤ}
use infraco_os.Common.Keys.{has_key}
use infraco_os.Common.Result.{Result, ok, err}
use infraco_os.Database.Enums.{
  Error, bad_request, not_found, internal_error, unique_violation, foreign_key_violation,
  InvoiceStatus, draft, issued, RentalUtilityType, invoice_type_of, CurrencyCode,
}
use infraco_os.Database.Transaction.{
  Action, Tx, ◌>>=◌, ◌>>◌, pure, throw_if, or_throw, lift, statement, query, modify, with_actor,
}
use infraco_os.Ledger.{has_account}
use infraco_os.Ledger.Position.{recompute_account}
use infraco_os.Ledger.Tables.{Invoice, Fin}
use infraco_os.Office.{Reference, utility_ref, uuid_head, Office, read}
use infraco_os.Office.Bills.{Platform, create_bill}
use infraco_os.Rent.{Text, first_of_month, billing_period_key}
use infraco_os.Lease.{Calendar, Lease, Estate, lease_key}
use infraco_os.Lease.Lifecycle.{in_office}
use infraco_os.Lease.Billing.{
  uses_reference, add_invoice, new_invoice, invoice_due, in_fin, Period, reference_for,
}

-- `UtilityChargeDto`: no utility type is a text that names none, no amount is no number. `separate`
-- is true unless the request says false.
pub record UtilityCharge : Type 0 where
  pub utility_type : Option RentalUtilityType
  pub amount : Option ℤ
  pub separate : Bool

-- What `addUtilityCharge` returns; `merged` is the mode.
pub record Charged : Type 0 where
  pub invoice_id : ℕ
  pub reference : ℕ
  pub merged : Bool
  pub amount : ℤ

-- ['draft', 'issued'].includes(status)
abbrev pub is_mergeable : InvoiceStatus → Bool
is_mergeable draft = true
is_mergeable issued = true
is_mergeable _ = false

-- The rent invoice of the month, where the charge can be folded into it.
abbrev pub keep_mergeable : Option Invoice → Option Invoice
keep_mergeable none = none
keep_mergeable (some i) = if is_mergeable i.status then some i else none

abbrev pub with_id : ℕ → Invoice → Bool
with_id id i = i.invoice_id == id

abbrev pub raise_amount : ℤ → Invoice → Invoice
raise_amount amount i = record i { amount = amount }

abbrev pub store_amount : ℕ → ℤ → Office → Office
store_amount id amount o = record o {
  fin = record o.fin { invoices = update_where (with_id id) (raise_amount amount) o.fin.invoices };
}

abbrev pub charge_ref : Period → Lease → RentalUtilityType → ℕ
charge_ref p l type = p.code (utility_ref type (uuid_head l.lease_id) p.key)

-- INSERT INTO fin.invoice … RETURNING invoice_id, with invoice_reference_key.
abbrev pub insert_charge :
    Lease
    → ℕ
    → RentalUtilityType
    → ℕ
    → ℤ
    → Result Error ℕ
    → Office
    → Result Error (Charged × Office)
insert_charge l account type reference amount (err x) o = err x
insert_charge l account type reference amount (ok due) o =
    if exists (uses_reference reference) o.fin.invoices
    then err unique_violation
    else if not (has_account account o.fin)
    then err foreign_key_violation
    else ok (
      record {
        invoice_id = o.next_invoice_id;
        reference = reference;
        merged = false;
        amount = amount;
      },
      add_invoice (new_invoice account (invoice_type_of type) reference amount l.currency due o) o,
    )

unfoldable pub charge_separately : Period → Lease → ℕ → RentalUtilityType → ℤ → Tx Office Charged
charge_separately p l account type amount = statement (
    insert_charge l account type (charge_ref p l type) amount
      (invoice_due (p.cal.cast_date p.start) amount))

-- Into the rent invoice of the month, or, where there is none to take it, separately.
unfoldable pub fold_charge :
    Period → Lease → ℕ → RentalUtilityType → ℤ → Option Invoice → Tx Office Charged
unfolding charge_separately
fold_charge p l account type amount none = charge_separately p l account type amount
fold_charge p l account type amount (some i) = do
  modify (store_amount i.invoice_id (i.amount +ℤ amount))
  pure (record {
    invoice_id = i.invoice_id;
    reference = i.reference;
    merged = true;
    amount = i.amount +ℤ amount;
  })

unfoldable pub charge_tx : Period → Lease → ℕ → RentalUtilityType → ℤ → Bool → Tx Office Charged
unfolding fold_charge
charge_tx p l account type amount true = charge_separately p l account type amount
charge_tx p l account type amount false = do
  found ← query (λ o. keep_mergeable (find? (uses_reference (reference_for p l)) o.fin.invoices))
  fold_charge p l account type amount found

-- The bill of a separate invoice.
unfoldable pub bill_charge : Period → Charged → Action Office (Unit {0})
unfolding create_bill
bill_charge p c = if c.merged then pure tt else (do create_bill p.platform c.invoice_id; pure tt)

unfoldable pub charge : Period → Lease → ℕ → RentalUtilityType → ℤ → Bool → Action Office Charged
unfolding charge_tx bill_charge recompute_account
charge p l account type amount separate = do
  result ← with_actor (charge_tx p l account type amount separate)
  bill_charge p result
  today ← or_throw (p.cal.js_date p.as_of) internal_error
  in_fin (recompute_account account today)
  pure result

-- `addUtilityCharge(leaseId, dto)`, at the date that the request gives or else today's. The first of
-- the month of a date with a period key exists.
unfoldable pub add_utility_charge :
    (Reference → ℕ) → Platform → Calendar → Text → ℕ → UtilityCharge → Action Estate Charged
unfolding first_of_month billing_period_key charge
add_utility_charge code platform cal as_of id dto = do
  type ← or_throw dto.utility_type bad_request
  amount ← or_throw dto.amount bad_request
  throw_if (leb_ℤ amount (pos 0)) bad_request
  found ← read (λ e. find? (has_key lease_key id) e.leases)
  l ← or_throw found not_found
  account ← or_throw l.account_id bad_request
  key ← lift (billing_period_key as_of)
  start ← lift (first_of_month as_of)
  in_office (
      charge
        (record {
          code = code;
          platform = platform;
          cal = cal;
          as_of = as_of;
          start = start;
          key = key;
        })
        l account type amount dto.separate)
