-- ===== src/Lease/Billing.antt =====
-- The monthly rent run: `runRentBilling` of src/modules/lease/lease.service.ts.
pub mod Same
pub mod Rounds
pub mod Months
pub mod Settled
pub mod Again
pub mod Totals
use mathlib.Core.List.{reverse}
use infraco_os.Common.{
  ℕ, zero, suc, ◌+◌, Bool, true, false, not, Option, none, some, List, [], ◌∷◌, exists, where_rows,
  ◌==◌, if◌then◌else◌,
}
use infraco_os.Common.Int.{ℤ, pos, ltb_ℤ}
use infraco_os.Common.Result.{Result, ok, err}
use infraco_os.Database.Enums.{
  Error, internal_error, invalid_text, check_violation, foreign_key_violation, rent, issued,
  CurrencyCode, InvoiceType,
}
use infraco_os.Database.Transaction.{
  Action, Tx, ◌>>=◌, ◌>>◌, pure, or_throw, lift, statement, modify, with_actor,
}
use infraco_os.Ledger.{has_account}
use infraco_os.Ledger.Position.{recompute_account}
use infraco_os.Ledger.Tables.{Invoice, Fin, AccountPosition}
use infraco_os.Office.{Reference, rent_ref, uuid_head, to_customer, rent_due, Office, read, within}
use infraco_os.Office.Bills.{Platform, create_bill}
use infraco_os.Rent.{Text, first_of_month, billing_period_key, effective_rent}
use infraco_os.Lease.{Calendar, Lease, Estate, is_active}
use infraco_os.Lease.Lifecycle.{in_office}

abbrev pub uses_reference : ℕ → Invoice → Bool
uses_reference reference i = i.reference == reference

abbrev pub add_invoice : Invoice → Office → Office
add_invoice i o = record o {
  fin = record o.fin { invoices = i ∷ o.fin.invoices };
  next_invoice_id = o.next_invoice_id + 1;
}

abbrev pub in_fin : {A : Type 0} → Action Fin A → Action Office A
in_fin = within (λ o. o.fin) (λ f o. record o { fin = f })

-- The new row of `INSERT INTO fin.invoice`, for an account in a currency.
abbrev pub new_invoice : ℕ → InvoiceType → ℕ → ℤ → CurrencyCode → ℕ → Office → Invoice
new_invoice account type reference amount currency due o = record {
  invoice_id = o.next_invoice_id;
  account_id = account;
  invoice_type = type;
  reference = reference;
  amount = amount;
  amount_paid = pos 0;
  currency = currency;
  due_date = due;
  status = issued;
}

-- The casts and checks of an insert into fin.invoice, before its reference is looked up.
abbrev pub invoice_due : Option ℕ → ℤ → Result Error ℕ
invoice_due none amount = err invalid_text
invoice_due (some due) amount = if ltb_ℤ amount (pos 0) then err check_violation else ok due

-- ON CONFLICT (reference) DO NOTHING RETURNING invoice_id
abbrev pub insert_unless_billed :
    ℕ → ℕ → ℤ → CurrencyCode → Result Error ℕ → Office → Result Error (Option ℕ × Office)
insert_unless_billed account reference amount currency (err x) o = err x
insert_unless_billed account reference amount currency (ok due) o =
    if exists (uses_reference reference) o.fin.invoices
    then ok (none, o)
    else if not (has_account account o.fin)
    then err foreign_key_violation
    else ok (
      some o.next_invoice_id,
      add_invoice (new_invoice account rent reference amount currency due o) o,
    )

-- The tenant's notice, where an invoice was raised.
abbrev pub notify_rent : ℕ → ℕ → Option ℕ → Office → Office
notify_rent tenant reference none o = o
notify_rent tenant reference (some id) o = record o {
  notices =
      record { recipient = to_customer tenant; template = rent_due; about = reference } ∷ o.notices;
}

unfoldable pub raise_tx : ℕ → ℕ → ℕ → ℤ → CurrencyCode → Option ℕ → Tx Office (Option ℕ)
raise_tx account tenant reference amount currency due = do
  raised ←
      statement (insert_unless_billed account reference amount currency (invoice_due due amount))
  modify (notify_rent tenant reference raised)
  pure raised

-- An element of `raised`.
pub record Raised : Type 0 where
  pub lease_id : ℕ
  pub invoice_id : ℕ
  pub reference : ℕ
  pub amount : ℤ

abbrev period_due : Calendar → Text → Option ℕ
period_due cal start = cal.cast_date start

-- What a run works with: the references, the platform, the calendar, and the date asked for with its
-- month.
pub record Period : Type 0 where
  pub code : Reference → ℕ
  pub platform : Platform
  pub cal : Calendar
  pub as_of : Text
  pub start : Text
  pub key : Text

-- RENT-<lease>-<YYYYMM>
abbrev pub reference_for : Period → Lease → ℕ
reference_for p l = p.code (rent_ref (uuid_head l.lease_id) p.key)

abbrev pub anniv_of : Calendar → Option ℕ → Option Text
anniv_of cal none = none
anniv_of cal (some d) = some (cal.date_text d)

abbrev pub rent_for : Period → Lease → Result Error ℤ
rent_for p l =
    effective_rent l.rent_amount l.escalation_pct (anniv_of p.cal l.escalation_anniv) p.as_of

-- After a new invoice: its bill at the Payments Platform, and the position of the account.
unfoldable pub follow_up : Period → ℕ → ℕ → Action Office (Unit {0})
unfolding create_bill recompute_account
follow_up p account invoice = do
  create_bill p.platform invoice
  today ← or_throw (p.cal.js_date p.as_of) internal_error
  in_fin (recompute_account account today)
  pure tt

abbrev pub raised_of : Lease → ℕ → ℤ → ℕ → Raised
raised_of l reference amount invoice = record {
  lease_id = l.lease_id;
  invoice_id = invoice;
  reference = reference;
  amount = amount;
}

unfoldable pub finish : Period → Lease → ℕ → ℤ → Option ℕ → Action Office (Option Raised)
unfolding follow_up
finish p l account amount none = pure none
finish p l account amount (some invoice) = do
  follow_up p account invoice
  pure (some (raised_of l (reference_for p l) amount invoice))

-- One round of the loop; `none` counts as skipped.
unfoldable pub bill_account : Period → Lease → Option ℕ → Action Office (Option Raised)
unfolding raise_tx finish
bill_account p l none = pure none
bill_account p l (some account) = do
  amount ← lift (rent_for p l)
  raised ←
      with_actor (
        raise_tx account l.tenant_id (reference_for p l) amount l.currency
          (p.cal.cast_date p.start))
  finish p l account amount raised

abbrev pub bill_lease : Period → Lease → Action Office (Option Raised)
bill_lease p l = bill_account p l l.account_id

pub record Run : Type 0 where
  pub raised : List Raised
  pub skipped : ℕ

abbrev pub count_round : Option Raised → Run → Run
count_round none r = record r { skipped = r.skipped + 1 }
count_round (some x) r = record r { raised = x ∷ r.raised }

-- The loop: a round that throws ends the run, and what earlier rounds did stays.
unfoldable pub bill_leases : Period → List Lease → Action Office Run
unfolding bill_account
bill_leases p [] = pure (record { raised = []; skipped = 0 })
bill_leases p (l ∷ ls) = do
  this ← bill_lease p l
  rest ← bill_leases p ls
  pure (count_round this rest)

-- WHERE status = 'active' ORDER BY lease_id; the table has the largest id first.
unfoldable pub active_leases : Estate → List Lease
active_leases e = reverse (where_rows (λ l. is_active l.status) e.leases)

-- `runRentBilling(dto)`, at the date that the request gives or else today's.
unfoldable pub run_rent_billing : (Reference → ℕ) → Platform → Calendar → Text → Action Estate Run
unfolding first_of_month billing_period_key active_leases bill_leases
run_rent_billing code platform cal as_of = do
  start ← lift (first_of_month as_of)
  key ← lift (billing_period_key as_of)
  leases ← read active_leases
  in_office (
      bill_leases
        (record {
          code = code;
          platform = platform;
          cal = cal;
          as_of = as_of;
          start = start;
          key = key;
        })
        leases)
