-- ===== src/Sales/Cancel.antt =====
-- `cancelSale` of src/modules/sales/sales.service.ts.
use infraco_os.Common.{
  ℕ, Bool, true, false, not, ◌&&◌, ◌||◌, Option, none, some, List, [], ◌∷◌, find?, update_where,
  ◌==◌, if◌then◌else◌,
}
use infraco_os.Common.Int.{ℤ, pos, ◌+ℤ◌, ltb_ℤ}
use infraco_os.Common.Keys.{has_key}
use infraco_os.Common.Result.{ok}
use infraco_os.Database.Enums.{
  bad_request, not_found, conflict, account_active, account_closed, InvoiceStatus, draft, issued,
  overdue, cancelled, InvoiceType, instalment, TxnType, credit, available,
}
use infraco_os.Database.Transaction.{
  Action, Tx, ◌>>=◌, ◌>>◌, pure, throw_if, or_throw, statement, query, modify, with_actor,
}
use infraco_os.Ledger.Tables.{Invoice, LedgerEntry}
use infraco_os.Office.{Office}
use infraco_os.Office.Bills.{has_account_id}
use infraco_os.Schedule.Generate.{on_office}
use infraco_os.Lease.Single.{count_where}
use infraco_os.Sales.{
  ReservationStatus, reservation_active, converted, reservation_cancelled, sale_cancelled,
  Reservation, Sale, Market, plot_key, sale_key, is_pending, is_approved, set_plot,
}
use infraco_os.Sales.Convert.{on_desk}

abbrev is_open_status : InvoiceStatus → Bool
is_open_status draft = true
is_open_status issued = true
is_open_status overdue = true
is_open_status _ = false

abbrev is_instalment : InvoiceType → Bool
is_instalment instalment = true
is_instalment _ = false

-- The invoices that a cancellation voids.
abbrev pub voidable : ℕ → Invoice → Bool
voidable account i =
    (i.account_id == account) && (is_instalment i.invoice_type && is_open_status i.status)

abbrev is_credit : TxnType → Bool
is_credit credit = true
is_credit _ = false

-- `SUM(amount) … WHERE account_id = $1 AND txn_type = 'credit'`
unfoldable pub received : ℕ → List LedgerEntry → ℤ
received account [] = pos 0
received account (e ∷ es) =
    if (e.account_id == account) && is_credit e.txn_type
    then e.amount +ℤ received account es
    else received account es

abbrev void_invoice : Invoice → Invoice
void_invoice i = record i { status = cancelled }

abbrev pub void_invoices : ℕ → Office → Office
void_invoices account o = record o {
  fin = record o.fin { invoices = update_where (voidable account) void_invoice o.fin.invoices };
}

abbrev pub close_account : ℕ → ℤ → Office → Office
close_account account refund o = record o {
  account_rows =
      update_where (has_account_id account)
        (λ a. record a { status = if ltb_ℤ (pos 0) refund then account_active else account_closed })
        o.account_rows;
}

pub record Cancellation : Type 0 where
  pub invoices_cancelled : ℕ
  pub refund_due : ℤ

-- The statements on the account of a sale that has one.
unfoldable pub wind_up : Option ℕ → Tx Office Cancellation
unfolding count_where received
wind_up none = pure (record { invoices_cancelled = 0; refund_due = pos 0 })
wind_up (some account) = do
  count ←
      statement (λ o. ok (count_where (voidable account) o.fin.invoices, void_invoices account o))
  refund ← query (λ o. received account o.fin.ledger)
  modify (close_account account refund)
  pure (record { invoices_cancelled = count; refund_due = refund })

abbrev is_open_reservation : ReservationStatus → Bool
is_open_reservation reservation_active = true
is_open_reservation converted = true
is_open_reservation _ = false

abbrev pub of_plot : ℕ → Reservation → Bool
of_plot plot r = (r.plot_id == plot) && is_open_reservation r.status

abbrev pub cancel_row : Reservation → Reservation
cancel_row r = record r { status = reservation_cancelled }

abbrev pub cancel_sale_row : Sale → Sale
cancel_sale_row s = record s { status = sale_cancelled }

-- The three updates of the sale, its plot's reservations and the plot.
abbrev pub release : ℕ → ℕ → Market → Market
release id plot m = record m {
  sales = update_where (has_key sale_key id) cancel_sale_row m.sales;
  reservations = update_where (of_plot plot) cancel_row m.reservations;
  plots = update_where (has_key plot_key plot) (set_plot available) m.plots;
}

unfoldable pub cancel_tx : ℕ → Tx Market Cancellation
unfolding wind_up
cancel_tx id = do
  found ← query (λ m. find? (has_key sale_key id) m.sales)
  s ← or_throw found not_found
  throw_if (not (is_pending s.status || is_approved s.status)) conflict
  done ← on_desk (on_office (wind_up s.account_id))
  modify (release id s.plot_id)
  pure done

-- `cancelSale(params)`; a blank reason is none.
unfoldable pub cancel_sale : ℕ → Option ℕ → Action Market Cancellation
unfolding cancel_tx
cancel_sale id reason = do or_throw reason bad_request; with_actor (cancel_tx id)
