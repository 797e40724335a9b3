-- ===== src/Sales.antt =====
-- Plots, reservations and sales: src/modules/sales/sales.service.ts, with the stored procedure
-- sales.reserve_plot of src/db/infraco_os_schema.sql. The advisory locks order transactions that
-- touch one plot; a transaction here is one step.
pub mod Convert
pub mod Cancel
pub mod Counts
pub mod Sound
pub mod Steps
pub mod Agreed
pub mod Opening
pub mod Selling
pub mod Sold
pub mod History
mod Tests
use infraco_os.Common.{
  ℕ, suc, ◌+◌, Bool, true, false, not, ◌&&◌, ◌||◌, Option, none, some, List, ◌∷◌, exists, find?,
  update_where, ◌==◌, if◌then◌else◌,
}
use infraco_os.Common.Int.{ℤ}
use infraco_os.Common.Keys.{has_key}
use infraco_os.Common.Result.{Result, ok, err}
use infraco_os.Database.Enums.{
  Error, not_found, conflict, foreign_key_violation, plot_not_found, plot_not_available,
  uq_active_reservation, CurrencyCode, PlotStatus, available, reserved, sold,
}
use infraco_os.Database.Transaction.{
  Action, Tx, ◌>>=◌, ◌>>◌, pure, throw_if, or_throw, statement, query, modify, with_actor,
}
use infraco_os.Office.{has_customer, rethrow}
use infraco_os.Schedule.{Desk}

-- sales.plot_type
pub data PlotType : Type 0 where
  residential_plot hospitality business agro_plot : PlotType

-- sales.reservation_status
pub data ReservationStatus : Type 0 where
  reservation_active converted reservation_expired reservation_cancelled : ReservationStatus

-- sales.sale_status
pub data SaleStatus : Type 0 where
  pending_approval sale_active sale_cancelled completed : SaleStatus

-- sales.plot
pub record Plot : Type 0 where
  pub plot_id : ℕ
  pub plot_type : PlotType
  pub price : Option ℤ
  pub currency : CurrencyCode
  pub status : PlotStatus

-- sales.reservation
pub record Reservation : Type 0 where
  pub reservation_id : ℕ
  pub plot_id : ℕ
  pub customer_id : Option ℕ
  pub agent_id : Option ℕ
  pub status : ReservationStatus

-- sales.sale
pub record Sale : Type 0 where
  pub sale_id : ℕ
  pub plot_id : ℕ
  pub customer_id : ℕ
  pub agent_id : Option ℕ
  pub account_id : Option ℕ
  pub price : ℤ
  pub currency : CurrencyCode
  pub status : SaleStatus

-- The tables of the sales service, with those it shares; a document is the id of its sale.
pub record Market : Type 0 where
  pub desk : Desk
  pub users : List ℕ
  pub plots : List Plot
  pub reservations : List Reservation
  pub sales : List Sale
  pub documents : List ℕ
  pub next_reservation_id : ℕ
  pub next_sale_id : ℕ

abbrev pub plot_key : Plot → ℕ
plot_key p = p.plot_id

abbrev pub reservation_key : Reservation → ℕ
reservation_key r = r.reservation_id

abbrev pub sale_key : Sale → ℕ
sale_key s = s.sale_id

abbrev pub is_available : PlotStatus → Bool
is_available available = true
is_available _ = false

abbrev pub is_reserved : PlotStatus → Bool
is_reserved reserved = true
is_reserved _ = false

abbrev pub is_sold : PlotStatus → Bool
is_sold sold = true
is_sold _ = false

abbrev pub is_held : ReservationStatus → Bool
is_held reservation_active = true
is_held _ = false

abbrev pub is_pending : SaleStatus → Bool
is_pending pending_approval = true
is_pending _ = false

abbrev pub is_approved : SaleStatus → Bool
is_approved sale_active = true
is_approved _ = false

abbrev pub find_plot : ℕ → Market → Option Plot
find_plot id m = find? (has_key plot_key id) m.plots

-- The active reservations of a plot.
abbrev pub held_on : ℕ → Reservation → Bool
held_on plot r = is_held r.status && (r.plot_id == plot)

-- A foreign key that may be null.
abbrev pub refers : (ℕ → Bool) → Option ℕ → Bool
refers p none = true
refers p (some id) = p id

abbrev pub knows_parties : Option ℕ → Option ℕ → Market → Bool
knows_parties customer agent m =
    refers (λ id. exists (has_customer id) m.desk.office.customers) customer
    && refers (λ id. exists (λ u. u == id) m.users) agent

abbrev pub set_plot : PlotStatus → Plot → Plot
set_plot status p = record p { status = status }

abbrev pub with_reservation : ℕ → Option ℕ → Option ℕ → Market → Market
with_reservation plot customer agent m = record m {
  reservations =
      record {
        reservation_id = m.next_reservation_id;
        plot_id = plot;
        customer_id = customer;
        agent_id = agent;
        status = reservation_active;
      }
      ∷ m.reservations;
  plots = update_where (has_key plot_key plot) (set_plot reserved) m.plots;
  next_reservation_id = m.next_reservation_id + 1;
}

abbrev pub reserve_found :
    ℕ → Option ℕ → Option ℕ → Option Plot → Market → Result Error (ℕ × Market)
reserve_found plot customer agent none m = err plot_not_found
reserve_found plot customer agent (some p) m =
    if not (is_available p.status)
    then err plot_not_available
    else if exists (held_on plot) m.reservations
    then err uq_active_reservation
    else if not (knows_parties customer agent m)
    then err foreign_key_violation
    else ok (m.next_reservation_id, with_reservation plot customer agent m)

-- sales.reserve_plot, without the time at which a reservation runs out, which nothing reads.
unfoldable pub reserve_proc : ℕ → Option ℕ → Option ℕ → Market → Result Error (ℕ × Market)
reserve_proc plot customer agent m = reserve_found plot customer agent (find_plot plot m) m

abbrev pub reserve_error : Error → Error
reserve_error plot_not_available = conflict
reserve_error plot_not_found = not_found
reserve_error uq_active_reservation = conflict
reserve_error e = e

-- `reservePlot(params)`
unfoldable pub reserve_plot : ℕ → Option ℕ → Option ℕ → Action Market ℕ
unfolding reserve_proc
reserve_plot plot customer agent =
    rethrow reserve_error (with_actor (statement (reserve_proc plot customer agent)))

abbrev pub approve_sale_row : Sale → Sale
approve_sale_row s = record s { status = sale_active }

-- `SET status = 'sold' … AND status = 'reserved'`
abbrev pub sell_plot : Plot → Plot
sell_plot p = record p { status = if is_reserved p.status then sold else p.status }

unfoldable pub approve_tx : ℕ → Tx Market (Unit {0})
approve_tx id = do
  found ← query (λ m. find? (has_key sale_key id) m.sales)
  s ← or_throw found not_found
  throw_if (not (is_pending s.status)) conflict
  modify (λ m. record m { sales = update_where (has_key sale_key id) approve_sale_row m.sales })
  modify (λ m. record m { plots = update_where (has_key plot_key s.plot_id) sell_plot m.plots })

-- `approveSale(params)`
unfoldable pub approve_sale : ℕ → Action Market (Unit {0})
unfolding approve_tx
approve_sale id = with_actor (approve_tx id)
