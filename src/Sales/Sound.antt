-- ===== src/Sales/Sound.antt =====
-- What keeps a plot of src/modules/sales/sales.service.ts from being allocated twice: each change of
-- the tables of plots, reservations and sales agrees with the status of the plot.
pub mod Closing
use infraco_os.Common.{
  ℕ, suc, ◌+◌, ◌<◌, ◌≤◌, Bool, true, false, ◌&&◌, ◌||◌, ◌≡◌, ◌≢◌, ◌⊎◌, refl, sym, ap, subst, inl,
  inr, arith, Option, none, some, List, [], ◌∷◌, find?, update_where, ◌==◌, ==_refl, Bool-cases,
  if◌then◌else◌,
}
use infraco_os.Common.Keys.{
  Descending, Descending-update, has_key, find?-key, find?-update_self, find?-update_ne,
}
use infraco_os.Database.Enums.{PlotStatus, available, reserved, sold, transferred, withheld}
use infraco_os.Lease.Single.{count_where}
use infraco_os.Sales
use infraco_os.Sales.{
  pending_approval, Plot, Reservation, Sale, SaleStatus, Market, reservation_active, plot_key,
  reservation_key, sale_key, is_available, is_reserved, is_sold, is_held, is_pending, is_approved,
  find_plot, held_on, set_plot, with_reservation, approve_sale_row, sell_plot,
}
use infraco_os.Sales.Convert.{Agreement, new_sale, convert_row}
use infraco_os.Sales.Cancel.{of_plot, cancel_row, cancel_sale_row, release}
use infraco_os.Sales.Counts.{
  one_if, count_cons, count_update-le, count_update_none, count_update-lt, count_update_key,
}

abbrev pub pending_on : ℕ → Sale → Bool
pending_on plot s = is_pending s.status && (s.plot_id == plot)

abbrev pub approved_on : ℕ → Sale → Bool
approved_on plot s = is_approved s.status && (s.plot_id == plot)

-- The active reservations and pending sales of a plot, and its approved sales.
abbrev pub holds : ℕ → Market → ℕ
holds plot m = count_where (held_on plot) m.reservations + count_where (pending_on plot) m.sales

abbrev pub owns : ℕ → Market → ℕ
owns plot m = count_where (approved_on plot) m.sales

-- A reserved plot has room for one hold, and a sold one for one sale.
abbrev pub room_held : Option Plot → ℕ
room_held none = 0
room_held (some p) = one_if (is_reserved p.status)

abbrev pub room_sold : Option Plot → ℕ
room_sold none = 0
room_sold (some p) = one_if (is_sold p.status)

abbrev pub Fits : ℕ → Market → Option Plot → Type 0
Fits plot m o = (holds plot m ≤ room_held o) × (owns plot m ≤ room_sold o)

abbrev pub IsAllocated : Market → ℕ → Type 0
IsAllocated m plot = Fits plot m (find_plot plot m)

pub record IsSound (m : Market) : Type 0 where
  pub keyed : Descending sale_key m.next_sale_id m.sales
  pub allocated : (plot : ℕ) → IsAllocated m plot

-- Only these tables matter.
pub IsSound-same :
    {m t : Market}
    → IsSound m
    → t.plots ≡ m.plots
    → t.reservations ≡ m.reservations
    → t.sales ≡ m.sales
    → t.next_sale_id ≡ m.next_sale_id
    → IsSound t
IsSound-same s plots reservations sales next = record {
  keyed = rw (sales, next) s.keyed;
  allocated = λ plot. rw (plots, reservations, sales) (s.allocated plot);
}

pub reserved_lem :
    (plot : ℕ) (customer agent : Option ℕ) (m : Market) {p : Plot}
    → IsSound m
    → find_plot plot m ≡ some p
    → is_available p.status ≡ true
    → IsSound (with_reservation plot customer agent m)
reserved_lem plot customer agent m {p} s found free = record {
  keyed = s.keyed;
  allocated = λ other. choose other (Bool-cases (other == plot));
}
  where
    t : Market
    t = with_reservation plot customer agent m

    row : Reservation
    row = record {
      reservation_id = m.next_reservation_id;
      plot_id = plot;
      customer_id = customer;
      agent_id = agent;
      status = reservation_active;
    }

    choose :
        (other : ℕ) → ((other == plot) ≡ true) ⊎ ((other == plot) ≡ false) → IsAllocated t other
    choose other (inl same) =
        let at : other ≡ plot = ground arith in
        let (held, owned) = s.allocated plot in
        let now : find_plot plot t ≡ some (set_plot reserved p) =
          find?-update_self plot_key (set_plot reserved) plot m.plots {row = p} (λ x. refl) found in
        let was : room_held (find_plot plot m) ≡ 0 = rw found (ground arith) in
        let was' : room_sold (find_plot plot m) ≡ 0 = rw found (ground arith) in
        let count = count_cons (held_on plot) row m.reservations in
        let passes : held_on plot row ≡ true = ==_refl plot in
        subst (λ n. IsAllocated t n) (sym at)
          (subst (Fits plot t) (sym now)
            (let raised = rw passes at count in omega arith, omega arith))
    choose other (inr differs) =
        let (held, owned) = s.allocated other in
        let now : find_plot other t ≡ find_plot other m =
          find?-update_ne plot_key (set_plot reserved) plot other m.plots (λ x. refl)
            (ground arith) in
        let count = count_cons (held_on other) row m.reservations in
        let fails : held_on other row ≡ false = ground arith in
        let kept = rw fails at count in subst (Fits other t) (sym now) (omega arith, omega arith)

-- The sale of a reservation: the new row, and the reservation that it closes.
abbrev pub with_sale : ℕ → Agreement → ℕ → Market → Market
with_sale id a account m = record m {
  sales = new_sale a account m.next_sale_id ∷ m.sales;
  next_sale_id = m.next_sale_id + 1;
  reservations = update_where (has_key reservation_key id) convert_row m.reservations;
}

convert_row-kept :
    (plot : ℕ) (r : Reservation) → held_on plot (convert_row r) ≡ true → held_on plot r ≡ true
convert_row-kept plot r h = ground arith

pub with_sale_lem :
    (id account : ℕ) (a : Agreement) (m : Market)
    → IsSound m
    → find? (has_key reservation_key id) m.reservations ≡ some a.reservation
    → is_held a.reservation.status ≡ true
    → IsSound (with_sale id a account m)
with_sale_lem id account a m s found held = record {
  keyed = (omega arith, s.keyed);
  allocated = λ other. choose other (Bool-cases (a.reservation.plot_id == other));
}
  where
    t : Market
    t = with_sale id a account m

    row : Sale
    row = new_sale a account m.next_sale_id

    choose :
        (other : ℕ)
        → ((a.reservation.plot_id == other) ≡ true) ⊎ ((a.reservation.plot_id == other) ≡ false)
        → IsAllocated t other
    choose other (inl same) =
        let (holding, owning) = s.allocated other in
        let fewer =
          count_update-lt (held_on other) reservation_key convert_row id m.reservations
            {row = a.reservation} found (convert_row-kept other) (rw (held, same) refl)
            (rw held refl) in
        let pending = count_cons (pending_on other) row m.sales in
        let approved = count_cons (approved_on other) row m.sales in
        let pending' = rw same at pending in (omega arith, omega arith)
    choose other (inr differs) =
        let (holding, owning) = s.allocated other in
        let fewer =
          count_update-le (held_on other) (has_key reservation_key id) convert_row m.reservations
            (convert_row-kept other) in
        let pending = count_cons (pending_on other) row m.sales in
        let approved = count_cons (approved_on other) row m.sales in
        let pending' = rw differs at pending in (omega arith, omega arith)
