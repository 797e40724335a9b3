-- ===== src/Sales/Sound/Closing.antt =====
-- Approvals and cancellations of src/modules/sales/sales.service.ts agree with the status of the plot.
use infraco_os.Common.{
  ℕ, ◌+◌, ◌≤◌, Bool, true, false, ◌&&◌, ◌||◌, ◌≡◌, ◌⊎◌, refl, sym, subst, inl, inr, arith, Option,
  none, some, find?, update_where, ◌==◌, ==_refl, Bool-cases,
}
use infraco_os.Common.Keys.{Descending-update, has_key, find?-update_self, find?-update_ne}
use infraco_os.Database.Enums.{PlotStatus, available, reserved, sold, transferred, withheld}
use infraco_os.Lease.Single.{count_where}
use infraco_os.Sales
use infraco_os.Sales.{
  pending_approval, Plot, Reservation, Sale, SaleStatus, Market, reservation_active, plot_key,
  reservation_key, sale_key, is_available, is_reserved, is_sold, is_held, is_pending, is_approved,
  find_plot, held_on, set_plot, with_reservation, approve_sale_row, sell_plot,
}
use infraco_os.Sales.Cancel.{of_plot, cancel_row, cancel_sale_row, release}
use infraco_os.Sales.Counts.{one_if, count_update-le, count_update_none, count_update_key}
use infraco_os.Sales.Sound.{
  pending_on, approved_on, room_held, room_sold, Fits, IsAllocated, IsSound,
}

reserved_plot :
    (o : Option Plot) → 1 ≤ room_held o → (p : Plot) × (o ≡ some p) × (p.status ≡ reserved)
reserved_plot none h = absurd (omega arith)
reserved_plot (some p) h = (p, refl, named p.status h)
  where
    named : (x : PlotStatus) → 1 ≤ one_if (is_reserved x) → x ≡ reserved
    named reserved k = refl
    named available k = absurd (omega arith)
    named sold k = absurd (omega arith)
    named transferred k = absurd (omega arith)
    named withheld k = absurd (omega arith)

abbrev pub with_approval : ℕ → ℕ → Market → Market
with_approval id plot m = record m {
  sales = update_where (has_key sale_key id) approve_sale_row m.sales;
  plots = update_where (has_key plot_key plot) sell_plot m.plots;
}

pending_not_approved : (x : SaleStatus) → is_pending x ≡ true → is_approved x ≡ false
pending_not_approved pending_approval h = refl
pending_not_approved Sales.sale_active h = absurd (ground arith)
pending_not_approved Sales.sale_cancelled h = absurd (ground arith)
pending_not_approved Sales.completed h = absurd (ground arith)

-- An update of one sale leaves the counts of the other plots.
others :
    (f : Sale → Sale) (id other : ℕ) (m : Market) (x : Sale)
    → IsSound m
    → find? (has_key sale_key id) m.sales ≡ some x
    → ((y : Sale) → ((f y).plot_id ≡ y.plot_id) × ((f y).sale_id ≡ y.sale_id))
    → (x.plot_id == other) ≡ false
    → (count_where (pending_on other) (update_where (has_key sale_key id) f m.sales)
        ≡ count_where (pending_on other) m.sales)
      × (count_where (approved_on other) (update_where (has_key sale_key id) f m.sales)
          ≡ count_where (approved_on other) m.sales)
others f id other m x s found same differs =
    let held =
      count_update_key (pending_on other) sale_key f id m.next_sale_id m.sales {row = x} s.keyed
        found in
    let owned =
      count_update_key (approved_on other) sale_key f id m.next_sale_id m.sales {row = x} s.keyed
        found in
    let plot : (f x).plot_id ≡ x.plot_id = (same x).0 in
    let held' =
      rw (idle (is_pending x.status) x.plot_id differs, moved (is_pending (f x).status) plot) at
        held in
    let owned' =
      rw (idle (is_approved x.status) x.plot_id differs, moved (is_approved (f x).status) plot) at
        owned in
    (omega arith, omega arith)
  where
    idle : (b : Bool) (n : ℕ) → (n == other) ≡ false → (b && (n == other)) ≡ false
    idle true n h = h
    idle false n h = refl

    moved : (b : Bool) → (f x).plot_id ≡ x.plot_id → (b && ((f x).plot_id == other)) ≡ false
    moved b e = idle b (f x).plot_id (subst (λ n. (n == other) ≡ false) (sym e) differs)

pub with_approval_lem :
    (id : ℕ) (x : Sale) (m : Market)
    → IsSound m
    → find? (has_key sale_key id) m.sales ≡ some x
    → is_pending x.status ≡ true
    → IsSound (with_approval id x.plot_id m)
with_approval_lem id x m s found pending = record {
  keyed = Descending-update sale_key approve_sale_row id m.next_sale_id m.sales (λ y. refl) s.keyed;
  allocated = λ other. choose other (Bool-cases (x.plot_id == other));
}
  where
    t : Market
    t = with_approval id x.plot_id m

    choose :
        (other : ℕ)
        → ((x.plot_id == other) ≡ true) ⊎ ((x.plot_id == other) ≡ false)
        → IsAllocated t other
    choose other (inl same) =
        let at : x.plot_id ≡ other = ground arith in
        let (holding, owning) = s.allocated other in
        let held =
          count_update_key (pending_on other) sale_key approve_sale_row id m.next_sale_id m.sales
            {row = x} s.keyed found in
        let owned =
          count_update_key (approved_on other) sale_key approve_sale_row id m.next_sale_id m.sales
            {row = x} s.keyed found in
        let held' = rw (pending, same) at held in
        let (p, is_p, status) = reserved_plot (find_plot other m) (omega arith) in
        let fresh = pending_not_approved x.status pending in
        let owned' = rw (fresh, same) at owned in
        let was : room_sold (find_plot other m) ≡ 0 = rw (is_p, status) refl in
        let room : room_held (find_plot other m) ≡ 1 = rw (is_p, status) refl in
        let now : find_plot x.plot_id t ≡ some (sell_plot p) =
          find?-update_self plot_key sell_plot x.plot_id m.plots {row = p} (λ y. refl)
            (subst (λ n. find_plot n m ≡ some p) (sym at) is_p) in
        let sells : sell_plot p ≡ set_plot sold p = rw status refl in
        subst (λ n. Fits other t (find_plot n t)) at
          (subst (Fits other t) (sym now)
            (subst (λ y. Fits other t (some y)) (sym sells) (omega arith, omega arith)))
    choose other (inr differs) =
        let (holding, owning) = s.allocated other in
        let (held, owned) =
          others approve_sale_row id other m x s found (λ y. (refl, refl)) differs in
        let now : find_plot other t ≡ find_plot other m =
          find?-update_ne plot_key sell_plot x.plot_id other m.plots (λ y. refl) (ground arith) in
        subst (Fits other t) (sym now) (omega arith, omega arith)

one_room : (o : Option Plot) → room_held o + room_sold o ≤ 1
one_room none = omega arith
one_room (some p) = choose p.status
  where
    choose : (x : PlotStatus) → one_if (is_reserved x) + one_if (is_sold x) ≤ 1
    choose available = omega arith
    choose reserved = omega arith
    choose sold = omega arith
    choose transferred = omega arith
    choose withheld = omega arith

found_plot : (o : Option Plot) → 1 ≤ room_held o + room_sold o → (p : Plot) × (o ≡ some p)
found_plot none h = absurd (omega arith)
found_plot (some p) h = (p, refl)

one_if_own : (b : Bool) (n : ℕ) → one_if (b && (n == n)) ≡ one_if b
one_if_own true n = rw (==_refl n) refl
one_if_own false n = refl

live_counts :
    (y : SaleStatus)
    → (is_pending y || is_approved y) ≡ true
    → one_if (is_pending y) + one_if (is_approved y) ≡ 1
live_counts pending_approval h = refl
live_counts Sales.sale_active h = refl
live_counts Sales.sale_cancelled h = absurd (ground arith)
live_counts Sales.completed h = absurd (ground arith)

-- The plot of a sale that is pending or approved is there.
pub sale_plot :
    (id : ℕ) (x : Sale) (m : Market)
    → IsSound m
    → find? (has_key sale_key id) m.sales ≡ some x
    → (is_pending x.status || is_approved x.status) ≡ true
    → (p : Plot) × (find_plot x.plot_id m ≡ some p)
sale_plot id x m s found live =
    let (holding, owning) = s.allocated x.plot_id in
    let held =
      count_update_key (pending_on x.plot_id) sale_key cancel_sale_row id m.next_sale_id m.sales
        {row = x} s.keyed found in
    let owned =
      count_update_key (approved_on x.plot_id) sale_key cancel_sale_row id m.next_sale_id m.sales
        {row = x} s.keyed found in
    let held_one = one_if_own (is_pending x.status) x.plot_id in
    let owned_one = one_if_own (is_approved x.status) x.plot_id in
    let one = live_counts x.status live in found_plot (find_plot x.plot_id m) (omega arith)

-- A cancelled sale is of no plot, and its plot has no reservation that is active.
pub release_lem :
    (id : ℕ) (x : Sale) (m : Market)
    → IsSound m
    → find? (has_key sale_key id) m.sales ≡ some x
    → (is_pending x.status || is_approved x.status) ≡ true
    → IsSound (release id x.plot_id m)
release_lem id x m s found live = record {
  keyed = Descending-update sale_key cancel_sale_row id m.next_sale_id m.sales (λ y. refl) s.keyed;
  allocated = λ other. choose other (Bool-cases (x.plot_id == other));
}
  where
    t : Market
    t = release id x.plot_id m

    choose :
        (other : ℕ)
        → ((x.plot_id == other) ≡ true) ⊎ ((x.plot_id == other) ≡ false)
        → IsAllocated t other
    choose other (inl same) =
        let at : x.plot_id ≡ other = ground arith in
        let (holding, owning) = s.allocated x.plot_id in
        let held =
          count_update_key (pending_on x.plot_id) sale_key cancel_sale_row id m.next_sale_id m.sales
            {row = x} s.keyed found in
        let owned =
          count_update_key (approved_on x.plot_id) sale_key cancel_sale_row id m.next_sale_id
            m.sales {row = x} s.keyed found in
        let held_one = one_if_own (is_pending x.status) x.plot_id in
        let owned_one = one_if_own (is_approved x.status) x.plot_id in
        let one = live_counts x.status live in
        let room = one_room (find_plot x.plot_id m) in
        let none_held =
          count_update_none (held_on x.plot_id) (of_plot x.plot_id) cancel_row m.reservations
            (λ r. refl) (λ r out. ground arith) in
        let (p, is_p) = sale_plot id x m s found live in
        let now : find_plot x.plot_id t ≡ some (set_plot available p) =
          find?-update_self plot_key (set_plot available) x.plot_id m.plots {row = p} (λ y. refl)
            is_p in
        subst (IsAllocated t) at (subst (Fits x.plot_id t) (sym now) (omega arith, omega arith))
    choose other (inr differs) =
        let (holding, owning) = s.allocated other in
        let (held, owned) =
          others cancel_sale_row id other m x s found (λ y. (refl, refl)) differs in
        let fewer =
          count_update-le (held_on other) (of_plot x.plot_id) cancel_row m.reservations
            (λ r h. absurd (ground arith)) in
        let now : find_plot other t ≡ find_plot other m =
          find?-update_ne plot_key (set_plot available) x.plot_id other m.plots (λ y. refl)
            (ground arith) in
        subst (Fits other t) (sym now) (omega arith, omega arith)
