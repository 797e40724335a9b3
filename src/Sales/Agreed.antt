-- ===== src/Sales/Agreed.antt =====
-- What `convertReservationToSale` of src/modules/sales/sales.service.ts checks before it writes.
use infraco_os.Common.{
  ℕ, Bool, true, false, not, ◌≡◌, refl, subst, arith, Option, none, some, find?, if◌then◌else◌,
}
use infraco_os.Common.Int.{ℤ, pos, ltb_ℤ}
use infraco_os.Common.Keys.{has_key}
use infraco_os.Common.Result.{Result, ok, err, ok-inj}
use infraco_os.Database.Enums.{Error, bad_request, conflict}
use infraco_os.Sales.{Plot, Reservation, Market, reservation_key, is_reserved, is_held, find_plot}
use infraco_os.Sales.Convert.{
  Agreement, first_some, agree_price, agree_plot, agree_customer, agree_found, agree,
}

-- An agreement is on an active reservation of a reserved plot, at the price of the request or else of
-- the plot.
pub record IsAgreed (id : ℕ) (override : Option ℤ) (m : Market) (a : Agreement) : Type 0 where
  pub found : find? (has_key reservation_key id) m.reservations ≡ some a.reservation
  pub held : is_held a.reservation.status ≡ true
  pub customer : a.reservation.customer_id ≡ some a.customer
  pub plot : find_plot a.reservation.plot_id m ≡ some a.plot
  pub reserved : is_reserved a.plot.status ≡ true
  pub price : first_some override a.plot.price ≡ some a.price

pub agree-IsAgreed :
    (id : ℕ) (override : Option ℤ) (m : Market) {a : Agreement}
    → agree id override m ≡ ok a
    → IsAgreed id override m a
unfolding agree
agree-IsAgreed id override m {a} h =
    reservation (find? (has_key reservation_key id) m.reservations) refl h
  where
    priced :
        (r : Reservation) (c : ℕ) (p : Plot) (o : Option ℤ)
        → agree_price r c p o ≡ ok a
        → (price : ℤ) × (o ≡ some price)
          × (record { reservation = r; customer = c; plot = p; price = price } ≡ a)
    priced r c p none k = absurd (ground arith)
    priced r c p (some price) k = choose (ltb_ℤ price (pos 0)) k
      where
        made : Agreement
        made = record { reservation = r; customer = c; plot = p; price = price }

        choose :
            (b : Bool)
            → (if b then err bad_request else ok made) ≡ ok a
            → (x : ℤ) × (some price ≡ some x)
              × (record { reservation = r; customer = c; plot = p; price = x } ≡ a)
        choose true k = absurd (ground arith)
        choose false k = (price, refl, ok-inj k)

    guard :
        {x : Result Error Agreement} (b : Bool)
        → (if not b then err conflict else x) ≡ ok a
        → (b ≡ true) × (x ≡ ok a)
    guard true k = (refl, k)
    guard false k = absurd (ground arith)

    plotted :
        (r : Reservation) (c : ℕ) (o : Option Plot)
        → find? (has_key reservation_key id) m.reservations ≡ some r
        → is_held r.status ≡ true
        → r.customer_id ≡ some c
        → find_plot r.plot_id m ≡ o
        → agree_plot override r c o ≡ ok a
        → IsAgreed id override m a
    plotted r c none e held customer at k = absurd (ground arith)
    plotted r c (some p) e held customer at k =
        let (reserved, k') = guard (is_reserved p.status) k in
        let (price, is_price, made) = priced r c p (first_some override p.price) k' in
        subst (IsAgreed id override m) made (record {
          found = e;
          held = held;
          customer = customer;
          plot = at;
          reserved = reserved;
          price = is_price;
        })

    bought :
        (r : Reservation) (o : Option ℕ)
        → find? (has_key reservation_key id) m.reservations ≡ some r
        → is_held r.status ≡ true
        → r.customer_id ≡ o
        → agree_customer override m r o ≡ ok a
        → IsAgreed id override m a
    bought r none e held customer k = absurd (ground arith)
    bought r (some c) e held customer k = plotted r c (find_plot r.plot_id m) e held customer refl k

    reservation :
        (o : Option Reservation)
        → find? (has_key reservation_key id) m.reservations ≡ o
        → agree_found override m o ≡ ok a
        → IsAgreed id override m a
    reservation none e k = absurd (ground arith)
    reservation (some r) e k =
        let (held, k') = guard (is_held r.status) k in bought r r.customer_id e held refl k'
