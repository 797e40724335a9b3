-- ===== src/Sales/Selling.antt =====
-- The writes of `convertReservationToSale` of src/modules/sales/sales.service.ts, one by one.
use infraco_os.Common.{
  ℕ, ◌+◌, Bool, true, false, ◌≡◌, sym, ap, ◌∙◌, subst, arith, ◌∷◌, exists, update_where,
  if◌then◌else◌,
}
use infraco_os.Common.Keys.{has_key}
use infraco_os.Common.Result.{Result, ok, err, ok-inj}
use infraco_os.Database.Enums.{Error, uq_active_sale}
use infraco_os.Database.Transaction.{Tx, TxState, begin, ◌>>◌, pure, statement, modify}
use infraco_os.Database.Transaction.Laws.{>>=-eq-ok, statement-eq-ok, zoom-eq-ok}
use infraco_os.Office.{Reference}
use infraco_os.Rent.{Ymd}
use infraco_os.Schedule.{Desk}
use infraco_os.Schedule.Generate.{Schedule, generate_schedule_tx}
use infraco_os.Schedule.Totals.{IsInserted, generate_schedule_tx-IsInserted}
use infraco_os.Sales.{Market, reservation_key}
use infraco_os.Sales.Convert.{
  ConvertReservation, Agreement, on_desk, takes_plot, new_sale, store_sale, convert_row,
  record_sale, schedule_request, Converted, paper_sale,
}
use infraco_os.Sales.Sound.{with_sale}

pub record_sale_lem :
    (id : ℕ) (a : Agreement) (account : ℕ) (m : Market) {sale : ℕ} {u : TxState Market}
    → record_sale id a account (begin m) ≡ (ok sale, u)
    → (sale ≡ m.next_sale_id) × (u ≡ begin (with_sale id a account m))
unfolding record_sale
record_sale_lem id a account m {sale} {u} h =
    let (x, v, stored, after) = >>=-eq-ok (statement (store_sale a account)) close (begin m) h in
    let (t, ran, at) = statement-eq-ok (store_sale a account) m stored in
    let (is_x, is_t) = passed (exists (takes_plot a.reservation.plot_id) m.sales) ran in
    let done = subst (λ n. close x n ≡ (ok sale, u)) (at ∙ ap begin (sym is_t)) after in
    (ap (λ r. sale_of r.0 x) (sym done) ∙ sym is_x, ap (λ r. r.1) (sym done))
  where
    close : ℕ → Tx Market ℕ
    close n = do
      modify (λ m. record m {
        reservations = update_where (has_key reservation_key id) convert_row m.reservations;
      })
      pure n

    sale_of : Result Error ℕ → ℕ → ℕ
    sale_of (ok n) d = n
    sale_of (err e) d = d

    sold_row : ℕ × Market
    sold_row = (
      m.next_sale_id,
      record m {
        sales = new_sale a account m.next_sale_id ∷ m.sales;
        next_sale_id = m.next_sale_id + 1;
      },
    )

    passed :
        (b : Bool) {x : ℕ} {t : Market}
        → (if b then err uq_active_sale else ok sold_row) ≡ ok (x, t)
        → (m.next_sale_id ≡ x) × (sold_row.1 ≡ t)
    passed true k = absurd (ground arith)
    passed false k = (ap (λ r. r.0) (ok-inj k), ap (λ r. r.1) (ok-inj k))

pub paper_sale_lem :
    (code : Reference → ℕ) (today : Ymd) (p : ConvertReservation) (a : Agreement) (account sale : ℕ)
    (m : Market) {c : Converted} {u : TxState Market}
    → paper_sale code today p a account sale (begin m) ≡ (ok c, u)
    → (d : Desk) × (u ≡ begin (record m { desk = d; documents = sale ∷ m.documents }))
      × IsInserted code account (schedule_request today p a) m.desk.office d.office
      × (c.sale_id ≡ sale)
      × (c.account_id ≡ account)
      × (c.price ≡ a.price)
unfolding paper_sale
paper_sale_lem code today p a account sale m {c} {u} h =
    let (s, v, generated, after) =
      >>=-eq-ok (on_desk (generate_schedule_tx code account (schedule_request today p a))) finish
        (begin m) h in
    let (w, ran, at) =
      zoom-eq-ok (λ n. n.desk) (λ d n. record n { desk = d })
        (generate_schedule_tx code account (schedule_request today p a)) m generated in
    let (d, at', scheduled) =
      generate_schedule_tx-IsInserted code account (schedule_request today p a) m.desk ran in
    let done =
      subst (λ n. finish s n ≡ (ok c, u))
        (at ∙ ap (λ x. record { db = record m { desk = x.db }; aborted = x.aborted }) at') after in
    let is_c = ok-inj (ap (λ r. r.0) done) in
    (
      d,
      ap (λ r. r.1) (sym done),
      scheduled,
      ap (λ x. x.sale_id) (sym is_c),
      ap (λ x. x.account_id) (sym is_c),
      ap (λ x. x.price) (sym is_c),
    )
  where
    finish : Schedule → Tx Market Converted
    finish schedule = do
      modify (λ m. record m { documents = sale ∷ m.documents })
      pure (record {
        sale_id = sale;
        account_id = account;
        price = a.price;
        currency = a.plot.currency;
        schedule = schedule;
      })
