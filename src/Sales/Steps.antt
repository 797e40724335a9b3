-- ===== src/Sales/Steps.antt =====
-- What `reservePlot`, `approveSale` and `cancelSale` of src/modules/sales/sales.service.ts do to plots,
-- reservations and sales.
use infraco_os.Common.{
  ℕ, Bool, true, false, not, ◌||◌, ◌≡◌, refl, sym, ap, ◌∙◌, subst, arith, Option, none, some,
  exists, find?, update_where, if◌then◌else◌,
}
use infraco_os.Common.Int.{pos}
use infraco_os.Lease.Single.{count_where}
use infraco_os.Common.Keys.{has_key}
use infraco_os.Common.Result.{ok, err, ok-inj}
use infraco_os.Database.Enums.{
  not_found, conflict, foreign_key_violation, plot_not_available, uq_active_reservation,
}
use infraco_os.Database.Transaction.{
  Tx, TxState, begin, ◌>>=◌, ◌>>◌, pure, throw_if, or_throw, modify,
}
use infraco_os.Database.Transaction.Laws.{>>=-ok, with_actor_keeps, with_actor-statement}
use infraco_os.Office.{Office}
use infraco_os.Schedule.Generate.{on_office}
use infraco_os.Sales.{
  Plot, Sale, Market, plot_key, sale_key, is_available, is_pending, is_approved, find_plot, held_on,
  knows_parties, with_reservation, reserve_found, reserve_proc, reserve_plot, approve_sale_row,
  sell_plot, approve_tx, approve_sale,
}
use infraco_os.Sales.Convert.{on_desk}
use infraco_os.Sales.Cancel.{
  Cancellation, voidable, received, void_invoices, close_account, wind_up, release, cancel_tx,
  cancel_sale,
}
use infraco_os.Sales.Sound.{IsSound, reserved_lem}
use infraco_os.Sales.Sound.Closing.{with_approval, with_approval_lem, release_lem}

-- A reservation that succeeds found its plot available.
pub reserve_proc_lem :
    (plot : ℕ) (customer agent : Option ℕ) (m : Market) {id : ℕ} {t : Market}
    → reserve_proc plot customer agent m ≡ ok (id, t)
    → (p : Plot) × (find_plot plot m ≡ some p)
      × (is_available p.status ≡ true)
      × (t ≡ with_reservation plot customer agent m)
unfolding reserve_proc
reserve_proc_lem plot customer agent m {id} {t} h = go (find_plot plot m) refl h
  where
    placed : ℕ × Market
    placed = (m.next_reservation_id, with_reservation plot customer agent m)

    passed :
        (a b c : Bool)
        → (if not a
            then err plot_not_available
            else if b
            then err uq_active_reservation
            else if c
            then err foreign_key_violation
            else ok placed)
          ≡ ok (id, t)
        → (a ≡ true) × (t ≡ with_reservation plot customer agent m)
    passed false b c k = absurd (ground arith)
    passed true true c k = absurd (ground arith)
    passed true false true k = absurd (ground arith)
    passed true false false k = (refl, ap (λ r. r.1) (sym (ok-inj k)))

    go :
        (o : Option Plot)
        → find_plot plot m ≡ o
        → reserve_found plot customer agent o m ≡ ok (id, t)
        → (p : Plot) × (find_plot plot m ≡ some p)
          × (is_available p.status ≡ true)
          × (t ≡ with_reservation plot customer agent m)
    go none e k = absurd (ground arith)
    go (some p) e k =
        let (free, at) =
          passed (is_available p.status) (exists (held_on plot) m.reservations)
            (not (knows_parties customer agent m)) k in
        (p, e, free, at)

pub reserve_plot-IsSound :
    (plot : ℕ) (customer agent : Option ℕ) (m : Market)
    → IsSound m
    → IsSound (reserve_plot plot customer agent m).1
unfolding reserve_plot
reserve_plot-IsSound plot customer agent m s =
    with_actor-statement IsSound (reserve_proc plot customer agent) m s (λ id t h.
      let (p, found, free, at) = reserve_proc_lem plot customer agent m h in
      subst IsSound (sym at) (reserved_lem plot customer agent m s found free))

-- What an approval that succeeds found, and what it leaves.
pub approve_tx_lem :
    (id : ℕ) (m : Market) {a : Unit {0}} {u : TxState Market}
    → approve_tx id (begin m) ≡ (ok a, u)
    → (x : Sale) × (find? (has_key sale_key id) m.sales ≡ some x)
      × (is_pending x.status ≡ true)
      × (u ≡ begin (with_approval id x.plot_id m))
unfolding approve_tx
approve_tx_lem id m {a} {u} h = go (find? (has_key sale_key id) m.sales) refl h
  where
    write : Sale → Tx Market (Unit {0})
    write x = do
      modify (λ m. record m { sales = update_where (has_key sale_key id) approve_sale_row m.sales })
      modify (λ m. record m { plots = update_where (has_key plot_key x.plot_id) sell_plot m.plots })

    checked :
        (x : Sale) (b : Bool)
        → (throw_if (not b) conflict >>= λ _. write x) (begin m) ≡ (ok a, u)
        → (b ≡ true) × (u ≡ begin (with_approval id x.plot_id m))
    checked x false k = absurd (ground arith)
    checked x true k = (refl, ap (λ r. r.1) (sym k))

    go :
        (o : Option Sale)
        → find? (has_key sale_key id) m.sales ≡ o
        → (or_throw o not_found >>= λ x.
              throw_if (not (is_pending x.status)) conflict >>= λ _. write x)
            (begin m)
          ≡ (ok a, u)
        → (x : Sale) × (find? (has_key sale_key id) m.sales ≡ some x)
          × (is_pending x.status ≡ true)
          × (u ≡ begin (with_approval id x.plot_id m))
    go none e k = absurd (ground arith)
    go (some x) e k = let (pending, at) = checked x (is_pending x.status) k in (x, e, pending, at)

pub approve_sale-IsSound : (id : ℕ) (m : Market) → IsSound m → IsSound (approve_sale id m).1
unfolding approve_sale
approve_sale-IsSound id m s = with_actor_keeps IsSound (approve_tx id) m s (λ a t h.
    let (x, found, pending, at) = approve_tx_lem id m h in
    subst (λ u. IsSound u.db) (sym at) (with_approval_lem id x m s found pending))

-- The statements on the account of a sale all succeed.
wind_up_runs :
    (account : Option ℕ) (m : Market)
    → (c : Cancellation) × (o : Office) × (o.customers ≡ m.desk.office.customers)
      × (on_desk (on_office (wind_up account)) (begin m)
          ≡ (ok c, begin (record m { desk = record m.desk { office = o } })))
unfolding wind_up
wind_up_runs none m =
    (record { invoices_cancelled = 0; refund_due = pos 0 }, m.desk.office, refl, refl)
wind_up_runs (some account) m = (
  record {
    invoices_cancelled = count_where (voidable account) m.desk.office.fin.invoices;
    refund_due = received account m.desk.office.fin.ledger;
  },
  close_account account (received account m.desk.office.fin.ledger)
      (void_invoices account m.desk.office),
  refl,
  refl,
)

-- A sale that is pending or approved can be cancelled, and its plot is released.
pub cancel_tx_runs :
    (id : ℕ) (m : Market) (x : Sale)
    → find? (has_key sale_key id) m.sales ≡ some x
    → (is_pending x.status || is_approved x.status) ≡ true
    → (c : Cancellation) × (o : Office) × (o.customers ≡ m.desk.office.customers)
      × (cancel_tx id (begin m)
          ≡ (ok c, begin (release id x.plot_id (record m { desk = record m.desk { office = o } }))))
unfolding cancel_tx
cancel_tx_runs id m x found live =
    let (c, o, customers, ran) = wind_up_runs x.account_id m in
    (
      c,
      o,
      customers,
      ap (λ f. (or_throw f not_found >>= checked) (begin m)) found
          ∙ (ap (λ b. (throw_if (not b) conflict >>= λ _. write x) (begin m)) live
              ∙ >>=-ok (on_desk (on_office (wind_up x.account_id))) (finish x) (begin m) ran),
    )
  where
    finish : Sale → Cancellation → Tx Market Cancellation
    finish x done = do modify (release id x.plot_id); pure done

    write : Sale → Tx Market Cancellation
    write x = on_desk (on_office (wind_up x.account_id)) >>= finish x

    checked : Sale → Tx Market Cancellation
    checked x =
        throw_if (not (is_pending x.status || is_approved x.status)) conflict >>= λ _. write x

-- A cancellation that succeeds found a sale that is pending or approved.
cancel_tx_lem :
    (id : ℕ) (m : Market) {c : Cancellation} {u : TxState Market}
    → cancel_tx id (begin m) ≡ (ok c, u)
    → (x : Sale) × (find? (has_key sale_key id) m.sales ≡ some x)
      × ((is_pending x.status || is_approved x.status) ≡ true)
unfolding cancel_tx
cancel_tx_lem id m {c} {u} h = go (find? (has_key sale_key id) m.sales) refl h
  where
    write : Sale → Tx Market Cancellation
    write x = do
      done ← on_desk (on_office (wind_up x.account_id))
      modify (release id x.plot_id)
      pure done

    checked :
        (x : Sale) (b : Bool)
        → (throw_if (not b) conflict >>= λ _. write x) (begin m) ≡ (ok c, u)
        → b ≡ true
    checked x false k = absurd (ground arith)
    checked x true k = refl

    go :
        (o : Option Sale)
        → find? (has_key sale_key id) m.sales ≡ o
        → (or_throw o not_found >>= λ x.
              throw_if (not (is_pending x.status || is_approved x.status)) conflict >>= λ _.
              write x)
            (begin m)
          ≡ (ok c, u)
        → (x : Sale) × (find? (has_key sale_key id) m.sales ≡ some x)
          × ((is_pending x.status || is_approved x.status) ≡ true)
    go none e k = absurd (ground arith)
    go (some x) e k = (x, e, checked x (is_pending x.status || is_approved x.status) k)

cancelled-IsSound :
    (id : ℕ) (m : Market) {c : Cancellation} {u : TxState Market}
    → IsSound m
    → cancel_tx id (begin m) ≡ (ok c, u)
    → IsSound u.db
cancelled-IsSound id m s h =
    let (x, found, live) = cancel_tx_lem id m h in
    let (c, o, customers, ran) = cancel_tx_runs id m x found live in
    let sound = release_lem id x m s found live in
    subst (λ r. IsSound r.1.db) (sym ran ∙ h)
      (record { keyed = sound.keyed; allocated = sound.allocated })

pub cancel_sale-IsSound :
    (id : ℕ) (reason : Option ℕ) (m : Market) → IsSound m → IsSound (cancel_sale id reason m).1
unfolding cancel_sale
cancel_sale-IsSound id none m s = s
cancel_sale-IsSound id (some reason) m s =
    with_actor_keeps IsSound (cancel_tx id) m s (λ a t h. cancelled-IsSound id m s h)
