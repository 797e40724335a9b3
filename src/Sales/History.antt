-- ===== src/Sales/History.antt =====
-- Runs of the sales service: src/modules/sales/sales.service.ts.
use infraco_os.Common.{
  ℕ, Bool, true, false, ◌||◌, ◌≡◌, refl, sym, ap, ◌∙◌, subst, inl, inr, arith, Option, some, List,
  [], ◌∷◌, exists, find?, Bool-cases, if◌then◌else◌,
}
use infraco_os.Common.Keys.{has_key, find?-update_self}
use infraco_os.Common.Result.{Result, ok, err}
use infraco_os.Database.Enums
use infraco_os.Database.Enums.{
  PlotStatus, Error, conflict, plot_not_available, uq_active_reservation, foreign_key_violation,
  available, reserved,
}
use infraco_os.Database.Transaction.{begin, settle, commit, statement, with_actor}
use infraco_os.Database.Transaction.Laws.{with_actor-eq-ok, statement-eq-ok}
use infraco_os.Office.{Reference, map_error}
use infraco_os.Rent.{Ymd}
use infraco_os.Lease.Single.{count_where}
use infraco_os.Sales.{
  Plot, Sale, Market, plot_key, sale_key, is_available, is_reserved, is_pending, is_approved,
  find_plot, held_on, knows_parties, set_plot, with_reservation, reserve_found, reserve_proc,
  reserve_error, reserve_plot, approve_sale,
}
use infraco_os.Sales.Convert.{ConvertReservation, convert_reservation}
use infraco_os.Sales.Cancel.{Cancellation, release, cancel_sale}
use infraco_os.Sales.Sound.{room_held, IsSound}
use infraco_os.Sales.Counts.{one_if}
use infraco_os.Sales.Sound.Closing.{sale_plot, release_lem}
use infraco_os.Sales.Sold.{rethrow-eq-ok, convert_reservation-IsSound}
use infraco_os.Sales.Steps.{
  reserve_proc_lem, reserve_plot-IsSound, approve_sale-IsSound, cancel_tx_runs, cancel_sale-IsSound,
}

-- The operations of the service, with the parameters of a call.
pub data Op : Type 0 where
  reserves : (plot : ℕ) → (customer agent : Option ℕ) → Op
  converts :
      (Reference → ℕ) → (stamp : ℕ) → (today : Ymd) → (reservation : ℕ) → ConvertReservation → Op
  approves : (sale : ℕ) → Op
  cancels : (sale : ℕ) → (reason : Option ℕ) → Op

unfoldable pub step_sales : Op → Market → Market
unfolding reserve_plot convert_reservation approve_sale cancel_sale
step_sales (reserves plot customer agent) m = (reserve_plot plot customer agent m).1
step_sales (converts code stamp today id p) m = (convert_reservation code stamp today id p m).1
step_sales (approves id) m = (approve_sale id m).1
step_sales (cancels id reason) m = (cancel_sale id reason m).1

unfoldable pub run_sales : List Op → Market → Market
unfolding step_sales
run_sales [] m = m
run_sales (op ∷ ops) m = run_sales ops (step_sales op m)

step_sales-IsSound : (op : Op) (m : Market) → IsSound m → IsSound (step_sales op m)
unfolding step_sales
step_sales-IsSound (reserves plot customer agent) m s = reserve_plot-IsSound plot customer agent m s
step_sales-IsSound (converts code stamp today id p) m s =
    convert_reservation-IsSound code stamp today id p m s
step_sales-IsSound (approves id) m s = approve_sale-IsSound id m s
step_sales-IsSound (cancels id reason) m s = cancel_sale-IsSound id reason m s

-- No plot is allocated twice, whatever is called and whatever the calls return: a reserved plot has at
-- most one active reservation or pending sale and no approved sale, a sold plot has at most one
-- approved sale and neither of those, and any other plot has none of the three.
pub run_sales-IsSound : (ops : List Op) (m : Market) → IsSound m → IsSound (run_sales ops m)
unfolding run_sales
run_sales-IsSound [] m s = s
run_sales-IsSound (op ∷ ops) m s =
    run_sales-IsSound ops (step_sales op m) (step_sales-IsSound op m s)

-- What a call returns and leaves, by how its statement ends.
abbrev reserve_outcome : Market → Result Error (ℕ × Market) → Result Error ℕ × Market
reserve_outcome m r = let (x, t) = commit m (settle (begin m) r) in (map_error reserve_error x, t)

reserve_refused :
    (plot : ℕ) (customer agent : Option ℕ) (m : Market) {p : Plot}
    → find_plot plot m ≡ some p
    → is_available p.status ≡ false
    → reserve_plot plot customer agent m ≡ (err conflict, m)
unfolding reserve_plot reserve_proc
reserve_refused plot customer agent m {p} found taken = ap (reserve_outcome m) refused
  where
    refused : reserve_found plot customer agent (find_plot plot m) m ≡ err plot_not_available
    refused = ap (λ o. reserve_found plot customer agent o m) found ∙ rw taken refl

-- Once a plot has been reserved, another reservation of it, whoever asks, is a conflict and changes
-- nothing.
pub reserve_plot_again :
    (plot : ℕ) (customer agent other_customer other_agent : Option ℕ) (m t : Market) {id : ℕ}
    → reserve_plot plot customer agent m ≡ (ok id, t)
    → reserve_plot plot other_customer other_agent t ≡ (err conflict, t)
unfolding reserve_plot
reserve_plot_again plot customer agent other_customer other_agent m t h =
    let ran =
      rethrow-eq-ok reserve_error (with_actor (statement (reserve_proc plot customer agent))) m h in
    let (u, done, left) = with_actor-eq-ok (statement (reserve_proc plot customer agent)) m ran in
    let (t', stored, at) = statement-eq-ok (reserve_proc plot customer agent) m done in
    let (p, found, free, is_t) = reserve_proc_lem plot customer agent m stored in
    let same : t ≡ with_reservation plot customer agent m =
      left ∙ (ap (λ x. if x.aborted then m else x.db) at ∙ is_t) in
    reserve_refused plot other_customer other_agent t {p = set_plot reserved p}
      (subst (λ x. find_plot plot x ≡ some (set_plot reserved p)) (sym same)
        (find?-update_self plot_key (set_plot reserved) plot m.plots {row = p} (λ x. refl) found))
      refl

count-exists :
    {A : Type 0} (q : A → Bool) (xs : List A) → count_where q xs ≡ 0 → exists q xs ≡ false
unfolding count_where
count-exists q [] h = refl
count-exists q (x ∷ xs) h = elim (Bool-cases (q x)) [
  | inl passes ↦ let at = rw passes at h in absurd (omega arith)
  | inr fails ↦ let at = rw fails at h in rw fails (count-exists q xs at)
]

-- A plot that is available can be reserved for a customer and an agent who are known.
reserve_available :
    (plot : ℕ) (customer agent : Option ℕ) (m : Market) {p : Plot}
    → IsSound m
    → find_plot plot m ≡ some p
    → is_available p.status ≡ true
    → knows_parties customer agent m ≡ true
    → reserve_plot plot customer agent m
      ≡ (ok m.next_reservation_id, with_reservation plot customer agent m)
unfolding reserve_plot reserve_proc
reserve_available plot customer agent m {p} s found free known = ap (reserve_outcome m) placed
  where
    no_hold : (x : PlotStatus) → is_available x ≡ true → is_reserved x ≡ false
    no_hold available h = refl
    no_hold Enums.reserved h = absurd (ground arith)
    no_hold Enums.sold h = absurd (ground arith)
    no_hold Enums.transferred h = absurd (ground arith)
    no_hold Enums.withheld h = absurd (ground arith)

    room : room_held (find_plot plot m) ≡ 0
    room = ap room_held found ∙ ap one_if (no_hold p.status free)

    unheld : exists (held_on plot) m.reservations ≡ false
    unheld =
        let (holding, owning) = s.allocated plot in
        let none_left = room in count-exists (held_on plot) m.reservations (omega arith)

    placed :
        reserve_found plot customer agent (find_plot plot m) m
        ≡ ok (m.next_reservation_id, with_reservation plot customer agent m)
    placed = ap (λ o. reserve_found plot customer agent o m) found ∙ rw (free, unheld, known) refl

-- A sale that is pending or approved can be cancelled, for any reason that is not blank, and its plot
-- can then be reserved at once for a customer and an agent who are known.
pub cancel_sale-reserve_plot :
    (id reason : ℕ) (customer agent : Option ℕ) (m : Market) (x : Sale)
    → IsSound m
    → find? (has_key sale_key id) m.sales ≡ some x
    → (is_pending x.status || is_approved x.status) ≡ true
    → knows_parties customer agent m ≡ true
    → (c : Cancellation) × (t : Market) × (cancel_sale id (some reason) m ≡ (ok c, t))
      × (reserve_plot x.plot_id customer agent t
          ≡ (ok t.next_reservation_id, with_reservation x.plot_id customer agent t))
unfolding cancel_sale
cancel_sale-reserve_plot id reason customer agent m x s found live known =
    let (c, o, customers, ran) = cancel_tx_runs id m x found live in
    let (p, is_p) = sale_plot id x m s found live in
    let sound = release_lem id x m s found live in
    let t : Market = release id x.plot_id (record m { desk = record m.desk { office = o } }) in
    (
      c,
      t,
      ap (commit m) ran,
      reserve_available x.plot_id customer agent t {p = set_plot available p}
          (record { keyed = sound.keyed; allocated = sound.allocated })
          (find?-update_self plot_key (set_plot available) x.plot_id m.plots {row = p} (λ y. refl)
            is_p)
          refl (rw customers known),
    )
