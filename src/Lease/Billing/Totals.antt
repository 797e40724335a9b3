-- ===== src/Lease/Billing/Totals.antt =====
-- What the rent run of src/modules/lease/lease.service.ts bills in all.
use infraco_os.Common.{
  ℕ, suc, ◌+◌, ◌≡◌, refl, sym, ap, ◌∙◌, Option, none, some, List, [], ◌∷◌, length, arith,
}
use infraco_os.Common.Int.{ℤ, pos, ◌+ℤ◌, zero_+ℤ, +ℤ_left_comm, +ℤ_assoc}
use infraco_os.Common.Result.{ok, ok-inj}
use infraco_os.Office.{Reference, Office}
use infraco_os.Office.Bills.{Platform}
use infraco_os.Rent.{Text}
use infraco_os.Lease.{Calendar, Lease, Estate}
use infraco_os.Lease.Billing.{
  Raised, Run, Period, count_round, bill_leases, active_leases, run_rent_billing,
}
use infraco_os.Lease.Billing.Rounds.{
  bill_leases-cons, Round, idle, skips, charges, bill_account-Round,
}
use infraco_os.Lease.Billing.Months.{period_at, run-eq-ok}
use infraco_os.Lease.Billing.Same.{total_billed}

-- The sum of the amounts that a run reports.
abbrev pub total_raised : List Raised → ℤ
total_raised [] = pos 0
total_raised (x ∷ xs) = x.amount +ℤ total_raised xs

-- What a round reports.
abbrev reported : Option Raised → ℤ
reported none = pos 0
reported (some x) = x.amount

Round-total :
    (p : Period) (l : Lease) (account : Option ℕ) (o t : Office) (r : Option Raised)
    → Round p l account o t r
    → total_billed t.fin.invoices ≡ reported r +ℤ total_billed o.fin.invoices
unfolding total_billed
Round-total p l account o t r (idle _ none_raised same) =
    rw (none_raised, same) (sym (zero_+ℤ (total_billed o.fin.invoices)))
Round-total p l account o t r (skips id amount _ _ _ _ none_raised same) =
    rw (none_raised, same) (sym (zero_+ℤ (total_billed o.fin.invoices)))
Round-total p l account o t r (charges id amount i _ _ _ is_amount _ is_raised same) =
    rw is_raised (same.total ∙ ap (λ a. a +ℤ total_billed o.fin.invoices) is_amount)

bill_leases_total :
    (p : Period) (ls : List Lease) (o t : Office) (r : Run)
    → bill_leases p ls o ≡ (ok r, t)
    → (total_billed t.fin.invoices ≡ total_raised r.raised +ℤ total_billed o.fin.invoices)
      × (length r.raised + r.skipped ≡ length ls)
unfolding bill_leases
bill_leases_total p [] o t r h =
    let none_raised = ok-inj (ap (λ y. y.0) h) in
    let same = ap (λ y. y.1) h in
    rw (← none_raised, ← same) (sym (zero_+ℤ (total_billed o.fin.invoices)), refl)
bill_leases_total p (l ∷ ls) o t r h =
    let (x, u, rest, this, others, is_r) = bill_leases-cons p l ls o t h in
    let (total, count) = bill_leases_total p ls u t rest others in
    let first =
      Round-total p l l.account_id o u x (bill_account-Round p l l.account_id o u x this) in
    rw is_r (
      sum_up x rest (total_billed o.fin.invoices)
          (total ∙ ap (λ z. total_raised rest.raised +ℤ z) first),
      counted x rest count,
    )
  where
    sum_up :
        (x : Option Raised) (rest : Run) (before : ℤ) {after : ℤ}
        → after ≡ total_raised rest.raised +ℤ (reported x +ℤ before)
        → after ≡ total_raised (count_round x rest).raised +ℤ before
    sum_up none rest before e = e ∙ ap (λ z. total_raised rest.raised +ℤ z) (zero_+ℤ before)
    sum_up (some y) rest before e =
        e
        ∙ +ℤ_left_comm (total_raised rest.raised) y.amount before
        ∙ sym (+ℤ_assoc y.amount (total_raised rest.raised) before)

    counted :
        (x : Option Raised) (rest : Run)
        → length rest.raised + rest.skipped ≡ length ls
        → length (count_round x rest).raised + (count_round x rest).skipped ≡ suc (length ls)
    counted none rest e = omega arith
    counted (some y) rest e = omega arith

-- A rent run that does not throw adds to the invoices exactly what it reports as raised, and each
-- active lease is either raised or skipped.
pub run_rent_billing_total :
    (code : Reference → ℕ) (platform : Platform) (cal : Calendar) (as_of : Text) (e t : Estate)
    {r : Run}
    → run_rent_billing code platform cal as_of e ≡ (ok r, t)
    → (total_billed t.office.fin.invoices
        ≡ total_raised r.raised +ℤ total_billed e.office.fin.invoices)
      × (length r.raised + r.skipped ≡ length (active_leases e))
run_rent_billing_total code platform cal as_of e t {r} h =
    let (start, key, _, _, ran, _) = run-eq-ok code platform cal as_of e t h in
    bill_leases_total (period_at code platform cal as_of start key) (active_leases e) e.office
      t.office r ran
