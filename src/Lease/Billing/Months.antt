-- ===== src/Lease/Billing/Months.antt =====
-- The month of a rent run of src/modules/lease/lease.service.ts.
use infraco_os.Common.{ℕ, ◌≡◌, sym, ap, ◌∙◌, subst}
use infraco_os.Common.Result.{ok}
use infraco_os.Database.Transaction.{Action, ◌>>=◌, lift}
use infraco_os.Database.Transaction.Laws.{>>=-eq-ok, lift-eq-ok}
use infraco_os.Office.{Reference, read}
use infraco_os.Office.Bills.{Platform}
use infraco_os.Rent.{Text, first_of_month, billing_period_key}
use infraco_os.Lease.{Calendar, Estate}
use infraco_os.Lease.Lifecycle.{in_office}
use infraco_os.Lease.Billing.{Period, Run, bill_leases, active_leases, run_rent_billing}

-- A run at a date, whose month has the start and the key.
abbrev pub period_at : (Reference → ℕ) → Platform → Calendar → Text → Text → Text → Period
period_at code platform cal as_of start key = record {
  code = code;
  platform = platform;
  cal = cal;
  as_of = as_of;
  start = start;
  key = key;
}

-- The rest of a run, once its month's start and key are known.
abbrev with_key : (Reference → ℕ) → Platform → Calendar → Text → Text → Text → Action Estate Run
with_key code platform cal as_of start key = do
  leases ← read active_leases
  in_office (bill_leases (period_at code platform cal as_of start key) leases)

abbrev with_start : (Reference → ℕ) → Platform → Calendar → Text → Text → Action Estate Run
with_start code platform cal as_of start = do
  key ← lift (billing_period_key as_of)
  with_key code platform cal as_of start key

pub run_rent_billing-bill_leases :
    (code : Reference → ℕ) (platform : Platform) (cal : Calendar) (as_of : Text) (e : Estate)
    {start key : Text}
    → first_of_month as_of ≡ ok start
    → billing_period_key as_of ≡ ok key
    → run_rent_billing code platform cal as_of e
      ≡ in_office (bill_leases (period_at code platform cal as_of start key) (active_leases e)) e
unfolding run_rent_billing
run_rent_billing-bill_leases code platform cal as_of e {start} has_start has_key =
    ap (λ x. (lift {S = Estate} x >>= with_start code platform cal as_of) e) has_start
    ∙ ap (λ x. (lift {S = Estate} x >>= with_key code platform cal as_of start) e) has_key

-- A run that does not throw: its month, and its loop.
pub run-eq-ok :
    (code : Reference → ℕ) (platform : Platform) (cal : Calendar) (as_of : Text) (e t : Estate)
    {r : Run}
    → run_rent_billing code platform cal as_of e ≡ (ok r, t)
    → (start key : Text) × (first_of_month as_of ≡ ok start)
      × (billing_period_key as_of ≡ ok key)
      × (bill_leases (period_at code platform cal as_of start key) (active_leases e) e.office
          ≡ (ok r, t.office))
      × (t ≡ record e { office = t.office })
unfolding run_rent_billing
run-eq-ok code platform cal as_of e t {r} h =
    let (start, u, lifted, after) =
      >>=-eq-ok (lift (first_of_month as_of)) (with_start code platform cal as_of) e h in
    let (has_start, at) = lift-eq-ok (first_of_month as_of) e lifted in
    let (key, v, lifted', after') =
      >>=-eq-ok (lift (billing_period_key as_of)) (with_key code platform cal as_of start) e
        (subst (λ w. with_start code platform cal as_of start w ≡ (ok r, t)) at after) in
    let (has_key, at') = lift-eq-ok (billing_period_key as_of) e lifted' in
    let ran = subst (λ w. with_key code platform cal as_of start key w ≡ (ok r, t)) at' after' in
    let office = ap (λ y. y.1.office) ran in
    (
      start,
      key,
      has_start,
      has_key,
      (λ i. (ap (λ y. y.0) ran i, office i)),
      ap (λ y. y.1) (sym ran) ∙ ap (λ o. record e { office = o }) office,
    )
