-- ===== src/Lease/Tests.antt =====
-- Runs of the lease service, and each of its theorems at a concrete input.
use infraco_os.Common.{
  ℕ, suc, ◌+◌, ◌/◌, ◌≤◌, Bool, true, false, ◌&&◌, ◌≡◌, refl, arith, some, [], ◌∷◌, ◌==◌,
  if◌then◌else◌,
}
use infraco_os.Common.Int.{pos, ◌+ℤ◌}
use infraco_os.Common.Result.{ok}
use infraco_os.Database.Enums.{lease_draft, terminated, rental_water}
use infraco_os.Lease.{Estate}
use infraco_os.Lease.Billing.{Period, Run, active_leases, run_rent_billing}
use infraco_os.Lease.Billing.Again.{run_rent_billing_again}
use infraco_os.Office.{Office}
use infraco_os.Lease.Billing.Same.{total_billed}
use infraco_os.Lease.Billing.Totals.{run_rent_billing_total}
use infraco_os.Lease.Charges.{Charged, charge}
use infraco_os.Lease.Charges.Sums.{charge_total}
use infraco_os.Rent.{Text, Ymd, parse_ymd, effective_rent}
use infraco_os.Lease.Roll.{Clock, roll_rows}
use infraco_os.Lease.Roll.Partition.{row_of, roll_rows-once}
use infraco_os.Lease.Cycle.{open_active}
use infraco_os.Ledger.Samples.{sample}
use infraco_os.Lease.Ending.{transition_lease_terminates}
use infraco_os.Lease.History.{Follows, view, run_ops-Follows}
use infraco_os.Lease.Lifecycle.{transition_lease}
use infraco_os.Lease.Single.{count_where}
use infraco_os.Lease.Sound.{IsSound, run_ops, run_ops-IsSound}
use infraco_os.Lease.Samples.{march, calendar, code, platform, lease, office, estate, ops}

estate-IsSound : IsSound estate
unfolding count_where
estate-IsSound = record {
  keyed = (omega arith, tt);
  ready = (record { accounted = λ _. refl; escalates = λ _ h. absurd (ground arith) }, tt);
  single = λ p. at_most (5 == p);
}
  where
    at_most : (b : Bool) → (if true && b then 1 else 0) ≤ 1
    at_most true = omega arith
    at_most false = omega arith

run_ops-IsSound_example : IsSound (run_ops ops estate)
run_ops-IsSound_example = run_ops-IsSound ops estate estate-IsSound

run_ops-Follows_example : Follows (view estate 2) (view (run_ops ops estate) 2)
run_ops-Follows_example = run_ops-Follows ops estate 2 estate-IsSound

-- The first lease is terminated, and the second a draft.
ops_after :
    (view (run_ops ops estate) 2 ≡ some terminated)
    × (view (run_ops ops estate) 3 ≡ some lease_draft)
unfolding run_ops view
ops_after = (refl, refl)

transition_lease_terminates_example :
    ((transition_lease code 1 calendar 2 (some terminated) estate).0 ≡ ok (terminated, some 9))
    × (view (transition_lease code 1 calendar 2 (some terminated) estate).1 2 ≡ some terminated)
transition_lease_terminates_example =
    transition_lease_terminates code 1 calendar 2 lease estate (λ d. refl) refl open_active

billed : Estate
unfolding run_rent_billing
billed = (run_rent_billing code platform calendar march estate).1

the_run : Run
the_run = record {
  raised = record { lease_id = 2; invoice_id = 4; reference = 600; amount = pos 50_000 } ∷ [];
  skipped = 0;
}

rent_run : run_rent_billing code platform calendar march estate ≡ (ok the_run, billed)
unfolding run_rent_billing billed the_run effective_rent
rent_run = refl

-- "2026-03-28"
abbrev later_in_march : Text
later_in_march = 50 ∷ 48 ∷ 50 ∷ 54 ∷ 45 ∷ 48 ∷ 51 ∷ 45 ∷ 50 ∷ 56 ∷ []

abbrev march_day : ℕ → Ymd
march_day d = record { y = 2026; m = 3; d = d }

run_rent_billing_again_example :
    run_rent_billing code platform calendar later_in_march billed
    ≡ (ok (record { raised = []; skipped = 1 }), billed)
unfolding active_leases parse_ymd
run_rent_billing_again_example =
    run_rent_billing_again code platform calendar march later_in_march estate billed
      {a = march_day 14} {b = march_day 28} refl refl refl refl
      ((λ x none_given. absurd (ground arith)), tt) rent_run

run_rent_billing_total_example :
    (total_billed billed.office.fin.invoices ≡ pos 50_000 +ℤ pos 0 +ℤ total_billed sample.invoices)
    × (1 + 0 ≡ 1)
unfolding the_run active_leases
run_rent_billing_total_example =
    run_rent_billing_total code platform calendar march estate billed rent_run

-- The period of a charge, and the water charge of that month.
abbrev period : Period
period = record {
  code = code;
  platform = platform;
  cal = calendar;
  as_of = march;
  start = march;
  key = [];
}

charged : Office
unfolding charge
charged = (charge period lease 9 rental_water (pos 700) false office).1

water : Charged
water = record { invoice_id = 4; reference = 700; merged = false; amount = pos 700 }

charge_run : charge period lease 9 rental_water (pos 700) false office ≡ (ok water, charged)
unfolding charge charged water
charge_run = refl

charge_total_example : total_billed charged.fin.invoices ≡ pos 700 +ℤ total_billed sample.invoices
charge_total_example =
    charge_total period lease 9 rental_water (pos 700) false office charged (omega arith, tt)
      charge_run

clock : Clock
clock = record { month_of = λ d. d / 30; posted_on = λ _. 480; created_on = λ _. 470 }

roll_rows-once_example : count_where (row_of 6) (roll_rows clock 495 estate) ≡ 1
unfolding count_where
roll_rows-once_example =
    roll_rows-once clock 495 6 estate estate-IsSound
      (record {
        joined = ((refl, refl), tt);
        unique = λ id. at_most (6 == id) (5 == id) (apart id);
      })
      refl
  where
    at_most :
        (b c : Bool)
        → (b && c) ≡ false
        → (if b then suc (if c then 1 else 0) else if c then 1 else 0) ≤ 1
    at_most true true h = absurd (ground arith)
    at_most true false h = omega arith
    at_most false true h = omega arith
    at_most false false h = omega arith

    apart : (id : ℕ) → ((6 == id) && (5 == id)) ≡ false
    apart id = ground arith
