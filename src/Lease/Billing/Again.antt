-- ===== src/Lease/Billing/Again.antt =====
-- The rent run of src/modules/lease/lease.service.ts, run again for the same month.
use infraco_os.Common.{
  ℕ, Bool, true, false, ◌≡◌, sym, ap, ◌∙◌, Option, none, some, List, [], ◌∷◌, All, if◌then◌else◌,
  length, arith,
}
use infraco_os.Common.Int.{ℤ, pos, ltb_ℤ}
use infraco_os.Common.Result.{Result, ok, err}
use infraco_os.Database.Enums.{Error, check_violation}
use infraco_os.Office.{Reference, Office}
use infraco_os.Office.Bills.{Platform}
use infraco_os.Rent.{Text, Ymd, parse_ymd}
use infraco_os.Rent.Later.{same_month, RaisesRent, effective_rent-later}
use infraco_os.Lease.{Calendar, Lease, Estate}
use infraco_os.Lease.Lifecycle.{in_office}
use infraco_os.Lease.Billing.{
  invoice_due, Run, Period, anniv_of, bill_leases, active_leases, run_rent_billing,
}
use infraco_os.Lease.Billing.Months.{period_at, run_rent_billing-bill_leases, run-eq-ok}
use infraco_os.Lease.Billing.Settled.{
  IsSettled, no_account, is_billed, bill_leases-settled, settles,
}

invoice_due-later :
    (due : Option ℕ) (amount amount' : ℤ) {day : ℕ}
    → invoice_due due amount ≡ ok day
    → ltb_ℤ amount' (pos 0) ≡ false
    → invoice_due due amount' ≡ ok day
invoice_due-later none amount amount' h positive = absurd (ground arith)
invoice_due-later (some d) amount amount' h positive = rw positive (go (ltb_ℤ amount (pos 0)) h)
  where
    refused : Bool → Result Error ℕ
    refused b = if b then err check_violation else ok d

    go : (b : Bool) {day : ℕ} → refused b ≡ ok day → refused false ≡ ok day
    go true k = absurd (ground arith)
    go false k = k

-- A lease whose escalation does not lower its rent.
abbrev pub EscalatesUp : Lease → Type 0
EscalatesUp l = RaisesRent l.escalation_pct

-- What is settled at one date of a month is settled at another.
IsSettled-then :
    (p : Period) (other : Text) {b : Ymd} (l : Lease) (o : Office)
    → parse_ymd other ≡ ok b
    → EscalatesUp l
    → IsSettled p l l.account_id o
    → IsSettled (record p { as_of = other }) l l.account_id o
IsSettled-then p other l o read up (no_account none_id) = no_account none_id
IsSettled-then p other l o read up (is_billed id amount day has_id charge due e) =
    let (amount', charge', positive) =
      effective_rent-later l.rent_amount l.escalation_pct (anniv_of p.cal l.escalation_anniv)
        p.as_of other read up charge in
    is_billed id amount' day has_id charge'
      (invoice_due-later (p.cal.cast_date p.start) amount amount' due positive) e

All-IsSettled_then :
    (p : Period) (other : Text) {b : Ymd} (ls : List Lease) (o : Office)
    → parse_ymd other ≡ ok b
    → All EscalatesUp ls
    → All (λ l. IsSettled p l l.account_id o) ls
    → All (λ l. IsSettled (record p { as_of = other }) l l.account_id o) ls
All-IsSettled_then p other [] o read up h = tt
All-IsSettled_then p other (l ∷ ls) o read (up, ups) (h, hs) =
    (IsSettled-then p other l o read up h, All-IsSettled_then p other ls o read ups hs)

-- A rent run that does not throw has billed its month: where no active lease has an escalation below
-- 0, a run at any date of the same month, earlier or later, raises nothing, skips every active lease
-- and changes no table.
pub run_rent_billing_again :
    (code : Reference → ℕ) (platform : Platform) (cal : Calendar) (as_of other : Text)
    (e t : Estate) {a b : Ymd} {r : Run}
    → parse_ymd as_of ≡ ok a
    → parse_ymd other ≡ ok b
    → a.y ≡ b.y
    → a.m ≡ b.m
    → All EscalatesUp (active_leases e)
    → run_rent_billing code platform cal as_of e ≡ (ok r, t)
    → run_rent_billing code platform cal other t
      ≡ (ok (record { raised = []; skipped = length (active_leases e) }), t)
unfolding active_leases
run_rent_billing_again code platform cal as_of other e t {a} {b} {r} reads reads' year month up h =
    let (start, key, has_start, has_key, ran, same) = run-eq-ok code platform cal as_of e t h in
    let (same_start, same_key) = same_month as_of other reads reads' year month in
    let p = period_at code platform cal as_of start key in
    let p' = period_at code platform cal other start key in
    let (settled, more) = settles p (active_leases e) e.office t.office r ran in
    let settled_now = All-IsSettled_then p other (active_leases e) t.office reads' up settled in
    let second = bill_leases-settled p' (active_leases e) t.office settled_now in
    let leases : active_leases t ≡ active_leases e = ap active_leases same in
    run_rent_billing-bill_leases code platform cal other t (sym same_start ∙ has_start)
      (sym same_key ∙ has_key)
    ∙ ap (λ ls. in_office (bill_leases p' ls) t) leases
    ∙ ap (λ x. (x.0, record t { office = x.1 })) second
