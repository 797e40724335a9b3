-- ===== src/Rent/Escalation.antt =====
-- How many escalations have taken effect: `escalationCount` of src/modules/lease/rent.util.ts.
use infraco_os.Common.{ℕ, zero, suc, ◌+◌, ◌≤◌, ◌<◌, ◌≡◌, ◌≢◌, ◌∙◌, refl, ◌↔◌, arith, some, [], ◌∷◌}
use infraco_os.Common.Int.{◌-ℤ◌}
use infraco_os.Common.Result.{ok}
use infraco_os.Rent.{Text, Ymd, parse_ymd, completed_years, count_of, escalation_count}

-- Calendar order, by year, then month, then day.
pub data OnOrBefore (a b : Ymd) : Type 0 where
  by_year : a.y < b.y → OnOrBefore a b
  by_month : a.y ≡ b.y → a.m < b.m → OnOrBefore a b
  by_day : a.y ≡ b.y → a.m ≡ b.m → a.d ≤ b.d → OnOrBefore a b

-- The anniversary `k` years after the first.
abbrev pub anniversary : Ymd → ℕ → Ymd
anniversary from k = record from { y = from.y + k }

reached :
    (from to : Ymd) (k : ℕ)
    → k < count_of (completed_years from to)
    → OnOrBefore (anniversary from k) to
unfolding completed_years ◌-ℤ◌
reached from to k h = grind (arith, by_year, by_month, by_day)

counted :
    (from to : Ymd) (k : ℕ)
    → OnOrBefore (anniversary from k) to
    → k < count_of (completed_years from to)
unfolding completed_years ◌-ℤ◌
counted from to k (by_year p) = ground arith
counted from to k (by_month p q) = ground arith
counted from to k (by_day p q r) = ground arith

parse_empty : {t : Ymd} → parse_ymd [] ≢ ok t
unfolding parse_ymd
parse_empty e = ground arith

escalation_count-eq :
    (anniv as_of : Text) {from to : Ymd}
    → parse_ymd anniv ≡ ok from
    → parse_ymd as_of ≡ ok to
    → escalation_count (some anniv) as_of ≡ ok (count_of (completed_years from to))
unfolding escalation_count
escalation_count-eq [] as_of read read' = absurd (parse_empty read)
escalation_count-eq (c ∷ cs) as_of read read' = rw (read, read') refl

-- An escalation is counted exactly if its anniversary is on or before the date: the first one on the
-- date given, and one each year after it.
pub escalation_count_iff :
    (anniv as_of : Text) {from to : Ymd} {n : ℕ}
    → parse_ymd anniv ≡ ok from
    → parse_ymd as_of ≡ ok to
    → escalation_count (some anniv) as_of ≡ ok n
    → (k : ℕ) → (k < n) ↔ OnOrBefore (anniversary from k) to
escalation_count_iff anniv as_of {from} {to} {n} read read' count k =
    let e : n ≡ count_of (completed_years from to) =
      (let f = escalation_count-eq anniv as_of read read' in ground arith) in
    rw e (reached from to k, counted from to k)

OnOrBefore-trans : {a b c : Ymd} → OnOrBefore a b → OnOrBefore b c → OnOrBefore a c
OnOrBefore-trans (by_year p) (by_year q) = by_year (omega arith)
OnOrBefore-trans (by_year p) (by_month e q) = by_year (omega arith)
OnOrBefore-trans (by_year p) (by_day e f q) = by_year (omega arith)
OnOrBefore-trans (by_month d p) (by_year q) = by_year (omega arith)
OnOrBefore-trans (by_month d p) (by_month e q) = by_month (d ∙ e) (omega arith)
OnOrBefore-trans (by_month d p) (by_day e f q) = by_month (d ∙ e) (omega arith)
OnOrBefore-trans (by_day d g p) (by_year q) = by_year (omega arith)
OnOrBefore-trans (by_day d g p) (by_month e q) = by_month (d ∙ e) (omega arith)
OnOrBefore-trans (by_day d g p) (by_day e f q) = by_day (d ∙ e) (g ∙ f) (omega arith)

pub escalation_count-counts :
    (anniv as_of : Text) {from to : Ymd}
    → parse_ymd anniv ≡ ok from
    → parse_ymd as_of ≡ ok to
    → (n : ℕ) × (escalation_count (some anniv) as_of ≡ ok n)
escalation_count-counts anniv as_of read read' = (_, escalation_count-eq anniv as_of read read')

-- A later date counts at least as many.
pub escalation_count_mono :
    (anniv as_of later : Text) {from to until : Ymd} {n m : ℕ}
    → parse_ymd anniv ≡ ok from
    → parse_ymd as_of ≡ ok to
    → parse_ymd later ≡ ok until
    → OnOrBefore to until
    → escalation_count (some anniv) as_of ≡ ok n
    → escalation_count (some anniv) later ≡ ok m
    → n ≤ m
escalation_count_mono anniv as_of later {n = zero} read read' read'' before count count' =
    omega arith
escalation_count_mono anniv as_of later {n = suc n} read read' read'' before count count' =
    let here = (escalation_count_iff anniv as_of read read' count n).0 (omega arith) in
    (escalation_count_iff anniv later read read'' count' n).1 (OnOrBefore-trans here before)
