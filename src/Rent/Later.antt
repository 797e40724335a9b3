-- ===== src/Rent/Later.antt =====
-- The rent of src/modules/lease/rent.util.ts at a second date, where it has been computed at a first.
use infraco_os.Common.{ℕ, zero, suc, false, ◌≡◌, refl, arith, Option, none, some, [], ◌∷◌}
use infraco_os.Common.Int.{ℤ, pos, negsuc, ◌≤ℤ◌, ltb_ℤ}
use infraco_os.Common.Result.{Result, ok, err}
use infraco_os.Database.Enums.{Error}
use infraco_os.Rent.{
  Text, Ymd, parse_ymd, first_of_month, billing_period_key, completed_years, count_of, escalated,
  escalation_count, effective_rent,
}
use infraco_os.Rent.Amount.{escalated-pos}

-- Two dates of one month have one first of the month and one key.
pub same_month :
    (iso other : Text) {a b : Ymd}
    → parse_ymd iso ≡ ok a
    → parse_ymd other ≡ ok b
    → a.y ≡ b.y
    → a.m ≡ b.m
    → (first_of_month iso ≡ first_of_month other)
      × (billing_period_key iso ≡ billing_period_key other)
unfolding first_of_month billing_period_key
same_month iso other read read' year month =
    (rw (read, read', year, month) refl, rw (read, read', year, month) refl)

escalation_count-later :
    (anniv : Option Text) (as_of other : Text) {n : ℕ} {b : Ymd}
    → parse_ymd other ≡ ok b
    → escalation_count anniv as_of ≡ ok n
    → (n' : ℕ) × (escalation_count anniv other ≡ ok n')
unfolding escalation_count
escalation_count-later none as_of other read h = (0, refl)
escalation_count-later (some []) as_of other read h = (0, refl)
escalation_count-later (some (c ∷ cs)) as_of other {n} {b} read h = go (parse_ymd (c ∷ cs)) refl
  where
    go :
        (from : Result Error Ymd)
        → parse_ymd (c ∷ cs) ≡ from
        → (n' : ℕ) × (escalation_count (some (c ∷ cs)) other ≡ ok n')
    go (err x) e = absurd (let stopped = rw e at h in ground arith)
    go (ok from) e = (count_of (completed_years from b), rw (e, read) refl)

-- A percentage that does not lower the rent.
abbrev pub RaisesRent : Option ℤ → Type 0
RaisesRent pct = (x : ℤ) → pct ≡ some x → pos 0 ≤ℤ x

pub effective_rent-later :
    (base : ℤ) (pct : Option ℤ) (anniv : Option Text) (as_of other : Text) {b : Ymd} {rent : ℤ}
    → parse_ymd other ≡ ok b
    → RaisesRent pct
    → effective_rent base pct anniv as_of ≡ ok rent
    → (rent' : ℤ) × (effective_rent base pct anniv other ≡ ok rent') × (ltb_ℤ rent' (pos 0) ≡ false)
unfolding effective_rent
effective_rent-later (negsuc k) pct anniv as_of other read up h = absurd (ground arith)
effective_rent-later (pos base) none anniv as_of other read up h =
    (pos base, ground arith, ground arith)
effective_rent-later (pos base) (some (negsuc k)) anniv as_of other read up h =
    absurd (let no = up (negsuc k) refl in ground arith)
effective_rent-later (pos base) (some (pos zero)) anniv as_of other read up h =
    (pos base, ground arith, ground arith)
effective_rent-later (pos base) (some (pos (suc k))) anniv as_of other {b} {rent} read up h =
    go (escalation_count anniv as_of) refl h
  where
    go :
        (n : Result Error ℕ)
        → escalation_count anniv as_of ≡ n
        → effective_rent (pos base) (some (pos (suc k))) anniv as_of ≡ ok rent
        → (rent' : ℤ) × (effective_rent (pos base) (some (pos (suc k))) anniv other ≡ ok rent')
          × (ltb_ℤ rent' (pos 0) ≡ false)
    go (err x) e g = absurd (let stopped = rw e at g in ground arith)
    go (ok n) e g =
        let (n', later) = escalation_count-later anniv as_of other read e in
        (
          escalated (pos base) (pos (suc k)) n',
          rw later (ground arith),
          rw (escalated-pos base (suc k) n') (ground arith),
        )
