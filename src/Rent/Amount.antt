-- ===== src/Rent/Amount.antt =====
-- The rent that `effectiveRent` of src/modules/lease/rent.util.ts charges.
use native.Mathlib.Nat.{
  div-mul-le_self, le-div_iff_mul-le, mul-le-mul_left, mul-le-mul_right, mul_assoc, add-zero,
  add-suc, one-le-pow, pow-suc, pow-succ', pow-zero,
}
use infraco_os.Common.{
  ℕ, zero, suc, ◌+◌, ◌-◌, ◌*◌, ◌^◌, ◌≤◌, ◌<◌, ◌≡◌, refl, sym, ap, ◌∙◌, arith, Option, some,
}
use infraco_os.Common.Int.{ℤ, pos, ◌+ℤ◌, ◌*ℤ◌, ◌≤ℤ◌}
use infraco_os.Common.Result.{ok}
use infraco_os.Instalment.{round_div}
use infraco_os.Rent.Escalation.{OnOrBefore, escalation_count-counts, escalation_count_mono}
use infraco_os.Rent.{
  Text, Ymd, parse_ymd, whole, pow_ℤ, round_div_ℤ, escalated, escalation_count, effective_rent,
}

*ℤ-pos : (a b : ℕ) → pos a *ℤ pos b ≡ pos (a * b)
unfolding ◌*ℤ◌
*ℤ-pos a b = ground arith

+ℤ-pos : (a b : ℕ) → pos a +ℤ pos b ≡ pos (a + b)
unfolding ◌+ℤ◌
+ℤ-pos a b = ground arith

pow_ℤ-pos : (a n : ℕ) → pow_ℤ (pos a) n ≡ pos (a ^ n)
unfolding pow_ℤ
pow_ℤ-pos a zero = ap pos (sym (pow-zero a))
pow_ℤ-pos a (suc n) = rw (pow_ℤ-pos a n) (*ℤ-pos a (a ^ n) ∙ ap pos (sym (pow-succ' a n)))

-- Where neither the base rent nor the percentage is negative, the escalated rent is the fraction
-- base * (1 + pct)^n, rounded to a cent.
pub escalated-pos :
    (base pct n : ℕ)
    → escalated (pos base) (pos pct) n ≡ pos (round_div (base * (whole + pct) ^ n) (whole ^ n))
unfolding escalated round_div_ℤ
escalated-pos base pct n =
    rw (+ℤ-pos whole pct, pow_ℤ-pos (whole + pct) n, *ℤ-pos base ((whole + pct) ^ n)) refl

round_div-near :
    (a b : ℕ)
    → 0 < b
    → (2 * (round_div a b * b) ≤ 2 * a + b) × (2 * a ≤ 2 * (round_div a b * b) + b)
unfolding round_div
round_div-near a b h = grind arith

-- A year more of escalation does not lower the rent.
round_div_step : (a b c d : ℕ) → 0 < b → d ≤ c → 0 < d → round_div a b ≤ round_div (a * c) (b * d)
unfolding round_div
round_div_step a b c d h le pos_d =
    let low = div-mul-le_self (2 * a + b) (2 * b) in
    let scaled = mul-le-mul_right d low in
    let grown = mul-le-mul_left (2 * a) le in
    let positive : 0 < 2 * (b * d) = grind arith in (le-div_iff_mul-le positive).1 (grind arith)

whole_pos : (n : ℕ) → 0 < whole ^ n
whole_pos n = one-le-pow n whole (omega arith)

escalated_step :
    (base pct n : ℕ) → escalated (pos base) (pos pct) n ≤ℤ escalated (pos base) (pos pct) (suc n)
escalated_step base pct n =
    let step =
      round_div_step (base * (whole + pct) ^ n) (whole ^ n) (whole + pct) whole (whole_pos n)
        (omega arith) (omega arith) in
    rw
      (
        escalated-pos base pct n,
        escalated-pos base pct (suc n),
        pow-suc (whole + pct) n,
        pow-suc whole n,
      )
      (rw (← mul_assoc base ((whole + pct) ^ n) (whole + pct)) (omega (arith, step)))

escalated_mono :
    (base pct n k : ℕ) → escalated (pos base) (pos pct) n ≤ℤ escalated (pos base) (pos pct) (n + k)
escalated_mono base pct n zero = rw (add-zero n) (omega arith)
escalated_mono base pct n (suc k) =
    let before = escalated_mono base pct n k in
    let step = escalated_step base pct (n + k) in rw (add-suc n k) (omega (arith, before, step))

round_div-mul : (a b : ℕ) → 0 < b → round_div (a * b) b ≡ a
unfolding round_div
round_div-mul a b h = grind arith

-- With no percentage the fraction is the base rent.
escalated_zero : (base n : ℕ) → escalated (pos base) (pos 0) n ≡ pos base
escalated_zero base n =
    rw (escalated-pos base 0 n) (ap pos (round_div-mul base (whole ^ n) (whole_pos n)))

effective_rent-eq :
    (base pct : ℕ) (anniv : Option Text) (as_of : Text) {n : ℕ} {rent : ℤ}
    → escalation_count anniv as_of ≡ ok n
    → effective_rent (pos base) (some (pos pct)) anniv as_of ≡ ok rent
    → rent ≡ escalated (pos base) (pos pct) n
unfolding effective_rent
effective_rent-eq base zero anniv as_of {n} count h = rw (escalated_zero base n) (ground arith)
effective_rent-eq base (suc p) anniv as_of {n} count h = let at = rw count at h in ground arith

-- Rent does not fall: where neither the base rent nor the percentage is negative, a later date has at
-- least the rent of an earlier one.
pub effective_rent_mono :
    (base pct : ℕ) (anniv as_of later : Text) {from to until : Ymd} {rent rent' : ℤ}
    → parse_ymd anniv ≡ ok from
    → parse_ymd as_of ≡ ok to
    → parse_ymd later ≡ ok until
    → OnOrBefore to until
    → effective_rent (pos base) (some (pos pct)) (some anniv) as_of ≡ ok rent
    → effective_rent (pos base) (some (pos pct)) (some anniv) later ≡ ok rent'
    → rent ≤ℤ rent'
effective_rent_mono base pct anniv as_of later {from} {to} {until} read read' read'' before h h' =
    let (n, count) = escalation_count-counts anniv as_of read read' in
    let (n', count') = escalation_count-counts anniv later read read'' in
    let le = escalation_count_mono anniv as_of later read read' read'' before count count' in
    let grown = escalated_mono base pct n (n' - n) in
    let meets : n + (n' - n) ≡ n' = omega arith in
    rw
      (
        effective_rent-eq base pct (some anniv) as_of count h,
        effective_rent-eq base pct (some anniv) later count' h',
      )
      (rw meets at grown)

-- The rent is the base rent compounded once for each escalation that has taken effect, to the
-- nearest cent: between them is at most half a cent.
pub effective_rent_nearest :
    (base pct : ℕ) (anniv : Option Text) (as_of : Text) {n : ℕ} {rent : ℤ}
    → escalation_count anniv as_of ≡ ok n
    → effective_rent (pos base) (some (pos pct)) anniv as_of ≡ ok rent
    → (cents : ℕ) × (rent ≡ pos cents)
      × (2 * (cents * whole ^ n) ≤ 2 * (base * (whole + pct) ^ n) + whole ^ n)
      × (2 * (base * (whole + pct) ^ n) ≤ 2 * (cents * whole ^ n) + whole ^ n)
effective_rent_nearest base pct anniv as_of {n} count h =
    let near = round_div-near (base * (whole + pct) ^ n) (whole ^ n) (whole_pos n) in
    (
      round_div (base * (whole + pct) ^ n) (whole ^ n),
      effective_rent-eq base pct anniv as_of count h ∙ escalated-pos base pct n,
      near.0,
      near.1,
    )
