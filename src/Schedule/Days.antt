-- ===== src/Schedule/Days.antt =====
-- The due dates of a schedule of src/modules/financial/financial.service.ts.
use infraco_os.Common.{
  ℕ, zero, suc, ◌+◌, ◌-◌, ◌*◌, ◌/◌, ◌%◌, ◌≤◌, ◌<◌, Bool, true, false, ◌||◌, ◌≡◌, refl, sym, ap, ◌∙◌,
  subst, inl, inr, arith, ◌==◌, Bool-cases, if◌then◌else◌,
}
use infraco_os.Rent.{Ymd, is_leap}
use infraco_os.Rent.Texts.{days_in_month}
use infraco_os.Schedule.{year_start, days_before, month_start, month_number, due_day}

unfoldable year_length : Bool → ℕ
year_length leap = if leap then 366 else 365

year_start_next : (y : ℕ) → year_start (y + 1) ≡ year_start y + year_length (is_leap y)
unfolding year_start is_leap year_length
year_start_next y = ground arith

days_before_step :
    (leap : Bool) (m : ℕ)
    → m < 11
    → days_before leap (m + 1)
      ≡ days_before leap m
        + (if m == 1
            then (if leap then 29 else 28)
            else if (m == 3) || (m == 5) || (m == 8) || (m == 10)
            then 30
            else 31)
unfolding days_before
days_before_step true m h = ground arith
days_before_step false m h = ground arith

days_in_next :
    (y m : ℕ)
    → days_in_month y (m + 1) ≡ (
        if m == 1
        then (if is_leap y then 29 else 28)
        else if (m == 3) || (m == 5) || (m == 8) || (m == 10)
        then 30
        else 31)
days_in_next y m = ground arith

days_before_next :
    (y m : ℕ)
    → m < 11
    → days_before (is_leap y) (m + 1) ≡ days_before (is_leap y) m + days_in_month y (m + 1)
days_before_next y m h =
    days_before_step (is_leap y) m h
    ∙ ap (λ n. days_before (is_leap y) m + n) (sym (days_in_next y m))

days_before_zero : (leap : Bool) → days_before leap 0 ≡ 0
unfolding days_before
days_before_zero leap = ground arith

days_before_last :
    (y : ℕ) → days_before (is_leap y) 11 + days_in_month y 12 ≡ year_length (is_leap y)
unfolding days_before year_length
days_before_last y = ground arith

-- The months follow one another, each with its number of days.
pub month_start_next :
    (m : ℕ) → month_start (m + 1) ≡ month_start m + days_in_month (m / 12) (m % 12 + 1)
unfolding month_start
month_start_next m = elim (Bool-cases (m % 12 == 11)) [
  | inr within ↦
      let year : (m + 1) / 12 ≡ m / 12 = ground arith in
      let month : (m + 1) % 12 ≡ m % 12 + 1 = ground arith in
      let days = days_before_next (m / 12) (m % 12) (ground arith) in
      rw (year, month, days) (omega arith)
  | inl last ↦
      let year : (m + 1) / 12 ≡ m / 12 + 1 = ground arith in
      let month : (m + 1) % 12 ≡ 0 = ground arith in
      let at : m % 12 ≡ 11 = ground arith in
      let days = days_before_last (m / 12) in
      let none_yet = days_before_zero (is_leap (m / 12 + 1)) in
      rw (year, month, at, none_yet, year_start_next (m / 12)) (omega arith)
]

days_in_month-bounds : (y m : ℕ) → (28 ≤ days_in_month y m) × (days_in_month y m ≤ 31)
days_in_month-bounds y m = (ground arith, ground arith)

month_start-bounds :
    (k m : ℕ)
    → (month_start m + 28 * k ≤ month_start (m + k))
      × (month_start (m + k) ≤ month_start m + 31 * k)
month_start-bounds zero m = let same : m + 0 ≡ m = omega arith in rw same (omega arith, omega arith)
month_start-bounds (suc k) m =
    let (lo, hi) = month_start-bounds k m in
    let further : m + suc k ≡ m + k + 1 = omega arith in
    let next = month_start_next (m + k) in
    let (least, most) = days_in_month-bounds ((m + k) / 12) ((m + k) % 12 + 1) in
    rw further (omega arith, omega arith)

shift :
    (a b c d : ℕ) → (a + c ≤ b) × (b ≤ a + d) → (n : ℕ) → (a + n + c ≤ b + n) × (b + n ≤ a + n + d)
shift a b c d (lo, hi) n = (omega arith, omega arith)

due_day-bounds :
    (t : Ymd) (months k : ℕ)
    → (due_day t months + 28 * k ≤ due_day t (months + k))
      × (due_day t (months + k) ≤ due_day t months + 31 * k)
unfolding due_day
due_day-bounds t months k =
    let later : month_number t + (months + k) ≡ month_number t + months + k = omega arith in
    rw later (
      shift (month_start (month_number t + months)) (month_start (month_number t + months + k))
        (28 * k) (31 * k) (month_start-bounds k (month_number t + months)) (t.d - 1))

-- The number of a day, counted from January 1st of the year 0.
abbrev pub day_number : Ymd → ℕ
day_number t = month_start (12 * t.y + (t.m - 1)) + (t.d - 1)

-- A day of the month that is `months` after the month of a date.
abbrev pub in_months : Ymd → ℕ → ℕ → Ymd
in_months t months day = record {
  y = (12 * t.y + (t.m - 1) + months) / 12;
  m = (12 * t.y + (t.m - 1) + months) % 12 + 1;
  d = day;
}

abbrev pub month_length : Ymd → ℕ
month_length t = days_in_month t.y t.m

-- A day that is `months` after a date: the same day of the month, and where that month is too short
-- the next month goes on counting. It is 28 to 31 days a month later.
pub record IsMonthsLater (start : Ymd) (months day : ℕ) : Type 0 where
  pub early : day_number start + 28 * months ≤ day
  pub late : day ≤ day_number start + 31 * months
  pub same_day :
      start.d ≤ month_length (in_months start months 1)
      → day ≡ day_number (in_months start months start.d)
  pub runs_on :
      month_length (in_months start months 1) < start.d
      → day
        ≡ day_number
            (in_months start (months + 1) (start.d - month_length (in_months start months 1)))

day_number-in_months :
    (t : Ymd) (months day : ℕ)
    → day_number (in_months t months day) ≡ month_start (12 * t.y + (t.m - 1) + months) + (day - 1)
day_number-in_months t months day =
    let month : 12 * ((12 * t.y + (t.m - 1) + months) / 12)
          + ((12 * t.y + (t.m - 1) + months) % 12 + 1 - 1)
        ≡ 12 * t.y + (t.m - 1) + months =
      omega arith in
    ap (λ n. month_start n + (day - 1)) month

due_day-month :
    (t : Ymd) (months : ℕ)
    → due_day t months ≡ month_start (12 * t.y + (t.m - 1) + months) + (t.d - 1)
unfolding due_day
due_day-month t months = refl

due_day-number : (t : Ymd) → due_day t 0 ≡ day_number t
unfolding due_day
due_day-number t = ap (λ k. month_start k + (t.d - 1)) (omega arith)

runs_into : (a b l d : ℕ) → b ≡ a + l → l < d → a + (d - 1) ≡ b + (d - l - 1)
runs_into a b l d e h = omega (arith, e, h)

pub due_day-IsMonthsLater : (t : Ymd) (months : ℕ) → IsMonthsLater t months (due_day t months)
due_day-IsMonthsLater t months = record {
  early = subst (λ x. x + 28 * months ≤ due_day t months) (due_day-number t) bounds.0;
  late = subst (λ x. due_day t months ≤ x + 31 * months) (due_day-number t) bounds.1;
  same_day = λ _. kept;
  runs_on = moved;
}
  where
    n : ℕ
    n = 12 * t.y + (t.m - 1) + months

    bounds :
        (due_day t 0 + 28 * months ≤ due_day t months)
        × (due_day t months ≤ due_day t 0 + 31 * months)
    bounds =
        let none_less : 0 + months ≡ months = omega arith in
        subst
          (λ k.
            (due_day t 0 + 28 * months ≤ due_day t k) × (due_day t k ≤ due_day t 0 + 31 * months))
          none_less (due_day-bounds t 0 months)

    kept : due_day t months ≡ day_number (in_months t months t.d)
    kept = due_day-month t months ∙ sym (day_number-in_months t months t.d)

    moved :
        month_length (in_months t months 1) < t.d
        → due_day t months
          ≡ day_number (in_months t (months + 1) (t.d - month_length (in_months t months 1)))
    moved short =
        due_day-month t months
        ∙ runs_into (month_start n) (month_start (n + 1)) (days_in_month (n / 12) (n % 12 + 1)) t.d
            (month_start_next n) short
        ∙ ap (λ k. month_start k + (t.d - days_in_month (n / 12) (n % 12 + 1) - 1)) (omega arith)
        ∙ sym (day_number-in_months t (months + 1) (t.d - days_in_month (n / 12) (n % 12 + 1)))
