-- ===== src/Rent/Texts.antt =====
-- What src/modules/lease/rent.util.ts prints, read back by `parseYmd`.
use infraco_os.Common.{
  ℕ, suc, ◌+◌, ◌*◌, ◌/◌, ◌%◌, ◌≤◌, ◌<◌, ◌≡◌, refl, ap, ◌∙◌, ◌↔◌, ◌⊎◌, inl, inr, arith, Bool, true,
  not, ◌||◌, false, Bool-cases, ◌&&◌, List, All, [], ◌∷◌, ◌++◌, ltb, ◌==◌, if◌then◌else◌,
}
use infraco_os.Common.Result.{ok, err}
use infraco_os.Database.Enums.{Error, internal_error}
use infraco_os.Rent.{
  Text, Ymd, dash, digit_zero, all_digits, digit, digit_char, parse_ymd, show_digits, show, pad_two,
  billing_period_key, is_leap, leap_day, add_years,
}

show_one : (fuel n : ℕ) → n < 10 → show_digits (suc fuel) n ≡ digit_char n ∷ []
unfolding show_digits
show_one fuel n h = ground arith

show_more :
    (fuel n : ℕ)
    → 10 ≤ n
    → show_digits (suc fuel) n ≡ show_digits fuel (n / 10) ++ digit_char (n % 10) ∷ []
unfolding show_digits
show_more fuel n h = ground arith

-- A year of four digits.
abbrev pub IsFourDigits : ℕ → Type 0
IsFourDigits n = (1000 ≤ n) × (n < 10_000)

show_four :
    (n : ℕ)
    → IsFourDigits n
    → show n
      ≡ digit_char (n / 10 / 10 / 10)
        ∷ digit_char (n / 10 / 10 % 10)
        ∷ digit_char (n / 10 % 10)
        ∷ digit_char (n % 10)
        ∷ []
unfolding show
show_four n (lo, hi) = rw (
  show_more 15 n (omega arith),
  show_more 14 (n / 10) (omega arith),
  show_more 13 (n / 10 / 10) (omega arith),
  show_one 12 (n / 10 / 10 / 10) (omega arith),
)

show_two : (n : ℕ) → 10 ≤ n → n < 100 → show n ≡ digit_char (n / 10) ∷ digit_char (n % 10) ∷ []
unfolding show
show_two n lo hi = rw (show_more 15 n lo, show_one 14 (n / 10) (omega arith)) refl

pad_two_lem : (n : ℕ) → n < 100 → pad_two n ≡ digit_char (n / 10) ∷ digit_char (n % 10) ∷ []
unfolding pad_two
pad_two_lem n h = elim (Bool-cases (ltb n 10)) [
  | inl one ↦
      let q : n / 10 ≡ 0 = ground arith in let r : n % 10 ≡ n = ground arith in rw (one, q, r) refl
  | inr two ↦
      ap (λ b. if b then digit_zero ∷ digit_char n ∷ [] else show n) two
      ∙ show_two n (ground arith) h
]

-- Ten characters of the right kind are read.
parse_digits :
    (a b c e f g h k : ℕ)
    → (a < 10) × (b < 10) × (c < 10) × (e < 10)
    → (f < 10) × (g < 10) × (h < 10) × (k < 10)
    → parse_ymd (
        digit_char a
        ∷ digit_char b
        ∷ digit_char c
        ∷ digit_char e
        ∷ dash
        ∷ digit_char f
        ∷ digit_char g
        ∷ dash
        ∷ digit_char h
        ∷ digit_char k
        ∷ [])
      ≡ ok (record { y = 1000 * a + 100 * b + 10 * c + e; m = 10 * f + g; d = 10 * h + k })
unfolding parse_ymd
parse_digits a b c e f g h k p q = ground arith

-- A date as the database prints it.
unfoldable pub date_text : Ymd → Text
date_text t = show t.y ++ dash ∷ pad_two t.m ++ dash ∷ pad_two t.d

pub record IsWritten (t : Ymd) : Type 0 where
  pub year_in : IsFourDigits t.y
  pub month_in : t.m < 100
  pub day_in : t.d < 100

-- Printing a date and reading it gives it back.
pub parse_ymd-date_text : (t : Ymd) → IsWritten t → parse_ymd (date_text t) ≡ ok t
unfolding date_text
parse_ymd-date_text t w =
    rw (show_four t.y w.year_in, pad_two_lem t.m w.month_in, pad_two_lem t.d w.day_in)
      (parse_digits (t.y / 10 / 10 / 10) (t.y / 10 / 10 % 10) (t.y / 10 % 10) (t.y % 10) (t.m / 10)
          (t.m % 10) (t.d / 10) (t.d % 10) (omega arith) (omega arith)
        ∙ ap (λ u. ok u) (ground arith))

all_digits-lt : (cs : List ℕ) → all_digits cs ≡ true → All (λ c. digit c < 10) cs
unfolding all_digits
all_digits-lt [] h = tt
all_digits-lt (c ∷ cs) h = (ground arith, all_digits-lt cs (ground arith))

and_left : (a b : Bool) → (a && b) ≡ true → a ≡ true
and_left true b h = refl
and_left false b h = h

if-eq-ok :
    (b : Bool) (e : Error) {v t : Ymd} → (if b then ok v else err e) ≡ ok t → (b ≡ true) × (v ≡ t)
if-eq-ok true e h = (refl, ground arith)
if-eq-ok false e h = absurd (ground arith)

-- What a text that is read as a date can say.
pub parse_ymd-bounds :
    (iso : Text) {t : Ymd} → parse_ymd iso ≡ ok t → (t.y < 10_000) × (t.m < 100) × (t.d < 100)
unfolding parse_ymd
parse_ymd-bounds (a ∷ b ∷ c ∷ e ∷ s ∷ f ∷ g ∷ u ∷ h ∷ k ∷ rest) {t} read =
    let (test, at) =
      if-eq-ok (all_digits (a ∷ b ∷ c ∷ e ∷ f ∷ g ∷ h ∷ k ∷ []) && ((s == dash) && (u == dash)))
        internal_error read in
    let small =
      all_digits-lt (a ∷ b ∷ c ∷ e ∷ f ∷ g ∷ h ∷ k ∷ [])
        (and_left _ ((s == dash) && (u == dash)) test) in
    let year = ap (λ (w : Ymd). w.y) at in
    let month = ap (λ (w : Ymd). w.m) at in let day = ap (λ (w : Ymd). w.d) at in omega arith
parse_ymd-bounds _ read = ground arith

-- A key is the six digits of the year and the month, so two dates have the same key exactly if they
-- fall in the same month.
key_lem :
    (iso : Text) {t : Ymd}
    → parse_ymd iso ≡ ok t
    → 1000 ≤ t.y
    → billing_period_key iso
      ≡ ok (
          digit_char (t.y / 10 / 10 / 10)
          ∷ digit_char (t.y / 10 / 10 % 10)
          ∷ digit_char (t.y / 10 % 10)
          ∷ digit_char (t.y % 10)
          ∷ digit_char (t.m / 10)
          ∷ digit_char (t.m % 10)
          ∷ [])
unfolding billing_period_key
key_lem iso {t} read lo =
    let (below, month, day) = parse_ymd-bounds iso read in
    rw (read, show_four t.y (lo, below), pad_two_lem t.m month) refl

pub billing_period_key_iff :
    (iso other : Text) {t u : Ymd}
    → parse_ymd iso ≡ ok t
    → parse_ymd other ≡ ok u
    → 1000 ≤ t.y
    → 1000 ≤ u.y
    → (billing_period_key iso ≡ billing_period_key other) ↔ ((t.y ≡ u.y) × (t.m ≡ u.m))
billing_period_key_iff iso other {t} {u} read read' lo lo' =
    rw (key_lem iso read lo, key_lem other read' lo') (λ e. ground arith, λ p. rw (p.0, p.1) refl)

abbrev pub days_in_month : ℕ → ℕ → ℕ
days_in_month year month =
    if month == 2
    then (if is_leap year then 29 else 28)
    else if (month == 4) || (month == 6) || (month == 9) || (month == 11)
    then 30
    else 31

-- A date of the calendar.
pub record IsDate (t : Ymd) : Type 0 where
  pub month_in : (1 ≤ t.m) × (t.m ≤ 12)
  pub day_in : (1 ≤ t.d) × (t.d ≤ days_in_month t.y t.m)

leap_day-le : (t : Ymd) (year : ℕ) → leap_day t year ≤ t.d
unfolding leap_day
leap_day-le t year = ground arith

leap_day_lem :
    (t : Ymd) (year : ℕ)
    → (leap_day t year ≡ t.d)
      ⊎ ((t.m ≡ 2) × (t.d ≡ 29) × (leap_day t year ≡ 28) × (is_leap year ≡ false))
unfolding leap_day
leap_day_lem t year = elim (Bool-cases ((t.m == 2) && (t.d == 29) && not (is_leap year))) [
  | inl moved ↦ inr (ground arith)
  | inr same ↦ inl (rw same refl)
]

leap_day-IsDate :
    (t : Ymd) (year : ℕ) → IsDate t → IsDate (record { y = year; m = t.m; d = leap_day t year })
unfolding leap_day
leap_day-IsDate t year v = record {
  month_in = v.month_in;
  day_in = elim (Bool-cases (is_leap t.y)) [
    | inl leap ↦ elim (Bool-cases (is_leap year)) [
      | inl leap' ↦ ground arith
      | inr common ↦ ground arith
    ]
    | inr common ↦ elim (Bool-cases (is_leap year)) [
      | inl leap' ↦ ground arith
      | inr common' ↦ ground arith
    ]
  ];
}

-- Adding years to a calendar date gives a text that reads as a calendar date: that many years on, in
-- the same month, on the same day unless it is the 29th of February and the year has none.
pub add_years-IsDate :
    (iso : Text) (years : ℕ) {t : Ymd}
    → parse_ymd iso ≡ ok t
    → IsDate t
    → IsFourDigits (t.y + years)
    → (text : Text) × (u : Ymd) × (add_years iso years ≡ ok text)
      × (parse_ymd text ≡ ok u)
      × IsDate u
      × (u.y ≡ t.y + years)
      × (u.m ≡ t.m)
      × ((u.d ≡ t.d) ⊎ ((t.m ≡ 2) × (t.d ≡ 29) × (u.d ≡ 28) × (is_leap u.y ≡ false)))
unfolding add_years date_text
add_years-IsDate iso years {t} read valid four =
    let (below, month, day) = parse_ymd-bounds iso read in
    let u : Ymd = record { y = t.y + years; m = t.m; d = leap_day t (t.y + years) } in
    let le = leap_day-le t (t.y + years) in
    (
      date_text u,
      u,
      rw read refl,
      parse_ymd-date_text u (record { year_in = four; month_in = month; day_in = omega arith }),
      leap_day-IsDate t (t.y + years) valid,
      refl,
      refl,
      leap_day_lem t (t.y + years),
    )
