-- ===== src/Rent.antt =====
-- The rent maths of src/modules/lease/rent.util.ts. A text is the list of its character codes. An
-- amount is a number of cents, a percentage a number of thousandths of a percent, and the factor
-- that the code takes as a floating-point number is an exact fraction.
pub mod Texts
pub mod Escalation
pub mod Amount
pub mod Later
mod Tests
use infraco_os.Common.{
  ℕ, zero, suc, ◌+◌, ◌-◌, ◌*◌, ◌/◌, ◌%◌, ◌^◌, Bool, true, false, not, ◌&&◌, ◌||◌, Option, none,
  some, List, [], ◌∷◌, ◌++◌, ltb, leb, ◌==◌, if◌then◌else◌,
}
use infraco_os.Common.Int.{ℤ, pos, negsuc, ◌+ℤ◌, ◌-ℤ◌, ◌*ℤ◌, ltb_ℤ, eqb_ℤ, negate}
use infraco_os.Common.Result.{Result, ok, err, ◌>>=◌, ◌>>◌, throw_if}
use infraco_os.Database.Enums.{Error, internal_error}
use infraco_os.Instalment.{round_div}

abbrev pub Text : Type 0
Text = List ℕ

-- '-' and '0'
abbrev pub dash : ℕ
dash = 45

abbrev pub digit_zero : ℕ
digit_zero = 48

pub record Ymd : Type 0 where
  pub y : ℕ
  pub m : ℕ
  pub d : ℕ

-- \d, and the number that a digit stands for.
abbrev pub is_digit : ℕ → Bool
is_digit c = leb digit_zero c && leb c 57

abbrev pub digit : ℕ → ℕ
digit c = c - digit_zero

abbrev pub digit_char : ℕ → ℕ
digit_char n = digit_zero + n

unfoldable pub all_digits : List ℕ → Bool
all_digits [] = true
all_digits (c ∷ cs) = is_digit c && all_digits cs

-- `/^(\d{4})-(\d{2})-(\d{2})/`; `RentError` is no HTTP exception.
unfoldable pub parse_ymd : Text → Result Error Ymd
unfolding all_digits
parse_ymd (a ∷ b ∷ c ∷ e ∷ s ∷ f ∷ g ∷ t ∷ h ∷ k ∷ rest) =
    if all_digits (a ∷ b ∷ c ∷ e ∷ f ∷ g ∷ h ∷ k ∷ []) && ((s == dash) && (t == dash))
    then ok (record {
      y = 1000 * digit a + 100 * digit b + 10 * digit c + digit e;
      m = 10 * digit f + digit g;
      d = 10 * digit h + digit k;
    })
    else err internal_error
parse_ymd _ = err internal_error

-- `${n}`: decimal digits. A safe integer of JavaScript has at most 16 of them.
show_digits : ℕ → ℕ → Text
show_digits zero n = []
show_digits (suc fuel) n =
    let front = show_digits fuel (n / 10) in
    if ltb n 10 then digit_char n ∷ [] else front ++ digit_char (n % 10) ∷ []

unfoldable pub show : ℕ → Text
unfolding show_digits
show n = show_digits 16 n

-- `String(n).padStart(2, '0')`
unfoldable pub pad_two : ℕ → Text
unfolding show
pad_two n = if ltb n 10 then digit_zero ∷ digit_char n ∷ [] else show n

-- `firstOfMonth(iso)`
unfoldable pub first_of_month : Text → Result Error Text
unfolding parse_ymd show pad_two
first_of_month iso = do
  t ← parse_ymd iso
  ok (show t.y ++ dash ∷ pad_two t.m ++ dash ∷ digit_char 0 ∷ digit_char 1 ∷ [])

-- `billingPeriodKey(iso)`
unfoldable pub billing_period_key : Text → Result Error Text
unfolding parse_ymd show pad_two
billing_period_key iso = do t ← parse_ymd iso; ok (show t.y ++ pad_two t.m)

-- asOf.m < from.m || (asOf.m === from.m && asOf.d < from.d)
abbrev pub earlier_in_year : Ymd → Ymd → Bool
earlier_in_year as_of from = ltb as_of.m from.m || (as_of.m == from.m) && ltb as_of.d from.d

-- `completedYears(from, asOf)`
unfoldable pub completed_years : Ymd → Ymd → ℤ
completed_years from as_of =
    let years = pos as_of.y -ℤ pos from.y in
    if earlier_in_year as_of from then years -ℤ pos 1 else years

abbrev pub count_of : ℤ → ℕ
count_of (pos years) = years + 1
count_of (negsuc _) = 0

-- `escalationCount(escalationAnnivIso, asOfIso)`; the empty text counts as none.
unfoldable pub escalation_count : Option Text → Text → Result Error ℕ
unfolding parse_ymd completed_years
escalation_count none as_of = ok 0
escalation_count (some []) as_of = ok 0
escalation_count (some (c ∷ cs)) as_of = do
  from ← parse_ymd (c ∷ cs)
  to ← parse_ymd as_of
  ok (count_of (completed_years from to))

-- `Math.pow(z, n)`
unfoldable pub pow_ℤ : ℤ → ℕ → ℤ
pow_ℤ z zero = pos 1
pow_ℤ z (suc n) = z *ℤ pow_ℤ z n

-- `Math.round(a / b)`: a half goes up, also below 0.
unfoldable pub round_div_ℤ : ℤ → ℕ → ℤ
unfolding round_div
round_div_ℤ (pos a) b = pos (round_div a b)
round_div_ℤ (negsuc a) b = negate (pos ((2 * suc a + b - 1) / (2 * b)))

-- 100% in thousandths of a percent.
abbrev pub whole : ℕ
whole = 100_000

-- baseRent * (1 + pct/100) ^ n, rounded to a cent.
unfoldable pub escalated : ℤ → ℤ → ℕ → ℤ
unfolding pow_ℤ round_div_ℤ
escalated base pct n = round_div_ℤ (base *ℤ pow_ℤ (pos whole +ℤ pct) n) (whole ^ n)

-- `!escalationPct || escalationPct === 0`
abbrev pub no_escalation : Option ℤ → Bool
no_escalation none = true
no_escalation (some pct) = eqb_ℤ pct (pos 0)

abbrev pct_of : Option ℤ → ℤ
pct_of none = pos 0
pct_of (some pct) = pct

-- `effectiveRent(baseRent, escalationPct, escalationAnnivIso, asOfIso)`; whole cents are their own
-- rounding.
unfoldable pub effective_rent : ℤ → Option ℤ → Option Text → Text → Result Error ℤ
unfolding escalation_count escalated
effective_rent base pct anniv as_of = do
  throw_if (ltb_ℤ base (pos 0)) internal_error
  if no_escalation pct
      then ok base
      else (do n ← escalation_count anniv as_of; ok (escalated base (pct_of pct) n))

-- `isLeap(y)`
unfoldable pub is_leap : ℕ → Bool
is_leap y = (y % 4 == 0) && not (y % 100 == 0) || (y % 400 == 0)

-- The day of `addYears`: February 29th becomes the 28th where there is none.
unfoldable pub leap_day : Ymd → ℕ → ℕ
unfolding is_leap
leap_day t year = if (t.m == 2) && (t.d == 29) && not (is_leap year) then 28 else t.d

-- `addYears(iso, years)`, which its one caller gives 1.
unfoldable pub add_years : Text → ℕ → Result Error Text
unfolding parse_ymd show pad_two leap_day
add_years iso years = do
  t ← parse_ymd iso
  let year = t.y + years
  ok (show year ++ dash ∷ pad_two t.m ++ dash ∷ pad_two (leap_day t year))
