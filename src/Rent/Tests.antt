-- ===== src/Rent/Tests.antt =====
-- Runs of the rent maths, and each theorem at a concrete input.
use infraco_os.Common.{◌<◌, ◌≡◌, ◌↔◌, refl, some, [], ◌∷◌}
use infraco_os.Common.Int.{pos, ◌+ℤ◌, ◌-ℤ◌, ◌*ℤ◌}
use infraco_os.Common.Result.{ok}
use infraco_os.Rent.Escalation.{OnOrBefore, anniversary, escalation_count_iff}
use infraco_os.Rent.{
  Ymd, parse_ymd, Text, first_of_month, billing_period_key, escalation_count, effective_rent,
  add_years,
}

-- "2024-02-29"
abbrev leap_day_text : Text
leap_day_text = 50 ∷ 48 ∷ 50 ∷ 52 ∷ 45 ∷ 48 ∷ 50 ∷ 45 ∷ 50 ∷ 57 ∷ []

-- "2026-03-01"
abbrev march : Text
march = 50 ∷ 48 ∷ 50 ∷ 54 ∷ 45 ∷ 48 ∷ 51 ∷ 45 ∷ 48 ∷ 49 ∷ []

first_of_month_runs :
    first_of_month leap_day_text ≡ ok (50 ∷ 48 ∷ 50 ∷ 52 ∷ 45 ∷ 48 ∷ 50 ∷ 45 ∷ 48 ∷ 49 ∷ [])
unfolding first_of_month
first_of_month_runs = refl

-- "202603"
billing_period_key_runs : billing_period_key march ≡ ok (50 ∷ 48 ∷ 50 ∷ 54 ∷ 48 ∷ 51 ∷ [])
unfolding billing_period_key
billing_period_key_runs = refl

escalation_count_runs : escalation_count (some leap_day_text) march ≡ ok 3
unfolding escalation_count ◌-ℤ◌
escalation_count_runs = refl

-- 10% on 1000.00, three times
effective_rent_runs :
    effective_rent (pos 100_000) (some (pos 10_000)) (some leap_day_text) march ≡ ok (pos 133_100)
unfolding effective_rent ◌*ℤ◌ ◌-ℤ◌ ◌+ℤ◌
effective_rent_runs = refl

-- "2025-02-28"
add_years_runs :
    add_years leap_day_text 1 ≡ ok (50 ∷ 48 ∷ 50 ∷ 53 ∷ 45 ∷ 48 ∷ 50 ∷ 45 ∷ 50 ∷ 56 ∷ [])
unfolding add_years
add_years_runs = refl

-- February 29th, 2024, and March 1st, 2026.
abbrev leap_date : Ymd
leap_date = record { y = 2024; m = 2; d = 29 }

abbrev march_date : Ymd
march_date = record { y = 2026; m = 3; d = 1 }

leap_read : parse_ymd leap_day_text ≡ ok leap_date
unfolding parse_ymd
leap_read = refl

march_read : parse_ymd march ≡ ok march_date
unfolding parse_ymd
march_read = refl

escalation_count_iff_example : (2 < 3) ↔ OnOrBefore (anniversary leap_date 2) march_date
escalation_count_iff_example =
    escalation_count_iff leap_day_text march leap_read march_read escalation_count_runs 2
