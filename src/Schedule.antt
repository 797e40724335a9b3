-- ===== src/Schedule.antt =====
-- Instalment schedules of src/modules/financial/financial.service.ts. Amounts are whole cents; the
-- start of a schedule is a calendar date, as the clock's time zone and UTC give it alike.
pub mod Days
pub mod Amounts
pub mod Generate
pub mod Dates
pub mod Drafts
pub mod Totals
pub mod Raise
pub mod Rounds
pub mod Raised
mod Tests
use infraco_os.Common.{
  ℕ, ◌+◌, ◌-◌, ◌*◌, ◌/◌, ◌%◌, Bool, ◌&&◌, ◌||◌, Option, List, leb, ◌==◌, if◌then◌else◌,
}
use infraco_os.Common.Int.{ℤ, pos, pos_part, ltb_ℤ, ◌-ℤ◌}
use infraco_os.Common.Result.{Result, ok, err, ◌>>=◌, ◌>>◌, throw_if}
use infraco_os.Database.Enums.{Error, bad_request, CurrencyCode, CurrencyInput, resolve_currency}
use infraco_os.Instalment.{InstalmentStructure, InstalmentError, compute_instalment_amounts}
use infraco_os.Office.{Office}
use infraco_os.Rent.{Ymd, is_leap}

pub data Frequency : Type 0 where
  monthly quarterly : Frequency

-- `GenerateScheduleParams`, without the account.
pub record GenerateSchedule : Type 0 where
  pub total_price : ℤ
  pub deposit : ℤ
  pub num_instalments : ℤ
  pub frequency : Frequency
  pub structure : InstalmentStructure
  pub balloon_amount : Option ℤ
  pub start_date : Ymd
  pub currency : CurrencyInput

-- fin.instalment_plan
pub record Plan : Type 0 where
  pub account_id : ℕ
  pub total_price : ℤ
  pub deposit : ℤ
  pub num_instalments : ℤ
  pub frequency : Frequency
  pub structure : InstalmentStructure
  pub start_date : ℕ
  pub currency : CurrencyCode

-- The tables of the instalment engine.
pub record Desk : Type 0 where
  pub office : Office
  pub plans : List Plan

pub record Computed : Type 0 where
  pub amounts : List ℤ
  pub months_per_step : ℕ
  pub currency : CurrencyCode

abbrev pub financed : GenerateSchedule → ℤ
financed p = pos (pos_part (p.total_price -ℤ p.deposit))

abbrev pub months_of : Frequency → ℕ
months_of monthly = 1
months_of quarterly = 3

-- `catch (e) { if (e instanceof InstalmentError) throw new BadRequestException }`
abbrev pub or_bad_request : {A : Type 0} → Result InstalmentError A → Result Error A
or_bad_request (ok a) = ok a
or_bad_request (err e) = err bad_request

-- `computeSchedule(params)`
unfoldable pub compute_schedule : GenerateSchedule → Result Error Computed
compute_schedule p = do
  currency ← resolve_currency p.currency
  throw_if (ltb_ℤ p.deposit (pos 0) || ltb_ℤ p.total_price (pos 0)) bad_request
  throw_if (ltb_ℤ p.total_price p.deposit) bad_request
  amounts ←
      or_bad_request
        (compute_instalment_amounts (financed p) p.num_instalments p.structure p.balloon_amount)
  ok (record { amounts = amounts; months_per_step = months_of p.frequency; currency = currency })

-- The days before a year, counted from the year 0.
unfoldable pub year_start : ℕ → ℕ
year_start y = 365 * y + (y + 3) / 4 + (y + 399) / 400 - (y + 99) / 100

-- The days of a year before its month, from 0 for January.
unfoldable pub days_before : Bool → ℕ → ℕ
days_before leap m =
    (if leap && leb 2 m then 1 else 0)
    + (if m == 0
        then 0
        else if m == 1
        then 31
        else if m == 2
        then 59
        else if m == 3
        then 90
        else if m == 4
        then 120
        else if m == 5
        then 151
        else if m == 6
        then 181
        else if m == 7
        then 212
        else if m == 8
        then 243
        else if m == 9
        then 273
        else if m == 10
        then 304
        else 334)

-- The first day of a month, counted from January of the year 0.
unfoldable pub month_start : ℕ → ℕ
unfolding year_start days_before is_leap
month_start m = year_start (m / 12) + days_before (is_leap (m / 12)) (m % 12)

abbrev pub month_number : Ymd → ℕ
month_number t = 12 * t.y + (t.m - 1)

-- The day of a date after `setMonth(getMonth() + months)`: the day of the month is kept, and one that
-- the month does not have runs on into the next month.
unfoldable pub due_day : Ymd → ℕ → ℕ
unfolding month_start
due_day t months = month_start (month_number t + months) + (t.d - 1)
