-- ===== src/Instalment.antt =====
-- The instalment maths of src/modules/financial/instalment.util.ts. Amounts are whole cents, as the
-- code holds them inside; a count of instalments is an integer.
pub mod Amounts
pub mod Bounds
mod Tests
use infraco_os.Common.{
  ℕ, ◌+◌, ◌-◌, ◌*◌, ◌/◌, ◌||◌, Option, List, [], ◌∷◌, ◌++◌, ltb, leb, if◌then◌else◌, replicate,
}
use infraco_os.Common.Int.{ℤ, pos, pos_part, sub_ℕ, leb_ℤ, ltb_ℤ}
use infraco_os.Common.Result.{Result, ok, err, ◌>>=◌, ◌>>◌, throw_if, or_throw}

pub data InstalmentStructure : Type 0 where
  equal balloon : InstalmentStructure

-- The five messages of `InstalmentError`.
pub data InstalmentError : Type 0 where
  count_not_positive negative_financed too_few_for_balloon balloon_missing : InstalmentError
  balloon_out_of_range : InstalmentError

-- `Math.round(a / b)` of numbers that are not negative: a half goes up.
unfoldable pub round_div : ℕ → ℕ → ℕ
round_div a b = (2 * a + b) / (2 * b)

-- n - 1 instalments of `per` cents, and a last one that takes what remains (it may be negative).
pub spread : ℕ → ℕ → ℕ → List ℤ
spread cents per n = replicate (n - 1) (pos per) ++ sub_ℕ cents (per * (n - 1)) ∷ []

pub balloon_amounts : ℕ → ℕ → Option ℤ → Result InstalmentError (List ℤ)
unfolding spread round_div
balloon_amounts cents n balloon_amount = do
  throw_if (ltb n 2) too_few_for_balloon
  balloon_cents ← or_throw balloon_amount balloon_missing
  throw_if (leb_ℤ balloon_cents (pos 0) || leb_ℤ (pos cents) balloon_cents) balloon_out_of_range
  ok (spread cents (round_div (cents - pos_part balloon_cents) (n - 1)) n)

pub amounts_of : ℕ → ℕ → InstalmentStructure → Option ℤ → Result InstalmentError (List ℤ)
unfolding balloon_amounts
amounts_of cents n equal _ = ok (spread cents (round_div cents n) n)
amounts_of cents n balloon balloon_amount = balloon_amounts cents n balloon_amount

-- `computeInstalmentAmounts(financed, n, structure, balloonAmount)`
unfoldable pub compute_instalment_amounts :
    ℤ → ℤ → InstalmentStructure → Option ℤ → Result InstalmentError (List ℤ)
unfolding amounts_of
compute_instalment_amounts financed n structure balloon_amount = do
  throw_if (leb_ℤ n (pos 0)) count_not_positive
  throw_if (ltb_ℤ financed (pos 0)) negative_financed
  amounts_of (pos_part financed) (pos_part n) structure balloon_amount

pub data ArrearsRisk : Type 0 where
  current d1_30 d31_60 d61_90 d90_plus : ArrearsRisk

-- `arrearsBucket(daysOverdue)`
unfoldable pub arrears_bucket : ℤ → ArrearsRisk
arrears_bucket days_overdue =
    if leb_ℤ days_overdue (pos 0)
    then current
    else if leb_ℤ days_overdue (pos 30)
    then d1_30
    else if leb_ℤ days_overdue (pos 60)
    then d31_60
    else if leb_ℤ days_overdue (pos 90)
    then d61_90
    else d90_plus
