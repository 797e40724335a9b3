-- ===== src/Instalment/Bounds.antt =====
-- How the amounts of a schedule are spread, which requests are accepted, and when the last amount
-- is negative.
use native.Mathlib.Decide.{dec_le}
use native.Mathlib.Nat.{mul-le-mul_right}
use infraco_os.Common.{
  ℕ, zero, suc, ◌+◌, ◌-◌, ◌*◌, ◌<◌, ◌≤◌, ◌≡◌, refl, ◌↔◌, Option, none, some, List, [], ◌∷◌, ◌++◌,
  arith, replicate, true, subst,
}
use infraco_os.Common.Int.{ℤ, pos, sub_ℕ, ◌≤ℤ◌, ◌<ℤ◌, pos_part}
use infraco_os.Common.Result.{ok, is_ok}
use infraco_os.Instalment.{
  InstalmentStructure, equal, balloon, round_div, compute_instalment_amounts, arrears_bucket,
  ArrearsRisk, current, d1_30, d31_60, d61_90, d90_plus,
}

-- The last amount of a schedule.
abbrev pub last_or : ℤ → List ℤ → ℤ
last_or d [] = d
last_or d (x ∷ xs) = last_or x xs

last_or-replicate-append : (k : ℕ) (d x y : ℤ) → last_or d (replicate k x ++ y ∷ []) ≡ y
last_or-replicate-append zero d x y = refl
last_or-replicate-append (suc k) d x y = last_or-replicate-append k x x y

-- A rounded share is within half a unit of the exact one.
round_div_bounds :
    (a n : ℕ)
    → 0 < n
    → (2 * (round_div a n * n) ≤ 2 * a + n) × (2 * a < 2 * (round_div a n * n) + n)
unfolding round_div
round_div_bounds a n h = omega arith

share-le_suc : (c m per : ℕ) → 2 * (per * suc m) ≤ 2 * c + suc m → suc m * m ≤ 2 * c → per * m ≤ c
share-le_suc c m per h k = elim (dec_le (per * m) c) [
  | yes q ↦ q
  | no q ↦ absurd (
      omega (
        arith,
        mul-le-mul_right (suc m) (let r : c + 1 ≤ per * m = omega arith in r),
        mul-le-mul_right m h,
      ))
]

share-le :
    (c n per : ℕ) → 0 < n → 2 * (per * n) ≤ 2 * c + n → n * (n - 1) ≤ 2 * c → per * (n - 1) ≤ c
share-le c zero per p h k = elim p [ ]
share-le c (suc m) per p h k =
    let e : m ≡ suc m - 1 = omega arith in
    subst (λ t. suc m * t ≤ 2 * c → per * t ≤ c) e (share-le_suc c m per h) k

-- The last amount of an equal schedule is at least 0 if twice the financed cents reach n (n - 1).
pub equal_last_bounds :
    (financed n : ℤ) (b : Option ℤ) {amounts : List ℤ}
    → compute_instalment_amounts financed n equal b ≡ ok amounts
    → pos_part n * (pos_part n - 1) ≤ 2 * pos_part financed
    → pos 0 ≤ℤ last_or (pos 0) amounts
unfolding compute_instalment_amounts
equal_last_bounds financed n b h k = ground (
  arith,
  round_div_bounds (pos_part financed) (pos_part n),
  share-le (pos_part financed) (pos_part n) (round_div (pos_part financed) (pos_part n)),
  last_or-replicate-append (pos_part n - 1) (pos 0)
      (pos (round_div (pos_part financed) (pos_part n)))
      (sub_ℕ (pos_part financed) (round_div (pos_part financed) (pos_part n) * (pos_part n - 1))),
)

share-lt : (c n per : ℕ) → n ≤ 2 * c → c + 1 < n → 2 * c < 2 * (per * n) + n → c < per * (n - 1)
share-lt c n zero h k b = omega arith
share-lt c n (suc per) h k b = grind arith

-- A financed amount that is smaller than the number of regular instalments, but at least half a
-- cent for each, gives a schedule whose last amount is negative.
pub small_financed_negative :
    (c n : ℕ) (b : Option ℤ) {amounts : List ℤ}
    → n ≤ 2 * c
    → c + 1 < n
    → compute_instalment_amounts (pos c) (pos n) equal b ≡ ok amounts
    → last_or (pos 0) amounts <ℤ pos 0
unfolding compute_instalment_amounts
small_financed_negative c n b h k e = ground (
  arith,
  share-lt c n (round_div c n),
  round_div_bounds c n,
  last_or-replicate-append (n - 1) (pos 0) (pos (round_div c n))
      (sub_ℕ c (round_div c n * (n - 1))),
)

-- The requests that `compute_instalment_amounts` accepts.
abbrev pub IsAcceptable : ℤ → ℤ → InstalmentStructure → Option ℤ → Type 0
IsAcceptable financed n equal b = (pos 1 ≤ℤ n) × (pos 0 ≤ℤ financed)
IsAcceptable financed n balloon none = ⊥
IsAcceptable financed n balloon (some b) =
    (pos 2 ≤ℤ n) × (pos 0 ≤ℤ financed) × (pos 0 <ℤ b) × (b <ℤ financed)

-- A schedule is returned exactly for a positive count and an amount that is not negative, and, for
-- a balloon, two instalments or more and a balloon strictly between 0 and the amount.
pub compute_instalment_amounts_iff :
    (financed n : ℤ) (structure : InstalmentStructure) (b : Option ℤ)
    → (is_ok (compute_instalment_amounts financed n structure b) ≡ true)
      ↔ IsAcceptable financed n structure b
unfolding compute_instalment_amounts
compute_instalment_amounts_iff financed n equal b = (ground arith, ground arith)
compute_instalment_amounts_iff financed n balloon none = (λ h. absurd (ground arith), λ h. absurd h)
compute_instalment_amounts_iff financed n balloon (some b) = (ground arith, ground arith)

-- The bounds of each bucket, and the days that each one holds.
abbrev pub Holds : ArrearsRisk → ℤ → Type 0
Holds current d = d ≤ℤ pos 0
Holds d1_30 d = (pos 1 ≤ℤ d) × (d ≤ℤ pos 30)
Holds d31_60 d = (pos 31 ≤ℤ d) × (d ≤ℤ pos 60)
Holds d61_90 d = (pos 61 ≤ℤ d) × (d ≤ℤ pos 90)
Holds d90_plus d = pos 91 ≤ℤ d

-- A number of days overdue lies in a bucket exactly if `arrearsBucket` gives that bucket.
pub arrears_bucket_iff : (risk : ArrearsRisk) (d : ℤ) → (arrears_bucket d ≡ risk) ↔ Holds risk d
unfolding arrears_bucket
arrears_bucket_iff current d = (ground arith, ground arith)
arrears_bucket_iff d1_30 d = (ground arith, ground arith)
arrears_bucket_iff d31_60 d = (ground arith, ground arith)
arrears_bucket_iff d61_90 d = (ground arith, ground arith)
arrears_bucket_iff d90_plus d = (ground arith, ground arith)
