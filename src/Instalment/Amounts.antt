-- ===== src/Instalment/Amounts.antt =====
-- A schedule has the number of instalments asked for and adds up to the financed amount.
use infraco_os.Common.{
  ℕ, zero, suc, ◌-◌, ◌*◌, ◌<◌, ◌≡◌, Option, none, some, List, [], ◌∷◌, ◌++◌, arith, length,
  length-append, length-replicate, replicate,
}
use infraco_os.Common.Int.{ℤ, pos, sub_ℕ, sub_ℕ_parts, ◌+ℤ◌, ◌≤ℤ◌, int_laws, pos_part}
use infraco_os.Common.Result.{ok}
use infraco_os.Instalment.{
  InstalmentStructure, equal, balloon, round_div, spread, compute_instalment_amounts,
}

abbrev pub total : List ℤ → ℤ
total [] = pos 0
total (a ∷ rest) = a +ℤ total rest

pub total-replicate-append :
    (k per : ℕ) (last : ℤ) → total (replicate k (pos per) ++ last ∷ []) ≡ pos (per * k) +ℤ last
total-replicate-append zero per last = omega int_laws
total-replicate-append (suc k) per last = grind (int_laws, total-replicate-append k per last)

total-spread : (cents per n : ℕ) → total (spread cents per n) ≡ pos cents
unfolding spread
total-spread cents per n =
    rw total-replicate-append (omega (int_laws, sub_ℕ_parts cents (per * (n - 1))))

length-spread : (cents per n : ℕ) → 0 < n → length (spread cents per n) ≡ n
unfolding spread
length-spread cents per n h = omega (
  arith,
  length-append (replicate (n - 1) (pos per)) (sub_ℕ cents (per * (n - 1)) ∷ []),
  length-replicate (n - 1) (pos per),
)

-- Every schedule that is returned is `spread` for some regular amount, on inputs that passed the
-- guards.
pub compute_instalment_amounts-spread :
    (financed n : ℤ) (structure : InstalmentStructure) (b : Option ℤ) {amounts : List ℤ}
    → compute_instalment_amounts financed n structure b ≡ ok amounts
    → (per : ℕ) × (amounts ≡ spread (pos_part financed) per (pos_part n))
      × (pos 0 ≤ℤ financed)
      × (pos 1 ≤ℤ n)
unfolding compute_instalment_amounts
compute_instalment_amounts-spread financed n equal b h =
    (round_div (pos_part financed) (pos_part n), ground arith, ground arith, ground arith)
compute_instalment_amounts-spread financed n balloon none h = absurd (ground arith)
compute_instalment_amounts-spread financed n balloon (some b) h = (
  round_div (pos_part financed - pos_part b) (pos_part n - 1),
  ground arith,
  ground arith,
  ground arith,
)

-- Whenever a schedule is returned it has exactly `n` instalments, and their sum is exactly the
-- financed amount, for both structures.
pub compute_instalment_amounts-total :
    (financed n : ℤ) (structure : InstalmentStructure) (b : Option ℤ) {amounts : List ℤ}
    → compute_instalment_amounts financed n structure b ≡ ok amounts
    → (total amounts ≡ financed) × (pos (length amounts) ≡ n)
compute_instalment_amounts-total financed n structure b h =
    let (per, e, f, g) = compute_instalment_amounts-spread financed n structure b h in
    ground (
      arith,
      total-spread (pos_part financed) per (pos_part n),
      length-spread (pos_part financed) per (pos_part n),
    )
