-- ===== src/Instalment/Tests.antt =====
-- Schedules and buckets at concrete inputs, and each theorem at an input that meets its hypotheses.
use infraco_os.Common.{◌≡◌, refl, none, some, List, [], ◌∷◌, arith, length}
use infraco_os.Common.Int.{ℤ, pos, negsuc, ◌≤ℤ◌}
use infraco_os.Common.Result.{ok, err, is_ok}
use infraco_os.Common.{◌↔◌, true}
use infraco_os.Instalment.{equal, balloon, balloon_out_of_range, compute_instalment_amounts}
use infraco_os.Instalment.Amounts.{total, compute_instalment_amounts-total}
use infraco_os.Instalment.Bounds.{
  last_or, equal_last_bounds, IsAcceptable, compute_instalment_amounts_iff,
}

-- 1000.00 over 3: 333.33, 333.33, 333.34.
abbrev thirds : List ℤ
thirds = pos 33333 ∷ pos 33333 ∷ pos 33334 ∷ []

thirds_lem : compute_instalment_amounts (pos 100000) (pos 3) equal none ≡ ok thirds
unfolding compute_instalment_amounts
thirds_lem = refl

balloon_lem :
    compute_instalment_amounts (pos 10000) (pos 3) balloon (some (pos 7001))
    ≡ ok (pos 1500 ∷ pos 1500 ∷ pos 7000 ∷ [])
unfolding compute_instalment_amounts
balloon_lem = refl

balloon_too_large :
    compute_instalment_amounts (pos 100) (pos 3) balloon (some (pos 100)) ≡ err balloon_out_of_range
unfolding compute_instalment_amounts
balloon_too_large = refl

-- Three cents over five instalments end in minus one cent.
abbrev three_cents : List ℤ
three_cents = pos 1 ∷ pos 1 ∷ pos 1 ∷ pos 1 ∷ negsuc 0 ∷ []

three_cents_lem : compute_instalment_amounts (pos 3) (pos 5) equal none ≡ ok three_cents
unfolding compute_instalment_amounts
three_cents_lem = refl

compute_instalment_amounts-total_example :
    (total thirds ≡ pos 100000) × (pos (length thirds) ≡ pos 3)
compute_instalment_amounts-total_example =
    compute_instalment_amounts-total (pos 100000) (pos 3) equal none thirds_lem

equal_last_bounds_example : pos 0 ≤ℤ last_or (pos 0) thirds
equal_last_bounds_example = equal_last_bounds (pos 100000) (pos 3) none thirds_lem (omega arith)

compute_instalment_amounts_iff_example :
    (is_ok (compute_instalment_amounts (pos 100) (pos 1) balloon (some (pos 7))) ≡ true)
    ↔ IsAcceptable (pos 100) (pos 1) balloon (some (pos 7))
compute_instalment_amounts_iff_example =
    compute_instalment_amounts_iff (pos 100) (pos 1) balloon (some (pos 7))
