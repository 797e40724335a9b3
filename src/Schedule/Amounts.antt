-- ===== src/Schedule/Amounts.antt =====
-- The amounts of a schedule of src/modules/financial/financial.service.ts.
use infraco_os.Common.{Bool, true, false, ◌||◌, ◌≡◌, refl, sym, ap, ◌∙◌, arith, List, length}
use infraco_os.Common.Int.{ℤ, pos, ◌-ℤ◌, -ℤ_parts, eq_of_parts, ltb_ℤ}
use infraco_os.Common.Result.{Result, ok, err, ok-inj, ◌>>=◌, ◌>>◌, throw_if}
use infraco_os.Database.Enums.{Error, bad_request, CurrencyCode, resolve_currency}
use infraco_os.Instalment.{InstalmentError, compute_instalment_amounts}
use infraco_os.Instalment.Amounts.{total, compute_instalment_amounts-total}
use infraco_os.Schedule.{
  GenerateSchedule, Computed, financed, months_of, or_bad_request, compute_schedule,
}

financed_lem :
    (p : GenerateSchedule)
    → ltb_ℤ p.total_price p.deposit ≡ false
    → financed p ≡ p.total_price -ℤ p.deposit
financed_lem p h =
    eq_of_parts (financed p) (p.total_price -ℤ p.deposit)
      (ground (arith, -ℤ_parts p.total_price p.deposit))

pub schedule_amounts :
    (p : GenerateSchedule) {c : Computed}
    → compute_schedule p ≡ ok c
    → (total c.amounts ≡ p.total_price -ℤ p.deposit)
      × (pos (length c.amounts) ≡ p.num_instalments)
      × (c.months_per_step ≡ months_of p.frequency)
unfolding compute_schedule
schedule_amounts p {c} h =
    let (enough, computed, step) =
      passed (resolve_currency p.currency) (ltb_ℤ p.deposit (pos 0) || ltb_ℤ p.total_price (pos 0))
        (ltb_ℤ p.total_price p.deposit)
        (compute_instalment_amounts (financed p) p.num_instalments p.structure p.balloon_amount)
        h in
    let (sum, count) =
      compute_instalment_amounts-total (financed p) p.num_instalments p.structure p.balloon_amount
        computed in
    (sum ∙ financed_lem p enough, count, step)
  where
    passed :
        (r : Result Error CurrencyCode) (a b : Bool) (q : Result InstalmentError (List ℤ))
        → (do
          currency ← r
          throw_if a bad_request
          throw_if b bad_request
          amounts ← or_bad_request q
          ok (record {
            amounts = amounts;
            months_per_step = months_of p.frequency;
            currency = currency;
          }))
          ≡ ok c
        → (b ≡ false) × (q ≡ ok c.amounts) × (c.months_per_step ≡ months_of p.frequency)
    passed (err x) a b q k = absurd (ground arith)
    passed (ok x) true b q k = absurd (ground arith)
    passed (ok x) false true q k = absurd (ground arith)
    passed (ok x) false false (err y) k = absurd (ground arith)
    passed (ok x) false false (ok amounts) k =
        (refl, ap (λ y. ok y.amounts) (ok-inj k), ap (λ y. y.months_per_step) (sym (ok-inj k)))
