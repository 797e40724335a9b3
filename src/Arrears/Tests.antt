-- ===== src/Arrears/Tests.antt =====
-- The ladder at its thresholds.
use infraco_os.Common.{◌≡◌, refl, ◌↔◌, some, none}
use infraco_os.Arrears.{highest_due_rung, formal_notice, legal_referral}
use infraco_os.Arrears.Rungs.{stage_of, Spans, highest_due_rung_iff}

day_89 : stage_of (highest_due_rung 89) ≡ some formal_notice
unfolding highest_due_rung
day_89 = refl

day_90 : stage_of (highest_due_rung 90) ≡ some legal_referral
unfolding highest_due_rung
day_90 = refl

day_6 : highest_due_rung 6 ≡ none
unfolding highest_due_rung
day_6 = refl

highest_due_rung_iff_example :
    (stage_of (highest_due_rung 89) ≡ some formal_notice) ↔ Spans (some formal_notice) 89
highest_due_rung_iff_example = highest_due_rung_iff (some formal_notice) 89
