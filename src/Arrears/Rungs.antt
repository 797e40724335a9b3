-- ===== src/Arrears/Rungs.antt =====
-- The rung that `highestDueRung` picks.
use infraco_os.Common.{ℕ, ◌≤◌, ◌<◌, ◌≡◌, ◌↔◌, arith, Option, none, some}
use infraco_os.Arrears.{
  EscalationRung, highest_due_rung, EscalationStage, reminder, formal_notice, legal_referral,
}

abbrev pub stage_of : Option EscalationRung → Option EscalationStage
stage_of none = none
stage_of (some r) = some r.stage

-- The days from which a stage is due, up to the next one.
abbrev pub Spans : Option EscalationStage → ℕ → Type 0
Spans none days = days < 7
Spans (some reminder) days = (7 ≤ days) × (days < 30)
Spans (some formal_notice) days = (30 ≤ days) × (days < 90)
Spans (some legal_referral) days = 90 ≤ days

-- No rung is due before day 7, a reminder from day 7 to 29, a formal notice from day 30 to 89, and a
-- legal referral from day 90 on; each only then.
pub highest_due_rung_iff :
    (stage : Option EscalationStage) (days : ℕ)
    → (stage_of (highest_due_rung days) ≡ stage) ↔ Spans stage days
unfolding highest_due_rung
highest_due_rung_iff none days = (ground arith, ground arith)
highest_due_rung_iff (some reminder) days = (ground arith, ground arith)
highest_due_rung_iff (some formal_notice) days = (ground arith, ground arith)
highest_due_rung_iff (some legal_referral) days = (ground arith, ground arith)
