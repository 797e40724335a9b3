-- ===== src/Arrears.antt =====
-- The escalation ladder of src/modules/financial/arrears.util.ts.
pub mod Rungs
mod Tests
use infraco_os.Common.{ℕ, Option, none, some, List, [], ◌∷◌, leb, if◌then◌else◌}

pub data EscalationStage : Type 0 where
  reminder formal_notice legal_referral : EscalationStage

pub data Channel : Type 0 where
  sms email : Channel

-- `EscalationRung`; its template is named after its stage.
pub record EscalationRung : Type 0 where
  pub stage : EscalationStage
  pub min_days : ℕ
  pub channel : Channel

-- `ESCALATION_LADDER`
abbrev pub escalation_ladder : List EscalationRung
escalation_ladder =
    record { stage = reminder; min_days = 7; channel = sms }
    ∷ record { stage = formal_notice; min_days = 30; channel = email }
    ∷ record { stage = legal_referral; min_days = 90; channel = email }
    ∷ []

-- The loop of `highestDueRung`: the last rung that is due.
abbrev pub last_due : ℕ → Option EscalationRung → List EscalationRung → Option EscalationRung
last_due days due [] = due
last_due days due (rung ∷ rungs) =
    let next = last_due days (some rung) rungs in
    let same = last_due days due rungs in if leb rung.min_days days then next else same

-- `highestDueRung(daysOverdue)`
pub highest_due_rung : ℕ → Option EscalationRung
highest_due_rung days_overdue = last_due days_overdue none escalation_ladder
