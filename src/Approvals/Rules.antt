-- ===== src/Approvals/Rules.antt =====
-- Which transactions need two signatories: the rule that the query picks decides for all rules.
use infraco_os.Common.{
  ℕ, ◌≡◌, refl, ◌↔◌, arith, Bool, true, ◌&&◌, some, List, [], ◌∷◌, exists, if◌then◌else◌,
  Option-cases, inl, inr,
}
use infraco_os.Common.Int.{ℤ}
use infraco_os.Database.Enums.{CurrencyCode}
use infraco_os.Approvals.{
  DoaRule, Approvals, applies, resolve_rule, triggers, requires_approval, triggered, first_of_two,
}

-- Some rule for the action and the currency demands a second signatory for the amount.
abbrev pub demanded : ℕ → CurrencyCode → ℤ → List DoaRule → Bool
demanded action_code currency amount =
    exists (λ r. applies action_code currency r && triggers r amount)

-- Of two rules the query keeps one that triggers whenever either does.
first_of_two-triggers :
    (r s : DoaRule) (amount : ℤ)
    → triggers (first_of_two r (some s)) amount
      ≡ (if triggers r amount then true else triggers s amount)
unfolding triggers
first_of_two-triggers r s amount = ground arith

pub resolve_rule-triggers :
    (action_code : ℕ) (currency : CurrencyCode) (amount : ℤ) (rules : List DoaRule)
    → triggered (resolve_rule action_code currency rules) amount
      ≡ demanded action_code currency amount rules
unfolding resolve_rule
resolve_rule-triggers action_code currency amount [] = refl
resolve_rule-triggers action_code currency amount (r ∷ rs) =
    elim (Option-cases (resolve_rule action_code currency rs)) [
      | inl p ↦ ground (arith, resolve_rule-triggers action_code currency amount rs)
      | inr (s, p) ↦ ground (
        arith,
        resolve_rule-triggers action_code currency amount rs,
        first_of_two-triggers r s amount,
      )
    ]

-- `requires_approval` answers true exactly if some rule for the action code and the currency has
-- `dual_auth` and no threshold, or a threshold strictly below the amount.
pub requires_approval_iff :
    (action_code : ℕ) (amount : ℤ) (currency : CurrencyCode) (a : Approvals)
    → ((requires_approval action_code amount currency a).required ≡ true)
      ↔ (demanded action_code currency amount a.rules ≡ true)
unfolding requires_approval
requires_approval_iff action_code amount currency a =
    elim (Option-cases (resolve_rule action_code currency a.rules)) [
      | inl p ↦
          let e = resolve_rule-triggers action_code currency amount a.rules in
          (ground arith, ground arith)
      | inr (s, p) ↦
          let e = resolve_rule-triggers action_code currency amount a.rules in
          (ground arith, ground arith)
    ]
