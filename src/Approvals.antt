-- ===== src/Approvals.antt =====
-- The delegation-of-authority workflow: src/modules/approvals/approval.service.ts, over the tables
-- core.authority_rule and core.approval_request. A text that the code only compares (an action code,
-- a user) is a number. A threshold and an amount are in cents.
pub mod Rules
pub mod Signatories
pub mod Execution
pub mod Once
mod Tests
use infraco_os.Common.{
  ℕ, suc, Bool, true, false, not, ◌&&◌, ◌||◌, Option, none, some, List, [], ◌∷◌, ◌==◌,
  if◌then◌else◌, find?, where_rows, update_where, is_some,
}
use infraco_os.Common.Int.{ℤ, pos, ltb_ℤ}
use infraco_os.Common.Result.{Result, ok, err}
use infraco_os.Database.Enums.{
  Error, bad_request, not_found, forbidden, conflict, check_violation, CurrencyCode, CurrencyInput,
  usd, zig, gbp, zar, eur, aud, resolve_currency, ApprovalStatus, pending, approved, rejected,
  executed,
}
use infraco_os.Database.Transaction.{
  Action, Tx, ◌>>=◌, ◌>>◌, pure, throw_if, or_throw, lift, statement, query, modify, with_actor,
}

-- core.authority_rule; no `max_amount` means any amount.
pub record DoaRule : Type 0 where
  pub rule_id : ℕ
  pub action_code : ℕ
  pub currency : CurrencyCode
  pub max_amount : Option ℤ
  pub dual_auth : Bool

-- core.approval_request, without the payload, the notes and the times, which no code reads.
pub record ApprovalRequest : Type 0 where
  pub approval_id : ℕ
  pub action_code : ℕ
  pub amount : ℤ
  pub currency : CurrencyCode
  pub threshold : Option ℤ
  pub status : ApprovalStatus
  pub initiated_by : ℕ
  pub decided_by : Option ℕ

pub record Approvals : Type 0 where
  pub rules : List DoaRule
  pub requests : List ApprovalRequest
  pub next_id : ℕ

abbrev pub currency_index : CurrencyCode → ℕ
currency_index usd = 0
currency_index zig = 1
currency_index gbp = 2
currency_index zar = 3
currency_index eur = 4
currency_index aud = 5

abbrev pub same_currency : CurrencyCode → CurrencyCode → Bool
same_currency a b = currency_index a == currency_index b

-- WHERE action_code = $1 AND currency = $2
abbrev pub applies : ℕ → CurrencyCode → DoaRule → Bool
applies action_code currency r = r.action_code == action_code && same_currency r.currency currency

abbrev max_amount_before : Option ℤ → Option ℤ → Bool
max_amount_before none _ = true
max_amount_before (some _) none = false
max_amount_before (some a) (some b) = not (ltb_ℤ b a)

-- ORDER BY dual_auth DESC, max_amount ASC NULLS FIRST: whether `r` may stand before `s`.
abbrev pub sorts_before : DoaRule → DoaRule → Bool
sorts_before r s =
    if r.dual_auth
    then (if s.dual_auth then max_amount_before r.max_amount s.max_amount else true)
    else if s.dual_auth
    then false
    else max_amount_before r.max_amount s.max_amount

-- The first of two rows, where the second may be missing.
abbrev pub first_of_two : DoaRule → Option DoaRule → DoaRule
first_of_two r none = r
first_of_two r (some s) = if sorts_before r s then r else s

-- LIMIT 1 of the sorted rows.
unfoldable pub resolve_rule : ℕ → CurrencyCode → List DoaRule → Option DoaRule
resolve_rule action_code currency [] = none
resolve_rule action_code currency (r ∷ rs) =
    let best = resolve_rule action_code currency rs in
    if applies action_code currency r then some (first_of_two r best) else best

-- `triggers(rule, amount)`
unfoldable pub triggers : DoaRule → ℤ → Bool
triggers rule amount =
    if not rule.dual_auth
    then false
    else elim rule.max_amount [ none ↦ true | some max_amount ↦ ltb_ℤ max_amount amount ]

pub record DoaDecision : Type 0 where
  pub required : Bool
  pub threshold : Option ℤ
  pub rule_id : Option ℕ

abbrev decide_by_rule : Option DoaRule → ℤ → DoaDecision
decide_by_rule none amount = record { required = false; threshold = none; rule_id = none }
decide_by_rule (some r) amount = record {
  required = triggers r amount;
  threshold = r.max_amount;
  rule_id = some r.rule_id;
}

-- `requiresApproval`
unfoldable pub requires_approval : ℕ → ℤ → CurrencyCode → Approvals → DoaDecision
unfolding triggers
requires_approval action_code amount currency a =
    decide_by_rule (resolve_rule action_code currency a.rules) amount

-- A blank `action_code` is `none`.
pub record InitiateParams : Type 0 where
  pub action_code : Option ℕ
  pub amount : ℤ
  pub currency : CurrencyInput

abbrev insert_request : ApprovalRequest → Approvals → Result Error (ApprovalRequest × Approvals)
insert_request r a =
    if not (ltb_ℤ (pos 0) r.amount)
    then err check_violation
    else ok (r, record a { requests = r ∷ a.requests; next_id = suc a.next_id })

abbrev triggered : Option DoaRule → ℤ → Bool
triggered none amount = false
triggered (some rule) amount = triggers rule amount

abbrev threshold_of : Option DoaRule → Option ℤ
threshold_of none = none
threshold_of (some rule) = rule.max_amount

-- The tests of `initiate` on its arguments.
abbrev check_request : InitiateParams → Result Error (ℕ × CurrencyCode)
check_request p = elim p.action_code [
  | none ↦ err bad_request
  | some action_code ↦
      if not (ltb_ℤ (pos 0) p.amount) then err bad_request else elim (resolve_currency p.currency) [
        | err e ↦ err e
        | ok currency ↦ ok (action_code, currency)
      ]
]

-- `initiate`
pub initiate : InitiateParams → ℕ → Action Approvals ApprovalRequest
initiate p actor a = elim (check_request p) [
  | err e ↦ (err e, a)
  | ok (action_code, currency) ↦
      let rule = resolve_rule action_code currency a.rules in
      if not (triggered rule p.amount)
      then (err bad_request, a)
      else with_actor
          (statement (λ d.
            insert_request
              (record {
                approval_id = d.next_id;
                action_code = action_code;
                amount = p.amount;
                currency = currency;
                threshold = threshold_of rule;
                status = pending;
                initiated_by = actor;
                decided_by = none;
              })
              d))
          a
]

abbrev pub find_request : ℕ → Approvals → Option ApprovalRequest
find_request id a = find? (λ r. r.approval_id == id) a.requests

abbrev pub is_pending : ApprovalStatus → Bool
is_pending pending = true
is_pending _ = false

abbrev pub is_approved : ApprovalStatus → Bool
is_approved approved = true
is_approved _ = false

abbrev pub is_executed : ApprovalStatus → Bool
is_executed executed = true
is_executed _ = false

-- The two decisions that `decide` can record.
pub data Decision : Type 0 where
  approve_it reject_it : Decision

abbrev pub status_of : Decision → ApprovalStatus
status_of approve_it = approved
status_of reject_it = rejected

abbrev pub decided : Decision → ℕ → ApprovalRequest → ApprovalRequest
decided d actor r = record r { status = status_of d; decided_by = some actor }

-- The UPDATE of `decide`, under the CHECK that the two signatories differ.
abbrev pub record_decision :
    ℕ → Decision → ℕ → ApprovalRequest → Approvals → Result Error (ApprovalRequest × Approvals)
record_decision id d actor current a =
    if current.initiated_by == actor
    then err check_violation
    else ok (
      decided d actor current,
      record a { requests = update_where (λ r. r.approval_id == id) (decided d actor) a.requests },
    )

-- `decide`, which `approve` and `reject` call.
pub decide : ℕ → ℕ → Decision → Action Approvals ApprovalRequest
decide id actor decision = with_actor do
  current ← or_throw (← query (find_request id)) not_found
  throw_if (not (is_pending current.status)) conflict
  throw_if (current.initiated_by == actor) forbidden
  statement (record_decision id decision actor current)

abbrev pub executed_row : ApprovalRequest → ApprovalRequest
executed_row r = record r { status = executed }

abbrev pub mark_executed : ℕ → Approvals → Approvals
mark_executed id a = record a {
  requests = update_where (λ r. r.approval_id == id) executed_row a.requests;
}

-- `execute`
unfoldable pub execute : ℕ → Action Approvals ApprovalRequest
execute id = with_actor do
  current ← or_throw (← query (find_request id)) not_found
  throw_if (is_executed current.status) conflict
  throw_if (not (is_approved current.status)) forbidden
  modify (mark_executed id)
  pure (executed_row current)

-- The calls of the workflow, each with the user who makes it.
pub data Call : Type 0 where
  initiates : InitiateParams → ℕ → Call
  decides : ℕ → ℕ → Decision → Call
  executes : ℕ → Call

pub step : Call → Approvals → Approvals
step (initiates p actor) a = (initiate p actor a).1
step (decides id actor d) a = (decide id actor d a).1
step (executes id) a = (execute id a).1

pub run : List Call → Approvals → Approvals
run [] a = a
run (c ∷ cs) a = run cs (step c a)
