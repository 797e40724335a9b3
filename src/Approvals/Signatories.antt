-- ===== src/Approvals/Signatories.antt =====
-- Two distinct signatories stand behind every request that has been decided.
use mathlib.Core.Path.{subst₂}
use infraco_os.Common.{
  ℕ, suc, ◌≡◌, ◌≢◌, refl, arith, Option, none, some, List, [], ◌∷◌, All, ◌==◌, update_where,
  Option-cases, Bool-cases, ◌&&◌, ◌⊎◌, sym, subst, inl, inr,
}
use infraco_os.Common.Keys.{Descending, has_key, All-update_key, Descending-update}
use infraco_os.Common.Int.{pos, ltb_ℤ}
use infraco_os.Common.Result.{Result-cases}
use infraco_os.Database.Enums.{ApprovalStatus, pending, approved, rejected, executed}
use infraco_os.Approvals.{
  ApprovalRequest, Approvals, InitiateParams, initiate, decide, execute, Decision, approve_it,
  reject_it, decided, executed_row, Call, is_pending, is_approved, check_request, resolve_rule,
  triggered, threshold_of, initiates, decides, executes, step, run, find_request, mark_executed,
}

-- A request that is pending has no decider; any other has one, who is not the initiator.
abbrev pub HasSignatories : ApprovalStatus → Option ℕ → ℕ → Type 0
HasSignatories pending decided_by initiated_by = decided_by ≡ none
HasSignatories _ none initiated_by = ⊥
HasSignatories _ (some d) initiated_by = d ≢ initiated_by

abbrev pub IsRequest : ApprovalRequest → Type 0
IsRequest r = HasSignatories r.status r.decided_by r.initiated_by

-- Every request has its signatories, and ids are handed out in increasing order.
pub record IsValid (a : Approvals) : Type 0 where
  pub signed : All IsRequest a.requests
  pub keyed : Descending (λ r. r.approval_id) a.next_id a.requests

-- What `decide` has done: nothing, or one decision by another user on a pending request.
pub decide_cases :
    (id actor : ℕ) (d : Decision) (a : Approvals)
    → ((decide id actor d a).1 ≡ a)
      ⊎ ((r : ApprovalRequest) × (find_request id a ≡ some r)
          × (r.status ≡ pending)
          × (actor ≢ r.initiated_by)
          × ((decide id actor d a).1 ≡ record a {
            requests = update_where (has_key (λ r. r.approval_id) id) (decided d actor) a.requests;
          }))
unfolding decide
decide_cases id actor d a = elim (Option-cases (find_request id a)) [
  | inl p ↦ inl (ground arith)
  | inr (r, p) ↦ elim (Bool-cases (is_pending r.status)) [
    | inr q ↦ inl (ground arith)
    | inl q ↦ elim (Bool-cases (r.initiated_by == actor)) [
      | inl s ↦ inl (ground arith)
      | inr s ↦ inr (r, p, ground arith, ground arith, ground arith)
    ]
  ]
]

-- What `execute` has done: nothing, or the execution of an approved request.
pub execute_cases :
    (id : ℕ) (a : Approvals)
    → ((execute id a).1 ≡ a)
      ⊎ ((r : ApprovalRequest) × (find_request id a ≡ some r)
          × (r.status ≡ approved)
          × ((execute id a).1 ≡ mark_executed id a))
unfolding execute
execute_cases id a = elim (Option-cases (find_request id a)) [
  | inl p ↦ inl (ground arith)
  | inr (r, p) ↦ elim (Bool-cases (is_approved r.status)) [
    | inr q ↦ inl (ground arith)
    | inl q ↦ inr (r, p, ground arith, ground arith)
  ]
]

-- What `initiate` has done: nothing, or a new pending request of the user.
pub initiate_cases :
    (p : InitiateParams) (actor : ℕ) (a : Approvals)
    → ((initiate p actor a).1 ≡ a)
      ⊎ ((r : ApprovalRequest) × (r.approval_id ≡ a.next_id)
          × (r.status ≡ pending)
          × (r.decided_by ≡ none)
          × ((initiate p actor a).1
              ≡ record a { requests = r ∷ a.requests; next_id = suc a.next_id }))
unfolding initiate
initiate_cases p actor a = elim (Result-cases (check_request p)) [
  | inr (e, q) ↦ inl (ground arith)
  | inl ((action_code, currency), q) ↦
      let rule = resolve_rule action_code currency a.rules in
      elim (Bool-cases (triggered rule p.amount && ltb_ℤ (pos 0) p.amount)) [
        | inr s ↦ inl (ground arith)
        | inl s ↦ inr (
          record {
            approval_id = a.next_id;
            action_code = action_code;
            amount = p.amount;
            currency = currency;
            threshold = threshold_of rule;
            status = pending;
            initiated_by = actor;
            decided_by = none;
          },
          refl,
          refl,
          refl,
          ground arith,
        )
      ]
]

decided-IsRequest :
    (d : Decision) (actor : ℕ) (r : ApprovalRequest)
    → actor ≢ r.initiated_by
    → IsRequest (decided d actor r)
decided-IsRequest approve_it actor r h = h
decided-IsRequest reject_it actor r h = h

executed_row-IsRequest :
    (r : ApprovalRequest) → r.status ≡ approved → IsRequest r → IsRequest (executed_row r)
executed_row-IsRequest r e h = go r.status r.decided_by e h
  where
    go :
        (s : ApprovalStatus) (d : Option ℕ)
        → s ≡ approved
        → HasSignatories s d r.initiated_by
        → HasSignatories executed d r.initiated_by
    go approved none e h = h
    go approved (some d) e h = h
    go pending d e h = absurd (ground arith)
    go rejected d e h = absurd (ground arith)
    go executed d e h = h

step-IsValid : (c : Call) (a : Approvals) → IsValid a → IsValid (step c a)
unfolding step
step-IsValid (initiates p actor) a v = elim (initiate_cases p actor a) [
  | inl same ↦ subst IsValid (sym same) v
  | inr (r, id, status, by, e) ↦ subst IsValid (sym e) (record {
    signed =
        (subst₂ (λ s d. HasSignatories s d r.initiated_by) (sym status) (sym by) refl, v.signed);
    keyed =
        (omega arith, subst (λ k. Descending (λ r. r.approval_id) k a.requests) (sym id) v.keyed);
  })
]
step-IsValid (decides id actor d) a v = elim (decide_cases id actor d a) [
  | inl same ↦ subst IsValid (sym same) v
  | inr (r, found, status, other, e) ↦ subst IsValid (sym e) (record {
    signed =
        All-update_key (λ r. r.approval_id) (decided d actor) id IsRequest a.next_id a.requests
          v.keyed found (λ _. decided-IsRequest d actor r other) v.signed;
    keyed =
        Descending-update (λ r. r.approval_id) (decided d actor) id a.next_id a.requests (λ _. refl)
          v.keyed;
  })
]
step-IsValid (executes id) a v = elim (execute_cases id a) [
  | inl same ↦ subst IsValid (sym same) v
  | inr (r, found, status, e) ↦ subst IsValid (sym e) (record {
    signed =
        All-update_key (λ r. r.approval_id) executed_row id IsRequest a.next_id a.requests v.keyed
          found (executed_row-IsRequest r status) v.signed;
    keyed =
        Descending-update (λ r. r.approval_id) executed_row id a.next_id a.requests (λ _. refl)
          v.keyed;
  })
]

-- If every request has its signatories and ids increase, the same holds after any sequence of calls:
-- a pending request has no decider, and one that is approved, rejected or executed has a decider who
-- is not its initiator.
pub run_signatories : (cs : List Call) (a : Approvals) → IsValid a → IsValid (run cs a)
unfolding run
run_signatories [] a v = v
run_signatories (c ∷ cs) a v = run_signatories cs (step c a) (step-IsValid c a v)
