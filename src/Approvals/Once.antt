-- ===== src/Approvals/Once.antt =====
-- An approval authorises one execution.
use infraco_os.Common.{
  ℕ, ◌≡◌, ◌≢◌, refl, sym, subst, ◌<◌, arith, Bool, true, false, Option, none, some, List, [], ◌∷◌,
  update_where, Option-cases, Bool-cases, inl, inr,
}
use infraco_os.Common.Keys.{has_key, find?-update_self, find?-update_ne, find?-below}
use infraco_os.Common.Result.{ok, err}
use infraco_os.Database.Enums.{conflict}
use infraco_os.Approvals.{
  ApprovalRequest, Approvals, execute, decided, executed_row, Call, initiates, decides, executes,
  step, run, find_request, mark_executed, is_executed, is_approved,
}
use infraco_os.Approvals.Signatories.{IsValid, decide_cases, execute_cases, initiate_cases}

abbrev executed_in : Option ApprovalRequest → Bool
executed_in none = false
executed_in (some r) = is_executed r.status

-- The request exists and has been executed.
pub record IsSpent (id : ℕ) (a : Approvals) : Type 0 where
  pub below : id < a.next_id
  pub spent : executed_in (find_request id a) ≡ true

module _ (id : ℕ) where
  update-IsSpent :
      (f : ApprovalRequest → ApprovalRequest) (other : ℕ) (a : Approvals) {r : ApprovalRequest}
      → ((y : ApprovalRequest) → (f y).approval_id ≡ y.approval_id)
      → find_request other a ≡ some r
      → is_executed r.status ≡ false
      → IsSpent id a
      → IsSpent id
          (record a { requests = update_where (has_key (λ r. r.approval_id) other) f a.requests })
  update-IsSpent f other a {r} same found live s =
      let ne : id ≢ other = λ e. absurd (
        let h : find_request id a ≡ some r = subst (λ k. find_request k a ≡ some r) (sym e) found in
        let spent = s.spent in ground arith) in
      record {
        below = s.below;
        spent =
            subst (λ o. executed_in o ≡ true)
              (sym (find?-update_ne (λ r. r.approval_id) f other id a.requests same ne)) s.spent;
      }

  step-IsSpent : (c : Call) (a : Approvals) → IsSpent id a → IsSpent id (step c a)
  unfolding step
  step-IsSpent (initiates p actor) a s = elim (initiate_cases p actor a) [
    | inl same ↦ subst (IsSpent id) (sym same) s
    | inr (r, key, _, _, e) ↦
        let below = s.below in
        let spent = s.spent in
        subst (IsSpent id) (sym e) (record { below = omega arith; spent = ground arith })
  ]
  step-IsSpent (decides other actor d) a s = elim (decide_cases other actor d a) [
    | inl same ↦ subst (IsSpent id) (sym same) s
    | inr (r, found, status, _, e) ↦
        subst (IsSpent id) (sym e)
          (update-IsSpent (decided d actor) other a (λ _. refl) found (ground arith) s)
  ]
  step-IsSpent (executes other) a s = elim (execute_cases other a) [
    | inl same ↦ subst (IsSpent id) (sym same) s
    | inr (r, found, status, e) ↦
        subst (IsSpent id) (sym e)
          (update-IsSpent executed_row other a (λ _. refl) found (ground arith) s)
  ]

  run-IsSpent : (cs : List Call) (a : Approvals) → IsSpent id a → IsSpent id (run cs a)
  unfolding run
  run-IsSpent [] a s = s
  run-IsSpent (c ∷ cs) a s = run-IsSpent cs (step c a) (step-IsSpent c a s)

  execute-refuses : (a : Approvals) → IsSpent id a → execute id a ≡ (err conflict, a)
  unfolding execute
  execute-refuses a s = elim (Option-cases (find_request id a)) [
    | inl p ↦ let spent = s.spent in absurd (ground arith)
    | inr (r, p) ↦ let spent = s.spent in ground arith
  ]

  execute-IsSpent :
      (a a' : Approvals) (r : ApprovalRequest)
      → IsValid a
      → execute id a ≡ (ok r, a')
      → IsSpent id a'
  unfolding execute
  execute-IsSpent a a' r v h = elim (Option-cases (find_request id a)) [
    | inl p ↦ absurd (ground arith)
    | inr (cur, p) ↦ elim (Bool-cases (is_approved cur.status)) [
      | inr q ↦ absurd (ground arith)
      | inl q ↦
          let e : mark_executed id a ≡ a' = ground arith in
          let below = find?-below (λ r. r.approval_id) id a.next_id a.requests v.keyed p in
          let now =
            find?-update_self (λ r. r.approval_id) executed_row id a.requests (λ _. refl) p in
          subst (IsSpent id) e (record { below = below; spent = ground arith })
    ]
  ]

-- Where every request has its signatories, a request that has been executed is refused with
-- `conflict` by every later execution, whatever calls are made in between, and the refusal changes no
-- table.
pub execute_once :
    (id : ℕ) (a a' : Approvals) (r : ApprovalRequest) (cs : List Call)
    → IsValid a
    → execute id a ≡ (ok r, a')
    → execute id (run cs a') ≡ (err conflict, run cs a')
execute_once id a a' r cs v h =
    execute-refuses id (run cs a') (run-IsSpent id cs a' (execute-IsSpent id a a' r v h))
