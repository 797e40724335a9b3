-- ===== src/Approvals/Execution.antt =====
-- When `execute` succeeds, and what it then returns and does.
use infraco_os.Common.{ℕ, ◌≡◌, arith, some, Option-cases, Bool-cases, inl, inr}
use infraco_os.Common.Result.{ok}
use infraco_os.Database.Enums.{approved}
use infraco_os.Approvals.{
  ApprovalRequest, Approvals, execute, executed_row, find_request, mark_executed, is_approved,
}

-- It succeeds only for a request that is approved.
pub execute-eq-ok :
    (id : ℕ) (a : Approvals) {r : ApprovalRequest} {a' : Approvals}
    → execute id a ≡ (ok r, a')
    → (current : ApprovalRequest) × (find_request id a ≡ some current)
      × (current.status ≡ approved)
      × (r ≡ executed_row current)
      × (a' ≡ mark_executed id a)
unfolding execute
execute-eq-ok id a h = elim (Option-cases (find_request id a)) [
  | inl p ↦ absurd (ground arith)
  | inr (r, p) ↦ elim (Bool-cases (is_approved r.status)) [
    | inr q ↦ absurd (ground arith)
    | inl q ↦ (r, p, ground arith, ground arith, ground arith)
  ]
]

-- It succeeds for every request that is approved.
pub execute_approved :
    (id : ℕ) (a : Approvals) (r : ApprovalRequest)
    → find_request id a ≡ some r
    → r.status ≡ approved
    → execute id a ≡ (ok (executed_row r), mark_executed id a)
unfolding execute
execute_approved id a r p q = ground arith
