-- ===== src/Approvals/Tests.antt =====
-- One rule and two users, and each theorem at calls on them.
use infraco_os.Common.{◌≡◌, refl, true, some, List, [], ◌∷◌}
use infraco_os.Common.Int.{pos}
use infraco_os.Common.Result.{ok, err}
use infraco_os.Database.Enums.{conflict, forbidden, bad_request, usd, known, approved}
use infraco_os.Approvals.{
  DoaRule, ApprovalRequest, Approvals, InitiateParams, initiate, decide, execute, approve_it, Call,
  initiates, decides, executes, step, run, resolve_rule, triggers, executed_row,
}
use infraco_os.Approvals.Signatories.{IsValid, run_signatories}
use infraco_os.Approvals.Once.{execute_once}

-- Write-offs above 100.00 need two signatories.
abbrev write_off_rule : DoaRule
write_off_rule = record {
  rule_id = 1;
  action_code = 1;
  currency = usd;
  max_amount = some (pos 10000);
  dual_auth = true;
}

abbrev no_requests : Approvals
no_requests = record { rules = write_off_rule ∷ []; requests = []; next_id = 1 }

abbrev large : InitiateParams
large = record { action_code = some 1; amount = pos 10001; currency = known usd }

abbrev small : InitiateParams
small = record { action_code = some 1; amount = pos 10000; currency = known usd }

abbrev initiated : Approvals
initiated = (initiate large 7 no_requests).1

abbrev one_approved : Approvals
one_approved = (decide 1 8 approve_it initiated).1

abbrev after_execution : Approvals
after_execution = (execute 1 one_approved).1

abbrev large_request : ApprovalRequest
large_request = record {
  approval_id = 1;
  action_code = 1;
  amount = pos 10001;
  currency = usd;
  threshold = some (pos 10000);
  status = approved;
  initiated_by = 7;
  decided_by = some 8;
}

small_lem : initiate small 7 no_requests ≡ (err bad_request, no_requests)
unfolding initiate resolve_rule triggers
small_lem = refl

own_request_lem : decide 1 7 approve_it initiated ≡ (err forbidden, initiated)
unfolding decide initiate resolve_rule triggers
own_request_lem = refl

executed_lem : execute 1 one_approved ≡ (ok (executed_row large_request), after_execution)
unfolding execute decide initiate resolve_rule triggers
executed_lem = refl

one_approved-IsValid : IsValid one_approved
unfolding run step initiate decide
one_approved-IsValid =
    run_signatories (initiates large 7 ∷ decides 1 8 approve_it ∷ []) no_requests
      (record { signed = tt; keyed = tt })

abbrev calls : List Call
calls = initiates large 7 ∷ decides 1 7 approve_it ∷ decides 1 8 approve_it ∷ executes 1 ∷ []

run_signatories_example : IsValid (run calls no_requests)
run_signatories_example = run_signatories calls no_requests (record { signed = tt; keyed = tt })

execute_once_example :
    execute 1 (run calls after_execution) ≡ (err conflict, run calls after_execution)
execute_once_example =
    execute_once 1 one_approved after_execution (executed_row large_request) calls
      one_approved-IsValid executed_lem
