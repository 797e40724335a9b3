-- ===== src/Ledger/Authority.antt =====
-- Manual adjustments and the approvals that they consume.
use infraco_os.Common.{
  ℕ, ◌≡◌, refl, sym, subst, ap, arith, Bool, true, false, some, Option-cases, inl, inr, ◌∙◌,
}
use infraco_os.Common.Result.{ok, err, Result-cases}
use infraco_os.Database.Enums.{forbidden, TxnType, CurrencyCode, approved}
use infraco_os.Database.Transaction.{TxState, begin, with_actor, ◌>>◌, pure}
use infraco_os.Database.Transaction.Laws.{>>=-keeps, Action-cases, with_actor_keeps}
use infraco_os.Accounting.{post_journal_tx}
use infraco_os.Approvals.{
  ApprovalRequest, requires_approval, execute, executed_row, mark_executed, find_request,
}
use infraco_os.Approvals.Execution.{execute-eq-ok, execute_approved}
use infraco_os.Ledger.Tables.{Day, Fin, AccountPosition}
use infraco_os.Ledger.{insert_entry}
use infraco_os.Ledger.Position.{recompute_tx, recompute_account}
use infraco_os.Ledger.Payment.{insert_entry-eq-ok}
use infraco_os.Ledger.Adjustment.{
  AdjustmentParams, action_code_of, check_adjustment, matches, consume_approval, authorise,
  adjustment_row, adjustment_entry, post_adjustment_tx, post_authorised, post_manual_adjustment,
}

-- Whether the rules ask for a second signatory.
abbrev pub needs_approval : AdjustmentParams → CurrencyCode → Fin → Bool
needs_approval p currency f =
    (requires_approval (action_code_of p.kind) p.amount currency f.approvals).required

-- The adjustment names a request that was approved and that is for its action, amount and currency;
-- the request has since been executed.
pub record IsAuthorised (p : AdjustmentParams) (currency : CurrencyCode) (f f' : Fin) : Type 0 where
  pub approval_id : ℕ
  pub request : ApprovalRequest
  pub named : p.approval_id ≡ some approval_id
  pub found : find_request approval_id f.approvals ≡ some request
  pub status : request.status ≡ approved
  pub fits : matches p currency request ≡ true
  pub consumed : f'.approvals ≡ mark_executed approval_id f.approvals

module _ (p : AdjustmentParams) (c : CurrencyCode) where
  consume_approval-eq-ok :
      (id : ℕ) (f f' : Fin)
      → p.approval_id ≡ some id
      → consume_approval p c id f ≡ (ok tt, f')
      → IsAuthorised p c f f'
  unfolding consume_approval
  consume_approval-eq-ok id f f' named h = elim (Action-cases (execute id) f.approvals) [
    | inr (_, _, q) ↦ absurd (ground arith)
    | inl (r, a, q) ↦
        let (request, found, status, same, after) = execute-eq-ok id f.approvals q in
        let m : matches p c (executed_row request) ≡ true =
          subst (λ u. matches p c u ≡ true) same (ground arith) in
        record {
          approval_id = id;
          request = request;
          named = named;
          found = found;
          status = status;
          fits = m;
          consumed = ground arith;
        }
  ]

  authorise-eq-ok :
      (f f' : Fin)
      → authorise p c f ≡ (ok tt, f')
      → needs_approval p c f ≡ true
      → IsAuthorised p c f f'
  unfolding authorise
  authorise-eq-ok f f' h needs = elim (Option-cases p.approval_id) [
    | inl q ↦ absurd (ground arith)
    | inr (id, q) ↦ consume_approval-eq-ok id f f' q (ground arith)
  ]

-- The posting and the recalculation leave the approvals alone.
recompute_tx-approvals :
    (account as_of : ℕ) (f : Fin) (p : AccountPosition) (t : TxState Fin)
    → recompute_tx account as_of (begin f) ≡ (ok p, t)
    → t.db.approvals ≡ f.approvals
unfolding recompute_tx
recompute_tx-approvals account as_of f p t h = ground arith

module _ (today : Day) (p : AdjustmentParams) (u : TxnType) (c : CurrencyCode) where
  post_adjustment_tx-approvals :
      (f : Fin) (id : ℕ) (t : TxState Fin)
      → post_adjustment_tx today p u c (begin f) ≡ (ok id, t)
      → t.db.approvals ≡ f.approvals
  unfolding post_adjustment_tx
  post_adjustment_tx-approvals f id t h =
      elim (Result-cases (insert_entry (adjustment_row p u c) f)) [
        | inr (_, q) ↦ absurd (ground arith)
        | inl ((n, f1), q) ↦
            let i = insert_entry-eq-ok (adjustment_row p u c) f q in
            let same : f1.approvals ≡ f.approvals = ap (λ v. v.approvals) i.state in
            elim (Action-cases (post_journal_tx today.date (adjustment_entry u p.amount))
              (begin f1.books)) [
                | inr (_, _, r) ↦ absurd (ground arith)
                | inl (_, _, r) ↦ ground arith
              ]
      ]

  post_authorised-approvals : (f : Fin) → (post_authorised today p u c f).1.approvals ≡ f.approvals
  unfolding post_authorised recompute_account
  post_authorised-approvals f =
      >>=-keeps Same (with_actor (post_adjustment_tx today p u c))
        (λ id. recompute_account p.account_id today.number >> pure id) f
        (with_actor_keeps Same (post_adjustment_tx today p u c) f refl
          (λ id t h. post_adjustment_tx-approvals f id t h))
        (λ id t w.
          >>=-keeps Same (recompute_account p.account_id today.number) (λ _. pure id) t
            (with_actor_keeps Same (recompute_tx p.account_id today.number) t w
              (λ q v h. recompute_tx-approvals p.account_id today.number t q v h ∙ w))
            (λ _ _ x. x))
    where
      Same : Fin → Type 0
      Same v = v.approvals ≡ f.approvals

  -- A manual adjustment that posts, where the rules ask for a second signatory for its action,
  -- amount and currency, named an approved request for that action, amount and currency, and that
  -- request is executed afterwards.
  pub post_manual_adjustment-IsAuthorised :
      (f f' : Fin) (id : ℕ)
      → check_adjustment p ≡ ok (u, c)
      → needs_approval p c f ≡ true
      → post_manual_adjustment today p f ≡ (ok id, f')
      → IsAuthorised p c f f'
  unfolding post_manual_adjustment
  post_manual_adjustment-IsAuthorised f f' id checked needs h =
      elim (Action-cases (authorise p c) f) [
        | inr (_, _, q) ↦ absurd (ground arith)
        | inl (a, f1, q) ↦
            let same : (post_authorised today p u c f1).1 ≡ f' = ground arith in
            let kept = post_authorised-approvals f1 in
            let auth = authorise-eq-ok p c f f1 q needs in
            record {
              approval_id = auth.approval_id;
              request = auth.request;
              named = auth.named;
              found = auth.found;
              status = auth.status;
              fits = auth.fits;
              consumed = sym (ap (λ v. v.approvals) same) ∙ kept ∙ auth.consumed;
            }
      ]

  authorise-mismatch :
      (f : Fin) (approval_id : ℕ) (r : ApprovalRequest)
      → needs_approval p c f ≡ true
      → p.approval_id ≡ some approval_id
      → find_request approval_id f.approvals ≡ some r
      → r.status ≡ approved
      → matches p c (executed_row r) ≡ false
      → authorise p c f
        ≡ (err forbidden, record f { approvals = mark_executed approval_id f.approvals })
  unfolding authorise consume_approval
  authorise-mismatch f approval_id r needs named found status differs =
      let e = execute_approved approval_id f.approvals r found status in ground arith

  -- Where an approval is needed and the approved request that the adjustment names is for another
  -- action, amount or currency, the adjustment throws `forbidden` and posts nothing, but the request
  -- is executed, so that it can no longer authorise anything.
  pub post_manual_adjustment_mismatch :
      (f : Fin) (approval_id : ℕ) (r : ApprovalRequest)
      → check_adjustment p ≡ ok (u, c)
      → needs_approval p c f ≡ true
      → p.approval_id ≡ some approval_id
      → find_request approval_id f.approvals ≡ some r
      → r.status ≡ approved
      → matches p c r ≡ false
      → post_manual_adjustment today p f
        ≡ (err forbidden, record f { approvals = mark_executed approval_id f.approvals })
  unfolding post_manual_adjustment
  post_manual_adjustment_mismatch f approval_id r checked needs named found status differs =
      let e = authorise-mismatch f approval_id r needs named found status differs in ground arith
