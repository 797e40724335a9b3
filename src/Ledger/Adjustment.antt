-- ===== src/Ledger/Adjustment.antt =====
-- Manual work of finance: `resolveSuspense` and `postManualAdjustment` of
-- src/modules/financial/ledger.service.ts.
use infraco_os.Common.{ℕ, Bool, not, ◌&&◌, Option, none, some, List, [], ◌∷◌, ◌==◌, if◌then◌else◌}
use infraco_os.Common.Int.{ℤ, pos, ltb_ℤ, eqb_ℤ}
use infraco_os.Common.Result.{Result, ok, err}
use infraco_os.Database.Enums.{
  Error, bad_request, forbidden, CurrencyCode, CurrencyInput, resolve_currency, TxnType, debit,
  credit, adjustment,
}
use infraco_os.Database.Transaction.{
  Action, Tx, ◌>>=◌, ◌>>◌, pure, throw_if, lift, statement, with_actor,
}
use infraco_os.Accounting.Tables.{JournalEntry}
use infraco_os.Accounting.{post_journal_tx}
use infraco_os.Approvals.{Approvals, ApprovalRequest, requires_approval, execute, same_currency}
use infraco_os.Ledger.Tables.{Day, LedgerEntry, Fin, PostPaymentParams, PostPaymentResult}
use infraco_os.Ledger.CoaMap.{
  debit_line, credit_line, opex_code, receivables_code, rev_interest_code,
}
use infraco_os.Ledger.{
  insert_entry, in_books, post_payment_tx, park_suspense_tx, resolve_suspense_tx,
}
use infraco_os.Ledger.Position.{recompute_account}

-- `resolveSuspense`: the posting in one transaction, then the recalculation in another.
unfoldable pub resolve_suspense : Day → ℕ → ℕ → ℕ → Action Fin PostPaymentResult
resolve_suspense today suspense_id account_id invoice_id = do
  result ← with_actor (resolve_suspense_tx today suspense_id account_id invoice_id)
  recompute_account account_id today.number
  pure result

pub data AdjustmentKind : Type 0 where
  credit_note write_off correction : AdjustmentKind

-- The parameters of `postManualAdjustment`; a `txnType` that is neither text is `none`.
pub record AdjustmentParams : Type 0 where
  pub account_id : ℕ
  pub invoice_id : Option ℕ
  pub txn_type : Option TxnType
  pub amount : ℤ
  pub kind : AdjustmentKind
  pub currency : CurrencyInput
  pub approval_id : Option ℕ

-- 'ledger.writeoff' and 'ledger.adjustment', as numbers.
abbrev pub action_code_of : AdjustmentKind → ℕ
action_code_of write_off = 1
action_code_of _ = 2

-- The tests on the arguments.
abbrev pub check_adjustment : AdjustmentParams → Result Error (TxnType × CurrencyCode)
check_adjustment p = elim p.txn_type [
  | none ↦ err bad_request
  | some t ↦
      if not (ltb_ℤ (pos 0) p.amount)
      then err bad_request
      else elim (resolve_currency p.currency) [ err e ↦ err e | ok c ↦ ok (t, c) ]
]

-- A call of the approval workflow, on the tables that hold its own.
abbrev pub on_approvals : {A : Type 0} → Action Approvals A → Action Fin A
on_approvals m f = let (r, a) = m f.approvals in (r, record f { approvals = a })

-- The approval is for this action, amount and currency.
abbrev pub matches : AdjustmentParams → CurrencyCode → ApprovalRequest → Bool
matches p currency r =
    r.action_code == action_code_of p.kind
    && eqb_ℤ r.amount p.amount
    && same_currency r.currency currency

-- The approval that the adjustment names is consumed, then compared.
unfoldable pub consume_approval : AdjustmentParams → CurrencyCode → ℕ → Action Fin (Unit {0})
consume_approval p currency id = do
  r ← on_approvals (execute id)
  throw_if (not (matches p currency r)) forbidden

unfoldable pub authorise : AdjustmentParams → CurrencyCode → Action Fin (Unit {0})
authorise p currency f =
    if (requires_approval (action_code_of p.kind) p.amount currency f.approvals).required
    then elim p.approval_id [
      | none ↦ (err forbidden, f)
      | some id ↦ consume_approval p currency id f
    ]
    else (ok tt, f)

abbrev pub adjustment_row : AdjustmentParams → TxnType → CurrencyCode → ℕ → LedgerEntry
adjustment_row p t currency id = record {
  ledger_id = id;
  account_id = p.account_id;
  invoice_id = p.invoice_id;
  txn_type = t;
  amount = p.amount;
  currency = currency;
  payment_method = adjustment;
  platform_txn_id = none;
}

-- A credit clears a receivable against operating expense; a debit raises one against revenue.
abbrev pub adjustment_entry : TxnType → ℤ → JournalEntry
adjustment_entry credit amount = record {
  journal_date = none;
  lines = debit_line opex_code amount ∷ credit_line receivables_code amount ∷ [];
}
adjustment_entry debit amount = record {
  journal_date = none;
  lines = debit_line receivables_code amount ∷ credit_line rev_interest_code amount ∷ [];
}

unfoldable pub post_adjustment_tx : Day → AdjustmentParams → TxnType → CurrencyCode → Tx Fin ℕ
post_adjustment_tx today p t currency = do
  ledger_id ← statement (insert_entry (adjustment_row p t currency))
  in_books (post_journal_tx today.date (adjustment_entry t p.amount))
  pure ledger_id

-- What follows the check of the approval: the posting, then the recalculation.
unfoldable pub post_authorised : Day → AdjustmentParams → TxnType → CurrencyCode → Action Fin ℕ
post_authorised today p t currency = do
  ledger_id ← with_actor (post_adjustment_tx today p t currency)
  recompute_account p.account_id today.number
  pure ledger_id

-- `postManualAdjustment`
unfoldable pub post_manual_adjustment : Day → AdjustmentParams → Action Fin ℕ
post_manual_adjustment today p = do
  (t, currency) ← lift (check_adjustment p)
  authorise p currency
  post_authorised today p t currency

-- The calls of the ledger that change a table. A payment and the parking of one are committed by
-- the callback handler; the others commit on their own.
pub data Call : Type 0 where
  pays : Day → PostPaymentParams → Call
  parks : ℕ → ℤ → CurrencyCode → Call
  resolves : Day → ℕ → ℕ → ℕ → Call
  adjusts : Day → AdjustmentParams → Call
  recomputes : ℕ → ℕ → Call

unfoldable pub step : Call → Fin → Fin
step (pays today p) f = (with_actor (post_payment_tx today p) f).1
step (parks txn amount currency) f = (with_actor (park_suspense_tx txn amount currency) f).1
step (resolves today suspense_id account_id invoice_id) f =
    (resolve_suspense today suspense_id account_id invoice_id f).1
step (adjusts today p) f = (post_manual_adjustment today p f).1
step (recomputes account as_of) f = (recompute_account account as_of f).1

unfoldable pub run : List Call → Fin → Fin
run [] f = f
run (c ∷ cs) f = run cs (step c f)
