-- ===== src/Ledger/Tests.antt =====
-- Payments, a suspense item, an adjustment and a recalculation on the sample tables, and each theorem
-- at one of them.
use infraco_os.Common.{◌≡◌, refl, arith, true, some, List, [], ◌∷◌}
use infraco_os.Common.Int.{pos, ◌+ℤ◌, ◌-ℤ◌}
use infraco_os.Common.Result.{ok, err}
use infraco_os.Database.Enums.{
  agro_purchase, instalment, usd, known, wallet, credit, partially_paid, forbidden,
}
use infraco_os.Database.Transaction.{TxState, begin, with_actor}
use infraco_os.Accounting.{
  post_journal_tx, check_entry, check_lines, open_period, distinct, check_codes, line_rows,
}
use infraco_os.Approvals.{execute, mark_executed, resolve_rule, triggers, requires_approval}
use infraco_os.Ledger.Tables.{Fin, PostPaymentParams, duplicated, posted, AccountPosition}
use infraco_os.Ledger.{
  post_payment_tx, after_insert, insert_entry, settle_invoice, update_paid, payment_row,
  resolve_suspense_tx,
}
use infraco_os.Ledger.Position.{
  mark_overdue, position_of, sum_where, min_due, days_in_arrears, recompute_tx, recompute_account,
}
use infraco_os.Ledger.CoaMap.{asset_class_for_account_type, revenue_coa_for_invoice}
use infraco_os.Ledger.Report.{
  get_account_ledger, ledger_paid, invoice_paid, discrepancies_of, reconciliation_report,
}
use infraco_os.Ledger.Adjustment.{
  write_off, AdjustmentParams, post_authorised, authorise, consume_approval, post_adjustment_tx,
  post_manual_adjustment, Call, pays, parks, resolves, adjusts, recomputes, run,
}
use infraco_os.Ledger.Settled.{IsSettled, post_payment_settles}
use infraco_os.Ledger.Duplicate.{post_payment_duplicate}
use infraco_os.Ledger.History.{IsSound, run-IsSound}
use infraco_os.Ledger.Reconciliation.{post_payment_reconciles, resolve_suspense_discrepancy}
use infraco_os.Ledger.Recompute.{IsRecomputed, recompute_account_reports}
use infraco_os.Ledger.Authority.{
  IsAuthorised, post_manual_adjustment-IsAuthorised, post_manual_adjustment_mismatch,
}
use infraco_os.Ledger.Samples.{today, open_invoice, parked, sample}

abbrev payment : PostPaymentParams
payment = record {
  account_id = 9;
  invoice_id = 3;
  amount = pos 4000;
  currency = usd;
  payment_method = wallet;
  platform_txn_id = some 40;
}

abbrev after_payment : TxState Fin
after_payment = (post_payment_tx today payment (begin sample)).1

payment_lem :
    post_payment_tx today payment (begin sample) ≡ (ok (posted 1 partially_paid), after_payment)
unfolding post_payment_tx after_insert insert_entry settle_invoice update_paid post_journal_tx
    check_entry check_lines open_period distinct check_codes line_rows ◌+ℤ◌ ◌-ℤ◌
payment_lem = refl

post_payment_settles_example :
    (after_payment ≡ begin after_payment.db)
    × IsSettled payment sample 1 partially_paid after_payment.db
post_payment_settles_example =
    post_payment_settles today payment sample 1 partially_paid after_payment payment_lem

-- The sample with the transactions of the payment and of the parked item in the ledger.
abbrev paid_before : Fin
paid_before = record sample {
  ledger =
      payment_row payment 1 ∷ payment_row (record payment { platform_txn_id = some 41 }) 0 ∷ [];
}

post_payment_duplicate_example :
    with_actor (post_payment_tx today payment) paid_before ≡ (ok duplicated, paid_before)
post_payment_duplicate_example =
    post_payment_duplicate today paid_before payment open_invoice refl refl refl

abbrev write_off_60 : AdjustmentParams
write_off_60 = record {
  account_id = 9;
  invoice_id = some 3;
  txn_type = some credit;
  amount = pos 6000;
  kind = write_off;
  currency = known usd;
  approval_id = some 1;
}

abbrev write_off_70 : AdjustmentParams
write_off_70 = record write_off_60 { amount = pos 7000 }

abbrev calls : List Call
calls =
    pays today payment
    ∷ pays today payment
    ∷ parks 42 (pos 10) usd
    ∷ resolves today 1 9 3
    ∷ adjusts today write_off_60
    ∷ recomputes 9 500
    ∷ []

run-IsSound_example : IsSound (run calls sample)
run-IsSound_example = run-IsSound calls sample (record { entries = tt; balanced = tt })

no_discrepancy : (reconciliation_report sample).discrepancies ≡ []
unfolding reconciliation_report discrepancies_of ledger_paid invoice_paid sum_where ◌+ℤ◌
no_discrepancy = refl

post_payment_reconciles_example : (reconciliation_report after_payment.db).discrepancies ≡ []
post_payment_reconciles_example =
    post_payment_reconciles today payment sample 1 4 partially_paid open_invoice after_payment
      (omega arith, tt) refl refl refl payment_lem no_discrepancy

abbrev after_resolving : TxState Fin
after_resolving = (resolve_suspense_tx today 1 9 3 (begin sample)).1

resolving_lem :
    resolve_suspense_tx today 1 9 3 (begin sample) ≡ (ok (posted 1 partially_paid), after_resolving)
unfolding resolve_suspense_tx post_payment_tx after_insert insert_entry settle_invoice update_paid
    post_journal_tx check_entry check_lines open_period distinct check_codes line_rows ◌+ℤ◌ ◌-ℤ◌
resolving_lem = refl

resolve_suspense_discrepancy_example :
    (invoice_paid 9 after_resolving.db.invoices ≡ pos 2500 +ℤ invoice_paid 9 sample.invoices)
    × (ledger_paid 9 after_resolving.db.ledger ≡ ledger_paid 9 sample.ledger)
resolve_suspense_discrepancy_example =
    resolve_suspense_discrepancy today 1 9 3 4 1 partially_paid sample parked open_invoice
      after_resolving (omega arith, tt) refl refl resolving_lem

abbrev recomputed : Fin
recomputed = (recompute_account 9 500 sample).1

abbrev position : AccountPosition
position = position_of 9 500 sample.invoices

recompute_lem : recompute_account 9 500 sample ≡ (ok position, recomputed)
unfolding recompute_account recompute_tx mark_overdue position_of sum_where min_due days_in_arrears
    ◌+ℤ◌ ◌-ℤ◌
recompute_lem = refl

recompute_account_reports_example : IsRecomputed 9 500 sample position recomputed
recompute_account_reports_example =
    recompute_account_reports 9 500 sample position recomputed recompute_lem

abbrev written_off : Fin
written_off = (post_manual_adjustment today write_off_60 sample).1

written_off_lem : post_manual_adjustment today write_off_60 sample ≡ (ok 1, written_off)
unfolding post_manual_adjustment authorise consume_approval requires_approval resolve_rule triggers
    execute post_authorised post_adjustment_tx insert_entry post_journal_tx check_entry check_lines
    open_period distinct check_codes line_rows recompute_account recompute_tx mark_overdue
    position_of sum_where min_due days_in_arrears ◌+ℤ◌ ◌-ℤ◌
written_off_lem = refl

needed : (requires_approval 1 (pos 6000) usd sample.approvals).required ≡ true
unfolding requires_approval resolve_rule triggers
needed = refl

needed_70 : (requires_approval 1 (pos 7000) usd sample.approvals).required ≡ true
unfolding requires_approval resolve_rule triggers
needed_70 = refl

post_manual_adjustment-IsAuthorised_example : IsAuthorised write_off_60 usd sample written_off
post_manual_adjustment-IsAuthorised_example =
    post_manual_adjustment-IsAuthorised today write_off_60 credit usd sample written_off 1 refl
      needed written_off_lem

post_manual_adjustment_mismatch_example :
    post_manual_adjustment today write_off_70 sample
    ≡ (err forbidden, record sample { approvals = mark_executed 1 sample.approvals })
post_manual_adjustment_mismatch_example =
    post_manual_adjustment_mismatch today write_off_70 credit usd sample 1 _ refl needed_70 refl
      refl refl refl

account_ledger_lem : get_account_ledger 9 after_payment.db ≡ payment_row payment 1 ∷ []
unfolding get_account_ledger post_payment_tx after_insert insert_entry settle_invoice update_paid
    post_journal_tx check_entry check_lines open_period distinct check_codes line_rows ◌+ℤ◌ ◌-ℤ◌
account_ledger_lem = refl

agro_revenue_lem :
    revenue_coa_for_invoice instalment (asset_class_for_account_type agro_purchase) ≡ 4100
unfolding revenue_coa_for_invoice asset_class_for_account_type
agro_revenue_lem = refl
