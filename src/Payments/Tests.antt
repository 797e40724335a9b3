-- ===== src/Payments/Tests.antt =====
-- Callbacks on the sample tables, with a utility service that accepts everything, and each theorem at
-- one of them.
use infraco_os.Common.{ℕ, ◌≡◌, refl, arith, true, false, Option, none, some, List, [], ◌∷◌}
use infraco_os.Common.Int.{pos, ◌+ℤ◌}
use infraco_os.Common.Result.{ok}
use infraco_os.Database.Enums.{omitted_kind, usd, known}
use infraco_os.Ledger.{park_suspense_tx, park_suspense}
use infraco_os.Ledger.Tables.{Day}
use infraco_os.Ledger.Report.{ledger_paid, invoice_paid, discrepancies_of, reconciliation_report}
use infraco_os.Ledger.Position.{sum_where}
use infraco_os.Ledger.Clean.{IsClean}
use infraco_os.Ledger.Samples.{today, sample}
use infraco_os.Payments.Tables.{
  ussd, ordinary, utility_vend, Callback, unmatched_it, duplicate_it, Pay, Utility,
}
use infraco_os.Payments.{
  insert_callback, after_record, callback_tx, route, bill_path, settle_bill, after_commit,
  handle_callback, run,
}
use infraco_os.Payments.Once.{handle_callback_once}
use infraco_os.Payments.Reconciles.{Clean, run-Clean}

abbrev accepting : Utility (Unit {0})
accepting = record {
  vend_from_callback = λ c s. (ok tt, s);
  purchase_lte_from_callback = λ c s p t. (ok tt, t);
}

abbrev callback : ℕ → Option ℕ → Callback
callback txn bill_ref = record {
  platform_txn_id = txn;
  bill_ref = bill_ref;
  amount_paid = pos 4000;
  currency = known usd;
  channel = ussd;
  signature_valid = true;
  purpose = ordinary;
  meter_serial = none;
  meter_id = none;
  token_kind = omitted_kind;
  customer_id = none;
  subscriber_id = none;
  product_id = none;
}

abbrev before : Pay (Unit {0})
before = record { fin = sample; utility = tt; callbacks = []; api_log = [] }

abbrev after_unmatched : Pay (Unit {0})
after_unmatched = (handle_callback accepting today (callback 50 (some 1)) before).1

unmatched_lem :
    handle_callback accepting today (callback 50 (some 1)) before
    ≡ (ok unmatched_it, after_unmatched)
unfolding handle_callback callback_tx insert_callback after_record route bill_path settle_bill
    after_commit park_suspense_tx park_suspense
unmatched_lem = refl

abbrev callbacks : List (Day × Callback)
callbacks =
    (today, callback 40 (some 77))
    ∷ (today, callback 40 (some 77))
    ∷ (today, callback 50 (some 77))
    ∷ (today, record (callback 51 none) { purpose = utility_vend })
    ∷ (today, record (callback 52 (some 77)) { signature_valid = false })
    ∷ []

handle_callback_once_example :
    handle_callback accepting today
      (callback 50 (some 77))
      (run accepting callbacks after_unmatched)
    ≡ (ok duplicate_it, run accepting callbacks after_unmatched)
handle_callback_once_example =
    handle_callback_once accepting today today (callback 50 (some 1)) (callback 50 (some 77)) before
      after_unmatched unmatched_it callbacks refl unmatched_lem refl refl refl

before-IsClean : IsClean sample
unfolding reconciliation_report discrepancies_of ledger_paid invoice_paid sum_where ◌+ℤ◌
before-IsClean = record { bound = 4; keyed = (omega arith, tt); clean = refl }

run-Clean_example : Clean (run accepting callbacks before)
run-Clean_example = run-Clean accepting callbacks before before-IsClean
