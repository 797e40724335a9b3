-- ===== src/Utility/Tests.antt =====
-- A meter, a subscriber and a platform, and each theorem at a sale to them.
use infraco_os.Common.{
  ℕ, ◌+◌, ◌*◌, ◌≡◌, refl, true, false, Option, none, some, [], ◌∷◌, ltb, if◌then◌else◌,
}
use infraco_os.Common.Int.{pos}
use infraco_os.Common.Result.{ok}
use infraco_os.Database.Enums.{usd, known, omitted, omitted_kind, power, mock}
use infraco_os.Instalment.{round_div}
use infraco_os.Ledger.Samples.{today, sample}
use infraco_os.Payments.Tables.{no_channel, ussd, utility_vend, Callback, matched_it, Pay}
use infraco_os.Payments.{
  insert_callback, vend_path, route, after_record, callback_tx, after_commit, handle_callback,
}
use infraco_os.Utility.Tables.{
  TokenVend, Util, VendDto, VendOutcome, LtePurchaseDto, LtePurchaseOutcome, failed, provisioned,
  Backends, Reference, by_txn, by_amount,
}
use infraco_os.Utility.{
  resolve_meter_tx, compute_units_tx, insert_vend, record_vend, after_vend, find_vend, new_vend,
  vend_core_tx, vend, vend_from_callback_tx,
}
use infraco_os.Utility.Lte.{
  insert_purchase, attempt_provision_tx, provision_again, after_purchase, new_purchase,
  purchase_lte_core_tx, purchase_lte, retry_provision,
}
use infraco_os.Utility.Vended.{vend_once}
use infraco_os.Utility.Purchased.{purchase_lte_once}
use infraco_os.Utility.Callbacks.{utility_of, handle_callback-vends}

abbrev digest : Reference → ℕ
digest (by_txn txn) = txn
digest (by_amount serial amount) = serial

-- The first attempt to provision fails, and the second succeeds.
abbrev second_try : ℕ → Option (Option ℕ)
second_try tries = if ltb tries 2 then none else some (some 900)

abbrev backends : Backends
backends = record {
  token_of = λ serial reference. serial * 1000 + digest reference;
  provision = λ id tries. second_try tries;
}

-- 0.25 a unit, with a fixed charge of 1.00.
abbrev util : Util
util = record {
  customers = 5 ∷ [];
  subscribers = 6 ∷ [];
  products = 7 ∷ [];
  meters =
      record {
        meter_id = 1;
        serial_no = 11;
        utility_type = power;
        adapter = mock;
        is_prepaid = true;
        tariff_id = some 2;
        customer_id = some 5;
        last_balance = none;
      }
      ∷ [];
  tariffs = record { tariff_id = 2; rate = some 2500; fixed_charge = 10000 } ∷ [];
  vends = [];
  purchases = [];
  next_vend_id = 1;
  next_purchase_id = 1;
}

abbrev ten_dollars : VendDto
ten_dollars = record {
  meter_id = none;
  meter_serial = some 11;
  amount_paid = pos 1000;
  currency = omitted;
  token_kind = omitted_kind;
  channel = ussd;
  customer_id = none;
  platform_txn_id = some 60;
}

-- 9.00 at 0.25 buy 36 units.
abbrev vended : VendOutcome
vended = record {
  vend_id = 1;
  meter_id = 1;
  token_code = 11060;
  units = some 36000;
  amount_paid = pos 1000;
  duplicate = false;
}

abbrev after_vending : Util
after_vending = (vend backends ten_dollars util).1

vended_lem : vend backends ten_dollars util ≡ (ok vended, after_vending)
unfolding vend vend_core_tx new_vend resolve_meter_tx compute_units_tx record_vend insert_vend
    after_vend round_div
vended_lem = refl

vend_once_example :
    vend backends (record ten_dollars { amount_paid = pos 1 }) after_vending
    ≡ (ok (record vended { duplicate = true }), after_vending)
vend_once_example =
    vend_once backends ten_dollars (record ten_dollars { amount_paid = pos 1 }) util after_vending
      60 vended refl vended_lem refl refl refl refl

abbrev bundle : LtePurchaseDto
bundle = record {
  subscriber_id = 6;
  product_id = 7;
  amount_paid = pos 500;
  currency = known usd;
  channel = no_channel;
  customer_id = none;
  platform_txn_id = some 61;
}

abbrev not_yet : LtePurchaseOutcome
not_yet = record { purchase_id = 1; status = failed; provision_ref = none; duplicate = false }

abbrev after_purchasing : Util
after_purchasing = (purchase_lte backends bundle util).1

bundle_lem : purchase_lte backends bundle util ≡ (ok not_yet, after_purchasing)
unfolding purchase_lte purchase_lte_core_tx new_purchase insert_purchase after_purchase
    attempt_provision_tx
bundle_lem = refl

retry_lem :
    (retry_provision backends 1 after_purchasing).0
    ≡ ok (record not_yet { status = provisioned; provision_ref = some 900 })
unfolding retry_provision provision_again purchase_lte purchase_lte_core_tx new_purchase
    insert_purchase after_purchase attempt_provision_tx
retry_lem = refl

purchase_lte_once_example :
    purchase_lte backends bundle after_purchasing
    ≡ (ok (record not_yet { duplicate = true }), after_purchasing)
purchase_lte_once_example =
    purchase_lte_once backends bundle bundle util after_purchasing 61 not_yet refl bundle_lem refl
      refl

abbrev callback : Callback
callback = record {
  platform_txn_id = 62;
  bill_ref = none;
  amount_paid = pos 1000;
  currency = known usd;
  channel = ussd;
  signature_valid = true;
  purpose = utility_vend;
  meter_serial = some 11;
  meter_id = none;
  token_kind = omitted_kind;
  customer_id = none;
  subscriber_id = none;
  product_id = none;
}

abbrev pay : Pay Util
pay = record { fin = sample; utility = util; callbacks = []; api_log = [] }

abbrev after_callback : Pay Util
after_callback = (handle_callback (utility_of backends) today callback pay).1

callback_lem :
    handle_callback (utility_of backends) today callback pay ≡ (ok matched_it, after_callback)
unfolding handle_callback callback_tx insert_callback after_record route vend_path after_commit
    vend_from_callback_tx vend_core_tx new_vend resolve_meter_tx compute_units_tx record_vend
    insert_vend after_vend
callback_lem = refl

handle_callback-vends_example : (v : TokenVend) × (find_vend 62 after_callback.utility ≡ some v)
handle_callback-vends_example =
    handle_callback-vends backends today callback pay after_callback refl refl callback_lem
