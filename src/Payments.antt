-- ===== src/Payments.antt =====
-- The payment callbacks: src/modules/payments/payments.service.ts.
pub mod Tables
pub mod Recorded
pub mod Once
pub mod Reconciles
mod Tests
use infraco_os.Common.{
  ℕ, Bool, true, false, not, ◌&&◌, Option, none, some, List, [], ◌∷◌, ◌==◌, if◌then◌else◌, find?,
  exists, update_where, or_else,
}
use infraco_os.Common.Int.{ℤ}
use infraco_os.Common.Result.{Result, ok, err}
use infraco_os.Database.Enums.{
  Error, unique_violation, invalid_text, CurrencyInput, omitted, known, CurrencyCode, usd,
  PaymentMethod, wallet, cash, bank_transfer, remittance, agent, merchant,
}
use infraco_os.Database.Enums
use infraco_os.Database.Transaction.{
  Action, Tx, ◌>>=◌, ◌>>◌, pure, throw, statement, query, modify, attempt, with_actor, zoom,
}
use infraco_os.Ledger.Tables.{
  Day, Invoice, Fin, PostPaymentParams, PostPaymentResult, duplicated, posted,
}
use infraco_os.Ledger.{post_payment_tx, park_suspense_tx, is_unique}
use infraco_os.Ledger.Position.{recompute_account}
use Tables.{
  ChannelInput, no_channel, ussd, app, qr, agent_channel, remittance_channel, merchant_channel,
  wallet_text, cash_text, bank_transfer_text, other_text, Purpose, ordinary, utility_vend,
  lte_purchase, Callback, CallbackStatus, received, matched, unmatched, duplicate, CallbackRow,
  ApiLogRow, rejected_signature, Outcome, matched_it, duplicate_it, unmatched_it, rejected_it, Pay,
  Utility,
}

-- `mapChannel`
pub map_channel : ChannelInput → PaymentMethod
map_channel agent_channel = agent
map_channel remittance_channel = remittance
map_channel merchant_channel = merchant
map_channel cash_text = cash
map_channel bank_transfer_text = bank_transfer
map_channel _ = wallet

-- $6::pay.pay_channel: null, or a value of the enumeration.
abbrev pub is_pay_channel : ChannelInput → Bool
is_pay_channel wallet_text = false
is_pay_channel cash_text = false
is_pay_channel bank_transfer_text = false
is_pay_channel other_text = false
is_pay_channel _ = true

-- `(payload.currency ?? 'USD')`, then $5::fin.currency_code.
abbrev pub cast_currency : CurrencyInput → Result Error CurrencyCode
cast_currency omitted = ok usd
cast_currency (known c) = ok c
cast_currency Enums.other = err invalid_text

abbrev pub has_callback : ℕ → List CallbackRow → Bool
has_callback txn cs = exists (λ r. r.platform_txn_id == txn) cs

-- The payment of a callback to the invoice that its bill names.
abbrev pub callback_payment : Callback → CurrencyCode → Invoice → PostPaymentParams
callback_payment c currency i = record {
  account_id = i.account_id;
  invoice_id = i.invoice_id;
  amount = c.amount_paid;
  currency = currency;
  payment_method = map_channel c.channel;
  platform_txn_id = some c.platform_txn_id;
}

module _ {U : Type 0} where
  abbrev pub add_callback : Callback → CurrencyCode → Pay U → Pay U
  add_callback c currency s = record s {
    callbacks =
        record {
          platform_txn_id = c.platform_txn_id;
          amount_paid = c.amount_paid;
          currency = currency;
          status = received;
          ledger_id = none;
        }
        ∷ s.callbacks;
  }

  -- INSERT INTO pay.callback, under the unique index on platform_txn_id; it yields the currency.
  unfoldable pub insert_callback : Callback → Pay U → Result Error (CurrencyCode × Pay U)
  insert_callback c s = elim (cast_currency c.currency) [
    | err e ↦ err e
    | ok currency ↦
        if not (is_pay_channel c.channel)
        then err invalid_text
        else if has_callback c.platform_txn_id s.callbacks
        then err unique_violation
        else ok (currency, add_callback c currency s)
  ]

  -- UPDATE pay.callback SET status, ledger_id WHERE platform_txn_id = $1
  abbrev pub set_callback : ℕ → CallbackStatus → Option ℕ → Pay U → Pay U
  set_callback txn status ledger_id s = record s {
    callbacks =
        update_where (λ r. r.platform_txn_id == txn)
          (λ r. record r { status = status; ledger_id = ledger_id }) s.callbacks;
  }

  abbrev pub on_fin : {A : Type 0} → Tx Fin A → Tx (Pay U) A
  on_fin = zoom (λ s. s.fin) (λ f s. record s { fin = f })

  abbrev pub on_utility : {A : Type 0} → Tx U A → Tx (Pay U) A
  on_utility = zoom (λ s. s.utility) (λ u s. record s { utility = u })

  abbrev pub mark : ℕ → CallbackStatus → Option ℕ → Tx (Pay U) (Unit {0})
  mark txn status ledger_id = modify (set_callback txn status ledger_id)

  -- What follows the posting: the status of the callback, and the account to recompute.
  pub after_post : Callback → Invoice → PostPaymentResult → Tx (Pay U) (Outcome × Option ℕ)
  after_post c i duplicated = do mark c.platform_txn_id duplicate none; pure (duplicate_it, none)
  after_post c i (posted ledger_id _) = do
    mark c.platform_txn_id matched (some ledger_id)
    pure (matched_it, some i.account_id)

  -- An ordinary payment: to the invoice with the reference, or to suspense.
  pub settle_bill : Day → Callback → CurrencyCode → Option Invoice → Tx (Pay U) (Outcome × Option ℕ)
  unfolding after_post
  settle_bill today c currency none = do
    on_fin (park_suspense_tx c.platform_txn_id c.amount_paid currency)
    mark c.platform_txn_id unmatched none
    pure (unmatched_it, none)
  settle_bill today c currency (some i) = do
    post ← on_fin (post_payment_tx today (callback_payment c currency i))
    after_post c i post

  abbrev pub find_reference : ℕ → Pay U → Option Invoice
  find_reference reference s = find? (λ i. i.reference == reference) s.fin.invoices

  -- `logRejectedCallback`, which swallows every error.
  pub log_rejected_callback : Callback → Action (Pay U) (Unit {0})
  log_rejected_callback c s =
      let (_, s') =
        with_actor
          (modify (λ s. record s {
            api_log =
                record { correlation_id = c.platform_txn_id; status = rejected_signature }
                ∷ s.api_log;
          }))
          s in
      (ok tt, s')

module _ {U : Type 0} (utility : Utility U) where
  unfoldable pub vend_path : Callback → Tx (Pay U) (Outcome × Option ℕ)
  vend_path c = do
    on_utility (utility.vend_from_callback c)
    mark c.platform_txn_id matched none
    pure (matched_it, none)

  -- Without a subscriber or a product the purchase stays unmatched.
  lte_path : Callback → Option ℕ → Option ℕ → Tx (Pay U) (Outcome × Option ℕ)
  lte_path c (some subscriber) (some product) = do
    on_utility (utility.purchase_lte_from_callback c subscriber product)
    mark c.platform_txn_id matched none
    pure (matched_it, none)
  lte_path c _ _ = do mark c.platform_txn_id unmatched none; pure (unmatched_it, none)

  bill_path : Day → Callback → CurrencyCode → Tx (Pay U) (Outcome × Option ℕ)
  bill_path today c currency = do
    inv ← query (find_reference (or_else c.bill_ref 0))
    settle_bill today c currency inv

  -- The routing by purpose.
  unfoldable pub route : Day → Callback → CurrencyCode → Purpose → Tx (Pay U) (Outcome × Option ℕ)
  unfolding vend_path lte_path bill_path
  route today c currency utility_vend = vend_path c
  route today c currency lte_purchase = lte_path c c.subscriber_id c.product_id
  route today c currency ordinary = bill_path today c currency

  -- The two ends of the `try` round the insertion of the callback.
  unfoldable pub after_record :
      Day → Callback → Result Error CurrencyCode → Tx (Pay U) (Outcome × Option ℕ)
  unfolding route
  after_record today c (err e) = if is_unique e then pure (duplicate_it, none) else throw e
  after_record today c (ok currency) = route today c currency c.purpose

  -- The transaction of `handleCallback`.
  unfoldable pub callback_tx : Day → Callback → Tx (Pay U) (Outcome × Option ℕ)
  unfolding after_record
  callback_tx today c = do
    recorded ← attempt (statement (insert_callback c))
    after_record today c recorded

  -- The recalculation of the account, in a transaction of its own.
  unfoldable pub after_commit : Day → Outcome × Option ℕ → Action (Pay U) Outcome
  after_commit today (outcome, none) s = (ok outcome, s)
  after_commit today (outcome, some account) s =
      let (r, f) = recompute_account account today.number s.fin in
      elim r [ ok _ ↦ (ok outcome, record s { fin = f }) | err e ↦ (err e, record s { fin = f }) ]

  -- `handleCallback`
  unfoldable pub handle_callback : Day → Callback → Action (Pay U) Outcome
  unfolding callback_tx after_commit log_rejected_callback
  handle_callback today c =
      if c.signature_valid
      then with_actor (callback_tx today c) >>= after_commit today
      else log_rejected_callback c >> pure rejected_it

  -- Callbacks in turn, each with its day.
  unfoldable pub run : List (Day × Callback) → Pay U → Pay U
  run [] s = s
  run ((today, c) ∷ cs) s = run cs (handle_callback today c s).1
