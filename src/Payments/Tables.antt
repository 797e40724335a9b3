-- ===== src/Payments/Tables.antt =====
-- The payloads and tables of the payments service, and what it asks of the utility service.
-- A text is read as a number, and the empty text is 0.
use infraco_os.Common.{ℕ, Bool, Option, List}
use infraco_os.Common.Int.{ℤ}
use infraco_os.Database.Enums.{CurrencyInput, CurrencyCode, TokenKindInput}
use infraco_os.Database.Transaction.{Tx}
use infraco_os.Ledger.Tables.{Fin}

-- A channel as a payload gives it: left out, a value of pay.pay_channel, one of the three texts that
-- only `mapChannel` knows, or any other text.
pub data ChannelInput : Type 0 where
  no_channel : ChannelInput
  ussd app qr agent_channel remittance_channel merchant_channel : ChannelInput
  wallet_text cash_text bank_transfer_text other_text : ChannelInput

-- `purpose`; any text but the two is handled as an ordinary payment.
pub data Purpose : Type 0 where
  ordinary utility_vend lte_purchase : Purpose

-- The payload of `handleCallback`.
pub record Callback : Type 0 where
  pub platform_txn_id : ℕ
  pub bill_ref : Option ℕ
  pub amount_paid : ℤ
  pub currency : CurrencyInput
  pub channel : ChannelInput
  pub signature_valid : Bool
  pub purpose : Purpose
  pub meter_serial : Option ℕ
  pub meter_id : Option ℕ
  pub token_kind : TokenKindInput
  pub customer_id : Option ℕ
  pub subscriber_id : Option ℕ
  pub product_id : Option ℕ

-- pay.callback_status, without 'error', which no code writes.
pub data CallbackStatus : Type 0 where
  received matched unmatched duplicate : CallbackStatus

-- pay.callback
pub record CallbackRow : Type 0 where
  pub platform_txn_id : ℕ
  pub amount_paid : ℤ
  pub currency : CurrencyCode
  pub status : CallbackStatus
  pub ledger_id : Option ℕ

pub data ApiStatus : Type 0 where
  sent failed skipped_unconfigured rejected_signature : ApiStatus

-- pay.api_log; the hash of the payload is left out.
pub record ApiLogRow : Type 0 where
  pub correlation_id : ℕ
  pub status : ApiStatus

-- What `handleCallback` returns.
pub data Outcome : Type 0 where
  matched_it duplicate_it unmatched_it rejected_it : Outcome

-- The tables of the payments service, with the ledger's and the utility service's.
pub record Pay (U : Type 0) : Type 0 where
  pub fin : Fin
  pub utility : U
  pub callbacks : List CallbackRow
  pub api_log : List ApiLogRow

-- The two operations of the utility service that a callback drives, inside its transaction; the
-- callback does not read what they return.
pub record Utility (U : Type 0) : Type 0 where
  pub vend_from_callback : Callback → Tx U (Unit {0})
  pub purchase_lte_from_callback : Callback → ℕ → ℕ → Tx U (Unit {0})
