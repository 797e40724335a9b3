-- ===== src/Utility.antt =====
-- Prepaid vends and LTE purchases: src/modules/utility/utility.service.ts.
pub mod Tables
pub mod Lte
pub mod Vended
pub mod Purchased
pub mod Callbacks
mod Tests
use infraco_os.Common.{
  ℕ, suc, ◌+◌, ◌-◌, ◌*◌, Bool, true, false, not, ◌||◌, Option, none, some, List, [], ◌∷◌, ltb, ◌==◌,
  if◌then◌else◌, find?, exists, update_where, or_else,
}
use infraco_os.Common.Int.{ℤ, pos, ltb_ℤ, pos_part}
use infraco_os.Common.Result.{Result, ok, err}
use infraco_os.Database.Enums.{
  Error, bad_request, not_found, unique_violation, check_violation, foreign_key_violation,
  invalid_text, internal_error, CurrencyCode, CurrencyInput, resolve_currency, TokenKind,
  credit_token, TokenKindInput, omitted_kind, other_kind, known_kind, UtilityType, power,
  water_supply, gas, MeterAdapter, mock,
}
use infraco_os.Database.Transaction.{
  Action, Tx, ◌>>=◌, ◌>>◌, pure, throw, throw_if, or_throw, lift, statement, query, modify, attempt,
  with_actor,
}
use infraco_os.Instalment.{round_div}
use infraco_os.Ledger.{is_unique}
use infraco_os.Payments.Tables.{Callback}
use infraco_os.Payments.{is_pay_channel, cast_currency}
use Tables.{
  Meter, Tariff, TokenVend, Util, VendDto, VendOutcome, Reference, by_txn, by_amount, Backends,
}

-- `dto.tokenKind ?? 'credit'`, then the test against TOKEN_KINDS.
abbrev pub resolve_token_kind : TokenKindInput → Result Error TokenKind
resolve_token_kind omitted_kind = ok credit_token
resolve_token_kind other_kind = err bad_request
resolve_token_kind (known_kind k) = ok k

-- VENDABLE_UTILITY_TYPES
abbrev pub is_vendable : UtilityType → Bool
is_vendable power = true
is_vendable water_supply = true
is_vendable gas = true
is_vendable _ = false

-- WHERE platform_txn_id = $1
abbrev pub has_platform_txn : ℕ → Option ℕ → Bool
has_platform_txn txn none = false
has_platform_txn txn (some t) = t == txn

abbrev pub find_vend : ℕ → Util → Option TokenVend
find_vend txn u = find? (λ v. has_platform_txn txn v.platform_txn_id) u.vends

abbrev equals : ℕ → Option ℕ → Bool
equals n none = false
equals n (some k) = n == k

abbrev is_null : Option ℕ → Bool
is_null none = true
is_null (some _) = false

-- `resolveMeterTx`
pub resolve_meter_tx : Option ℕ → Option ℕ → Tx Util Meter
resolve_meter_tx meter_id serial_no = do
  throw_if (if is_null meter_id then is_null serial_no else false) bad_request
  or_throw
      (← query
        (λ u. find? (λ m. equals m.meter_id meter_id || equals m.serial_no serial_no) u.meters))
      not_found

-- Amount to units at a positive rate, rounded to thousandths; the amount is in cents.
abbrev pub units_at : Tariff → ℤ → Option ℕ
units_at t amount = elim t.rate [
  | none ↦ none
  | some rate ↦
      if ltb 0 rate
      then some (round_div ((pos_part amount * 100 - t.fixed_charge) * 1000) rate)
      else none
]

-- `computeUnitsTx`, without its audit record.
pub compute_units_tx : Option ℕ → ℤ → Tx Util (Option ℕ)
compute_units_tx none amount = pure none
compute_units_tx (some tariff_id) amount = query (λ u.
    elim (find? (λ t. t.tariff_id == tariff_id) u.tariffs) [
      | none ↦ none
      | some t ↦ units_at t amount
    ])

-- The row of a vend.
abbrev pub vend_row : VendDto → Meter → TokenKind → CurrencyCode → Option ℕ → ℕ → ℕ → TokenVend
vend_row dto meter kind currency units token id = record {
  vend_id = id;
  meter_id = meter.meter_id;
  customer_id = elim dto.customer_id [ none ↦ meter.customer_id | some c ↦ some c ];
  token_kind = kind;
  amount_paid = dto.amount_paid;
  currency = currency;
  units = units;
  token_code = token;
  platform_txn_id = dto.platform_txn_id;
}

abbrev vend_taken : Option ℕ → Util → Bool
vend_taken none u = false
vend_taken (some txn) u = exists (λ v. has_platform_txn txn v.platform_txn_id) u.vends

abbrev known_customer : Option ℕ → Util → Bool
known_customer none u = true
known_customer (some c) u = exists (λ k. k == c) u.customers

-- INSERT INTO util.token_vend, under the CHECK, the unique index and the foreign key.
pub insert_vend : VendDto → (ℕ → TokenVend) → Util → Result Error (ℕ × Util)
insert_vend dto row u =
    let v = row u.next_vend_id in
    if not (is_pay_channel dto.channel)
    then err invalid_text
    else if ltb_ℤ v.amount_paid (pos 0)
    then err check_violation
    else if vend_taken v.platform_txn_id u
    then err unique_violation
    else if known_customer v.customer_id u
    then ok (u.next_vend_id, record u { vends = v ∷ u.vends; next_vend_id = suc u.next_vend_id })
    else err foreign_key_violation

-- UPDATE util.meter SET last_balance = COALESCE(last_balance, 0) + $2
abbrev pub top_up : ℕ → ℕ → Util → Util
top_up meter_id units u = record u {
  meters =
      update_where (λ m. m.meter_id == meter_id)
        (λ m. record m { last_balance = some (or_else m.last_balance 0 + units) }) u.meters;
}

-- Only where there are units.
abbrev pub top_up_tx : ℕ → Option ℕ → Tx Util (Unit {0})
top_up_tx meter_id none = pure tt
top_up_tx meter_id (some units) = modify (top_up meter_id units)

-- The outcome of a vend that exists.
abbrev pub replay : TokenVend → VendOutcome
replay v = record {
  vend_id = v.vend_id;
  meter_id = v.meter_id;
  token_code = v.token_code;
  units = v.units;
  amount_paid = v.amount_paid;
  duplicate = true;
}

-- The body of the `try`: the row, then the meter's balance when there are units.
pub record_vend : VendDto → Meter → TokenKind → CurrencyCode → Option ℕ → ℕ → Tx Util VendOutcome
unfolding insert_vend
record_vend dto meter kind currency units token = do
  vend_id ← statement (insert_vend dto (vend_row dto meter kind currency units token))
  top_up_tx meter.meter_id units
  pure (record {
    vend_id = vend_id;
    meter_id = meter.meter_id;
    token_code = token;
    units = units;
    amount_paid = dto.amount_paid;
    duplicate = false;
  })

-- The `catch`: a unique violation looks the vend up, in what is a failed transaction.
pub after_vend : Option ℕ → Result Error VendOutcome → Tx Util VendOutcome
after_vend txn (ok o) = pure o
after_vend none (err e) = throw e
after_vend (some txn) (err e) =
    if is_unique e
    then (query (find_vend txn) >>= λ dup. elim dup [ none ↦ throw e | some v ↦ pure (replay v) ])
    else throw e

abbrev reference_of : Option ℕ → Meter → ℤ → Reference
reference_of none meter amount = by_amount meter.serial_no amount
reference_of (some txn) meter amount = by_txn txn

-- `adapters.resolve`: only 'mock' is configured.
abbrev pub is_configured : MeterAdapter → Bool
is_configured mock = true
is_configured _ = false

abbrev find_replay : Option ℕ → Tx Util (Option TokenVend)
find_replay none = pure none
find_replay (some txn) = query (find_vend txn)

-- What a callback asks for.
abbrev pub vend_dto_of : Callback → VendDto
vend_dto_of c = record {
  meter_id = c.meter_id;
  meter_serial = c.meter_serial;
  amount_paid = c.amount_paid;
  currency = c.currency;
  token_kind = c.token_kind;
  channel = c.channel;
  customer_id = c.customer_id;
  platform_txn_id = some c.platform_txn_id;
}

module _ (backends : Backends) where
  -- A vend that no earlier one answers.
  pub new_vend : VendDto → TokenKind → CurrencyCode → Tx Util VendOutcome
  unfolding resolve_meter_tx compute_units_tx record_vend after_vend
  new_vend dto kind currency = do
    meter ← resolve_meter_tx dto.meter_id dto.meter_serial
    throw_if (not meter.is_prepaid) bad_request
    throw_if (not (is_vendable meter.utility_type)) bad_request
    units ← compute_units_tx meter.tariff_id dto.amount_paid
    throw_if (not (is_configured meter.adapter)) internal_error
    let token =
        backends.token_of meter.serial_no (reference_of dto.platform_txn_id meter dto.amount_paid)
    recorded ← attempt (record_vend dto meter kind currency units token)
    after_vend dto.platform_txn_id recorded

  -- `vendCoreTx`
  pub vend_core_tx : VendDto → Tx Util VendOutcome
  unfolding new_vend
  vend_core_tx dto = do
    throw_if (ltb_ℤ dto.amount_paid (pos 0)) bad_request
    kind ← lift (resolve_token_kind dto.token_kind)
    currency ← lift (resolve_currency dto.currency)
    existing ← find_replay dto.platform_txn_id
    elim existing [ some v ↦ pure (replay v) | none ↦ new_vend dto kind currency ]

  -- `vend`, without the SMS that follows it.
  unfoldable pub vend : VendDto → Action Util VendOutcome
  unfolding vend_core_tx
  vend dto = with_actor (vend_core_tx dto)

  -- `vendFromCallbackTx`
  pub vend_from_callback_tx : Callback → Tx Util (Unit {0})
  unfolding vend_core_tx
  vend_from_callback_tx c = do vend_core_tx (vend_dto_of c); pure tt
