-- ===== src/Utility/Tables.antt =====
-- The tables of the utility service that a sale touches, and what its operations take and return.
-- Units are in thousandths, a tariff's rate and fixed charge in hundredths of a cent; where the code
-- divides floating-point numbers and rounds, the model rounds the exact quotient.
use infraco_os.Common.{ℕ, Bool, Option, List}
use infraco_os.Common.Int.{ℤ}
use infraco_os.Database.Enums.{
  CurrencyCode, CurrencyInput, TokenKind, TokenKindInput, UtilityType, MeterAdapter,
}
use infraco_os.Payments.Tables.{ChannelInput}

-- util.meter
pub record Meter : Type 0 where
  pub meter_id : ℕ
  pub serial_no : ℕ
  pub utility_type : UtilityType
  pub adapter : MeterAdapter
  pub is_prepaid : Bool
  pub tariff_id : Option ℕ
  pub customer_id : Option ℕ
  pub last_balance : Option ℕ

-- util.tariff; a fixed charge that is null is 0.
pub record Tariff : Type 0 where
  pub tariff_id : ℕ
  pub rate : Option ℕ
  pub fixed_charge : ℕ

-- util.token_vend; the status of every row that the code writes is 'issued'.
pub record TokenVend : Type 0 where
  pub vend_id : ℕ
  pub meter_id : ℕ
  pub customer_id : Option ℕ
  pub token_kind : TokenKind
  pub amount_paid : ℤ
  pub currency : CurrencyCode
  pub units : Option ℕ
  pub token_code : ℕ
  pub platform_txn_id : Option ℕ

pub data ProvisionStatus : Type 0 where
  pending provisioned failed : ProvisionStatus

-- util.lte_purchase
pub record LtePurchase : Type 0 where
  pub purchase_id : ℕ
  pub subscriber_id : ℕ
  pub product_id : ℕ
  pub amount_paid : ℤ
  pub currency : CurrencyCode
  pub platform_txn_id : Option ℕ
  pub provision_ref : Option ℕ
  pub status : ProvisionStatus

pub record Util : Type 0 where
  pub customers : List ℕ
  pub subscribers : List ℕ
  pub products : List ℕ
  pub meters : List Meter
  pub tariffs : List Tariff
  pub vends : List TokenVend
  pub purchases : List LtePurchase
  pub next_vend_id : ℕ
  pub next_purchase_id : ℕ

-- `VendDto`; the reason is stored and never read. An id or transaction given as the empty text, which
-- the code's tests take for none but its insert stores, is left out, here and below.
pub record VendDto : Type 0 where
  pub meter_id : Option ℕ
  pub meter_serial : Option ℕ
  pub amount_paid : ℤ
  pub currency : CurrencyInput
  pub token_kind : TokenKindInput
  pub channel : ChannelInput
  pub customer_id : Option ℕ
  pub platform_txn_id : Option ℕ

-- `VendOutcome`, whose status is 'issued'.
pub record VendOutcome : Type 0 where
  pub vend_id : ℕ
  pub meter_id : ℕ
  pub token_code : ℕ
  pub units : Option ℕ
  pub amount_paid : ℤ
  pub duplicate : Bool

-- `LtePurchaseDto`
pub record LtePurchaseDto : Type 0 where
  pub subscriber_id : ℕ
  pub product_id : ℕ
  pub amount_paid : ℤ
  pub currency : CurrencyInput
  pub channel : ChannelInput
  pub customer_id : Option ℕ
  pub platform_txn_id : Option ℕ

-- `LtePurchaseOutcome`
pub record LtePurchaseOutcome : Type 0 where
  pub purchase_id : ℕ
  pub status : ProvisionStatus
  pub provision_ref : Option ℕ
  pub duplicate : Bool

-- The reference of a token: the platform transaction, or the meter's serial with the amount.
pub data Reference : Type 0 where
  by_txn : ℕ → Reference
  by_amount : ℕ → ℤ → Reference

-- What the service calls outside itself: the digest of `MockMeterAdapter`, from a meter's serial and
-- a reference, and the provisioning of a purchase, from its id and the attempt, which fails (`none`)
-- or answers with an optional reference.
pub record Backends : Type 0 where
  pub token_of : ℕ → Reference → ℕ
  pub provision : ℕ → ℕ → Option (Option ℕ)
