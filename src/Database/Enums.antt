-- ===== src/Database/Enums.antt =====
-- The enumerations of src/common/enums.ts, and the errors that the services throw.
use infraco_os.Common.Result.{Result, ok, err}

-- The HTTP exceptions of the services, the constraint violations of the database, the refusal of a
-- text that is no value of an enumeration, the refusal of a statement in a failed transaction, a
-- JavaScript `TypeError`, an `Error` that is no HTTP exception, and the errors of the database that
-- the sales service tells apart by their text.
pub data Error : Type 0 where
  bad_request not_found forbidden conflict unauthorized too_many_requests : Error
  unique_violation check_violation foreign_key_violation invalid_text tx_aborted type_error
        internal_error :
      Error
  plot_not_found plot_not_available uq_active_reservation uq_active_sale : Error

pub data CurrencyCode : Type 0 where
  usd zig gbp zar eur aud : CurrencyCode

-- A currency as a request gives it: left out, one of CURRENCY_CODES, or any other text.
pub data CurrencyInput : Type 0 where
  omitted other : CurrencyInput
  known : CurrencyCode → CurrencyInput

-- `p.currency ?? 'USD'`, then the test against CURRENCY_CODES.
abbrev pub resolve_currency : CurrencyInput → Result Error CurrencyCode
resolve_currency omitted = ok usd
resolve_currency other = err bad_request
resolve_currency (known c) = ok c

pub data AccountClass : Type 0 where
  asset liability equity revenue cogs opex capex finance_cost : AccountClass

pub data AssetClass : Type 0 where
  residential agro commercial utilities projects group : AssetClass

pub data PeriodStatus : Type 0 where
  is_open locked closed : PeriodStatus

pub data AccountType : Type 0 where
  stand_purchase agro_purchase rental utility : AccountType

pub data InvoiceType : Type 0 where
  instalment rent solar water fibre penalty other_charge : InvoiceType

-- fin.invoice_status of db/infraco_os_schema.sql.
pub data InvoiceStatus : Type 0 where
  draft issued partially_paid paid overdue cancelled : InvoiceStatus

pub data ApprovalStatus : Type 0 where
  pending approved rejected executed : ApprovalStatus

-- fin.payment_method of db/infraco_os_schema.sql.
pub data PaymentMethod : Type 0 where
  wallet cash bank_transfer remittance agent merchant adjustment : PaymentMethod

pub data TxnType : Type 0 where
  debit credit : TxnType

-- TOKEN_KINDS
pub data TokenKind : Type 0 where
  credit_token key_change clear_tamper adjustment_token free_token : TokenKind

-- A token kind as a request gives it: left out, one of TOKEN_KINDS, or any other text.
pub data TokenKindInput : Type 0 where
  omitted_kind other_kind : TokenKindInput
  known_kind : TokenKind → TokenKindInput

-- UTILITY_TYPES
pub data UtilityType : Type 0 where
  solar_power power water_supply fibre_line gas : UtilityType

-- METER_ADAPTERS
pub data MeterAdapter : Type 0 where
  sts vendor_api mock : MeterAdapter

-- fin.account_status
pub data AccountStatus : Type 0 where
  account_active settled suspended account_closed : AccountStatus

-- LEASE_STATUSES
pub data LeaseStatus : Type 0 where
  lease_draft signed lease_active renewal expired terminated : LeaseStatus

-- RENTAL_UTILITY_TYPES
pub data RentalUtilityType : Type 0 where
  rental_solar rental_water rental_fibre : RentalUtilityType

-- The type of invoice that a rental utility is charged by: the texts are the same.
abbrev pub invoice_type_of : RentalUtilityType → InvoiceType
invoice_type_of rental_solar = solar
invoice_type_of rental_water = water
invoice_type_of rental_fibre = fibre

-- PLOT_STATUSES
pub data PlotStatus : Type 0 where
  available reserved sold transferred withheld : PlotStatus
