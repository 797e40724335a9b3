-- ===== src/Ledger/CoaMap.antt =====
-- The chart-of-accounts mapping: src/modules/financial/coa-map.ts. A code is read as a number.
use infraco_os.Common.{ℕ, none, some}
use infraco_os.Common.Int.{ℤ}
use infraco_os.Database.Enums.{
  AccountType, stand_purchase, agro_purchase, rental, utility, AssetClass, residential, agro,
  commercial, utilities, InvoiceType, instalment, rent, solar, water, fibre, penalty, other_charge,
}
use infraco_os.Accounting.Tables.{JournalLineInput}

-- `COA`
abbrev pub receivables_code : ℕ
receivables_code = 1200

abbrev pub cash_code : ℕ
cash_code = 1300

abbrev pub rev_stand_code : ℕ
rev_stand_code = 4000

abbrev pub rev_agro_code : ℕ
rev_agro_code = 4100

abbrev pub rev_rental_code : ℕ
rev_rental_code = 4200

abbrev pub rev_utility_code : ℕ
rev_utility_code = 4300

abbrev pub rev_interest_code : ℕ
rev_interest_code = 4400

abbrev pub opex_code : ℕ
opex_code = 6000

-- `assetClassForAccountType`
unfoldable pub asset_class_for_account_type : AccountType → AssetClass
asset_class_for_account_type stand_purchase = residential
asset_class_for_account_type agro_purchase = agro
asset_class_for_account_type rental = commercial
asset_class_for_account_type utility = utilities

-- The default of `revenueCoaForInvoice`, by the buyer's asset class.
abbrev revenue_code_for_class : AssetClass → ℕ
revenue_code_for_class agro = rev_agro_code
revenue_code_for_class commercial = rev_rental_code
revenue_code_for_class utilities = rev_utility_code
revenue_code_for_class _ = rev_stand_code

-- `revenueCoaForInvoice`
unfoldable pub revenue_coa_for_invoice : InvoiceType → AssetClass → ℕ
revenue_coa_for_invoice rent _ = rev_rental_code
revenue_coa_for_invoice solar _ = rev_utility_code
revenue_coa_for_invoice water _ = rev_utility_code
revenue_coa_for_invoice fibre _ = rev_utility_code
revenue_coa_for_invoice penalty _ = rev_interest_code
revenue_coa_for_invoice instalment c = revenue_code_for_class c
revenue_coa_for_invoice other_charge c = revenue_code_for_class c

-- `{ coaCode, debit }` and `{ coaCode, credit }`
abbrev pub debit_line : ℕ → ℤ → JournalLineInput
debit_line code amount = record {
  code = code;
  asset_class = none;
  debit = some amount;
  credit = none;
}

abbrev pub credit_line : ℕ → ℤ → JournalLineInput
credit_line code amount = record {
  code = code;
  asset_class = none;
  debit = none;
  credit = some amount;
}
