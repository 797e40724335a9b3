-- ===== src/Accounting/Tables.antt =====
-- The tables of the accounting layer, and what a caller asks to be posted.
use infraco_os.Common.{ℕ, Bool, true, false, Option, List}
use infraco_os.Common.Int.{ℤ}
use infraco_os.Database.Enums.{AccountClass, AssetClass, PeriodStatus, is_open, closed}

-- A date `YYYY-MM-DD`.
pub record Date : Type 0 where
  pub year : ℕ
  pub month : ℕ
  pub day : ℕ

-- fin.coa_account
pub record CoaAccount : Type 0 where
  pub code : ℕ
  pub account_class : AccountClass
  pub asset_class : AssetClass
  pub is_postable : Bool
  pub active : Bool

-- fin.acc_period, keyed by year and month
pub record Period : Type 0 where
  pub year : ℕ
  pub month : ℕ
  pub status : PeriodStatus

-- fin.journal_line
pub record JournalLine : Type 0 where
  pub code : ℕ
  pub asset_class : AssetClass
  pub debit : ℤ
  pub credit : ℤ

-- fin.journal, with its lines
pub record Journal : Type 0 where
  pub journal_id : ℕ
  pub journal_date : Date
  pub lines : List JournalLine
  pub reversed_by : Option ℕ

pub record Books : Type 0 where
  pub coa : List CoaAccount
  pub periods : List Period
  pub journals : List Journal
  pub next_id : ℕ

-- `JournalLineInput` and `JournalEntry`; the narrative, the source and the poster are stored and
-- never read, so they are left out.
pub record JournalLineInput : Type 0 where
  pub code : ℕ
  pub asset_class : Option AssetClass
  pub debit : Option ℤ
  pub credit : Option ℤ

pub record JournalEntry : Type 0 where
  pub journal_date : Option Date
  pub lines : List JournalLineInput

abbrev pub status_is_open : PeriodStatus → Bool
status_is_open is_open = true
status_is_open _ = false

abbrev pub status_is_closed : PeriodStatus → Bool
status_is_closed closed = true
status_is_closed _ = false
