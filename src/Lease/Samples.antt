-- ===== src/Lease/Samples.antt =====
-- Tables for the tests of leases.
use infraco_os.Common.{ℕ, ◌+◌, true, none, some, Option, List, [], ◌∷◌}
use infraco_os.Common.Int.{pos}
use infraco_os.Database.Enums.{usd, omitted, account_active, rental, lease_active, terminated}
use infraco_os.Ledger.Samples.{sample}
use infraco_os.Office.{Reference, account_ref, rent_ref, instalment_ref, utility_ref, Office}
use infraco_os.Office.Bills.{Platform}
use infraco_os.Rent.{Text}
use infraco_os.Lease.{Calendar, Lease, Estate}
use infraco_os.Lease.Rows.{CreateLease}
use infraco_os.Lease.Sound.{Op, creates, transitions}

-- "2026-03-14" and "2025-01-01"
abbrev pub march : Text
march = 50 ∷ 48 ∷ 50 ∷ 54 ∷ 45 ∷ 48 ∷ 51 ∷ 45 ∷ 49 ∷ 52 ∷ []

abbrev pub last_year : Text
last_year = 50 ∷ 48 ∷ 50 ∷ 53 ∷ 45 ∷ 48 ∷ 49 ∷ 45 ∷ 48 ∷ 49 ∷ []

-- A calendar that prints a day as one character, and reads a longer text by the last digit of its
-- year.
abbrev read_day : Text → Option ℕ
read_day [] = none
read_day (d ∷ []) = some d
read_day (a ∷ b ∷ c ∷ d ∷ cs) = some (441 + d)
read_day _ = none

abbrev pub calendar : Calendar
calendar = record { cast_date = read_day; date_text = λ d. d ∷ []; js_date = λ _. some 500 }

abbrev pub code : Reference → ℕ
code (account_ref type customer stamp) = 500 + stamp
code (rent_ref lease period) = 600 + lease
code (instalment_ref account index) = 800 + index
code (utility_ref type lease period) = 700 + lease

abbrev pub platform : Platform
platform i wallet = record {
  accepted = true;
  configured = true;
  platform_bill_id = some 31;
  short_code = none;
}

-- A lease of premises 5, active, with the account 9.
abbrev pub lease : Lease
lease = record {
  lease_id = 2;
  premises_id = 5;
  tenant_id = 4;
  account_id = some 9;
  start_date = 100;
  end_date = 520;
  rent_amount = pos 50_000;
  currency = usd;
  escalation_pct = none;
  escalation_anniv = none;
  deposit = pos 0;
  market_rate = none;
  status = lease_active;
}

abbrev pub office : Office
office = record {
  fin = sample;
  customers = record { customer_id = 4; wallet_id = none } ∷ [];
  account_rows =
      record {
        account_id = 9;
        customer_id = 4;
        account_type = rental;
        reference = 12;
        status = account_active;
        currency = usd;
      }
      ∷ [];
  bills = [];
  platform_ids = [];
  api_log = [];
  notices = [];
  next_account_id = 10;
  next_invoice_id = 4;
}

abbrev pub estate : Estate
estate = record {
  office = office;
  developments = [];
  operations_users = 21 ∷ 22 ∷ [];
  premises =
      record { premises_id = 6; development_id = none; name = 62 }
      ∷ record { premises_id = 5; development_id = none; name = 61 }
      ∷ [];
  leases = lease ∷ [];
  next_premises_id = 7;
  next_lease_id = 3;
}

abbrev pub new_lease : CreateLease
new_lease = record {
  premises_id = 6;
  tenant_id = 4;
  account_id = none;
  start_date = last_year;
  end_date = march;
  rent_amount = some (pos 30_000);
  currency = omitted;
  escalation_pct = none;
  escalation_anniv = none;
  deposit = none;
  market_rate = none;
}

-- A new lease, and the first one terminated.
abbrev pub ops : List Op
ops = creates calendar new_lease ∷ transitions code 1 calendar 2 (some terminated) ∷ []
