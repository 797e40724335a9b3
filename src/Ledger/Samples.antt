-- ===== src/Ledger/Samples.antt =====
-- Tables for the tests of the ledger and of the payments.
use infraco_os.Common.{ℕ, true, false, some, [], ◌∷◌}
use infraco_os.Common.Int.{pos}
use infraco_os.Database.Enums.{
  asset, group, is_open, usd, stand_purchase, issued, known, credit, approved,
}
use infraco_os.Database.Enums
use infraco_os.Accounting.Tables.{CoaAccount, Books}
use infraco_os.Approvals.{Approvals}
use infraco_os.Ledger.Tables.{Day, Invoice, SuspenseItem, Fin}

abbrev pub today : Day
today = record { date = record { year = 2026; month = 5; day = 14 }; number = 500 }

abbrev pub coa_account : ℕ → CoaAccount
coa_account code = record {
  code = code;
  account_class = asset;
  asset_class = group;
  is_postable = true;
  active = true;
}

-- An invoice of 100.00, past due.
abbrev pub open_invoice : Invoice
open_invoice = record {
  invoice_id = 3;
  account_id = 9;
  invoice_type = Enums.instalment;
  reference = 77;
  amount = pos 10000;
  amount_paid = pos 0;
  currency = usd;
  due_date = 490;
  status = issued;
}

-- Write-offs above 50.00 need an approval; request 1 approves one of 60.00.
abbrev pub approvals : Approvals
approvals = record {
  rules =
      record {
        rule_id = 1;
        action_code = 1;
        currency = usd;
        max_amount = some (pos 5000);
        dual_auth = true;
      }
      ∷ [];
  requests =
      record {
        approval_id = 1;
        action_code = 1;
        amount = pos 6000;
        currency = usd;
        threshold = some (pos 5000);
        status = approved;
        initiated_by = 7;
        decided_by = some 8;
      }
      ∷ [];
  next_id = 2;
}

abbrev pub books : Books
books = record {
  coa = coa_account 1200 ∷ coa_account 1300 ∷ coa_account 4400 ∷ coa_account 6000 ∷ [];
  periods = record { year = 2026; month = 5; status = is_open } ∷ [];
  journals = [];
  next_id = 1;
}

abbrev pub parked : SuspenseItem
parked = record {
  suspense_id = 1;
  platform_txn_id = 41;
  amount = pos 2500;
  currency = usd;
  resolved = false;
}

abbrev pub sample : Fin
sample = record {
  books = books;
  approvals = approvals;
  accounts = record { account_id = 9; account_type = stand_purchase; balance = pos 0 } ∷ [];
  invoices = open_invoice ∷ [];
  ledger = [];
  suspense = parked ∷ [];
  arrears = [];
  next_ledger_id = 1;
  next_suspense_id = 2;
}
