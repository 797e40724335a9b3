-- ===== src/Accounting/Tests.antt =====
-- Books with a small chart of accounts, and each theorem at calls on them.
use infraco_os.Common.{ℕ, ◌≡◌, refl, true, false, none, some, List, [], ◌∷◌, map}
use infraco_os.Common.Int.{ℤ, pos, ◌+ℤ◌, ◌-ℤ◌}
use infraco_os.Common.Result.{ok, err, is_ok}
use infraco_os.Database.Enums.{bad_request, asset, group, is_open}
use infraco_os.Accounting.Tables.{Date, CoaAccount, Journal, Books, JournalEntry, JournalLineInput}
use infraco_os.Accounting.{
  Call, posts, reverses, closes, run, post_journal, reverse_journal, reverse_journal_tx,
  post_journal_tx, close_period, check_entry, check_lines, open_period, distinct, check_codes,
  line_rows, find_journal,
}
use infraco_os.Accounting.Valid.{IsValid}
use infraco_os.Accounting.History.{run-IsValid}
use infraco_os.Accounting.Periods.{close_period-post_journal}
use infraco_os.Accounting.Reports.{
  balance_sheet, sheet_is_balanced, trial_balance, trial_balance_rows, left_join,
}
use infraco_os.Accounting.Balance.{trial_balance_any_period}
use infraco_os.Accounting.Codes.{balance_sheet-run}
use infraco_os.Accounting.Reversal.{swap_line, reverse_journal_swaps}

abbrev may_day : Date
may_day = record { year = 2026; month = 5; day = 14 }

abbrev june_day : Date
june_day = record { year = 2026; month = 6; day = 2 }

abbrev coa_account : ℕ → CoaAccount
coa_account code = record {
  code = code;
  account_class = asset;
  asset_class = group;
  is_postable = true;
  active = true;
}

abbrev debit_of : ℕ → ℤ → JournalLineInput
debit_of code amount = record {
  code = code;
  asset_class = none;
  debit = some amount;
  credit = none;
}

abbrev credit_of : ℕ → ℤ → JournalLineInput
credit_of code amount = record {
  code = code;
  asset_class = none;
  debit = none;
  credit = some amount;
}

abbrev receipt : JournalEntry
receipt = record {
  journal_date = some may_day;
  lines = debit_of 1300 (pos 2500) ∷ credit_of 1200 (pos 2500) ∷ [];
}

abbrev unbalanced : JournalEntry
unbalanced = record {
  journal_date = some may_day;
  lines = debit_of 1300 (pos 2500) ∷ credit_of 1200 (pos 2499) ∷ [];
}

abbrev empty_books : Books
empty_books = record {
  coa = coa_account 1200 ∷ coa_account 1300 ∷ [];
  periods = record { year = 2026; month = 5; status = is_open } ∷ [];
  journals = [];
  next_id = 1;
}

abbrev one_journal : Books
one_journal = (post_journal may_day receipt empty_books).1

abbrev reversed_books : Books
reversed_books = (reverse_journal june_day 1 one_journal).1

abbrev closed_books : Books
closed_books = (close_period 2026 5 empty_books).1

receipt_lem : post_journal may_day receipt empty_books ≡ (ok 1, one_journal)
unfolding post_journal post_journal_tx check_entry check_lines ◌+ℤ◌ ◌-ℤ◌ open_period distinct
    check_codes line_rows
receipt_lem = refl

unbalanced_lem : post_journal may_day unbalanced empty_books ≡ (err bad_request, empty_books)
unfolding post_journal post_journal_tx check_entry check_lines ◌+ℤ◌ ◌-ℤ◌
unbalanced_lem = refl

reversed_lem : reverse_journal june_day 1 one_journal ≡ (ok 2, reversed_books)
unfolding reverse_journal reverse_journal_tx post_journal post_journal_tx check_entry check_lines
    ◌+ℤ◌ ◌-ℤ◌ open_period distinct check_codes line_rows
reversed_lem = refl

closed_lem : close_period 2026 5 empty_books ≡ (ok tt, closed_books)
unfolding close_period
closed_lem = refl

abbrev calls : List Call
calls =
    posts may_day receipt
    ∷ reverses june_day 1
    ∷ reverses june_day 1
    ∷ closes 2026 5
    ∷ posts may_day receipt
    ∷ []

run-IsValid_example : IsValid (run calls empty_books)
run-IsValid_example = run-IsValid calls empty_books tt

close_period-post_journal_example :
    (is_ok (post_journal june_day receipt (run calls closed_books)).0 ≡ false)
    × ((post_journal june_day receipt (run calls closed_books)).1 ≡ run calls closed_books)
close_period-post_journal_example =
    close_period-post_journal 2026 5 empty_books closed_books calls june_day receipt closed_lem refl
      refl

reverse_journal_swaps_example :
    (orig counter : Journal) × (find_journal 1 one_journal ≡ some orig)
    × (find_journal 2 reversed_books ≡ some counter)
    × (counter.lines ≡ map swap_line orig.lines)
reverse_journal_swaps_example =
    reverse_journal_swaps june_day 1 one_journal reversed_books 2 reversed_lem

balance_sheet-run_example :
    sheet_is_balanced (balance_sheet june_day none (run calls empty_books)) ≡ true
balance_sheet-run_example = balance_sheet-run june_day calls empty_books tt tt

trial_balance_any_period_example :
    trial_balance 2026 (some 5) one_journal ≡ trial_balance 1999 none one_journal
trial_balance_any_period_example = trial_balance_any_period 2026 1999 (some 5) none one_journal

-- The trial balance of a year without journals lists those of May 2026.
empty_year_lem : (trial_balance 1999 none one_journal).total_debit ≡ pos 2500
unfolding trial_balance trial_balance_rows left_join post_journal post_journal_tx check_entry
    check_lines open_period distinct check_codes line_rows ◌+ℤ◌ ◌-ℤ◌
empty_year_lem = refl
