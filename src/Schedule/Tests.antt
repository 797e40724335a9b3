-- ===== src/Schedule/Tests.antt =====
-- Runs of the instalment engine of src/modules/financial/financial.service.ts.
use infraco_os.Common.{List, length, ◌++◌, Bool, false, ltb, All, ℕ, ◌≡◌, refl, none, [], ◌∷◌}
use infraco_os.Common.Int.{pos, ◌-ℤ◌, ◌+ℤ◌}
use infraco_os.Common.Result.{ok}
use infraco_os.Database.Enums.{omitted, usd, draft}
use infraco_os.Instalment.{equal, compute_instalment_amounts}
use infraco_os.Accounting.{
  post_journal_tx, check_entry, check_lines, open_period, check_codes, distinct, line_rows,
}
use infraco_os.Rent.{Ymd}
use infraco_os.Ledger.Samples.{today, coa_account, open_invoice, books, sample}
use infraco_os.Office.{Office}
use infraco_os.Schedule.Raise.{is_due, raise_due_instalments}
use infraco_os.Schedule.Raised.{raise_due_instalments_complete}
use infraco_os.Lease.Samples.{code, office, platform}
use infraco_os.Schedule.{quarterly, GenerateSchedule, Desk, due_day}
use infraco_os.Schedule.Generate.{Schedule, generate_schedule}
use infraco_os.Schedule.Totals.{IsScheduled, generate_schedule_total, generate_schedule_dates}
use infraco_os.Schedule.Dates.{IsDated}
use infraco_os.Ledger.Tables.{Invoice}

abbrev january : Ymd
january = record { y = 2026; m = 1; d = 31 }

abbrev march_third : Ymd
march_third = record { y = 2026; m = 3; d = 3 }

-- A month after January 31st is March 3rd.
into_march : due_day january 1 ≡ due_day march_third 0
unfolding due_day
into_march = refl

abbrev request : GenerateSchedule
request = record {
  total_price = pos 100_000;
  deposit = pos 10_000;
  num_instalments = pos 3;
  frequency = quarterly;
  structure = equal;
  balloon_amount = none;
  start_date = january;
  currency = omitted;
}

abbrev desk : Desk
desk = record { office = office; plans = [] }

scheduled : Desk
unfolding generate_schedule
scheduled = (generate_schedule code 9 request desk).1

schedule : Schedule
unfolding generate_schedule
schedule = record {
  invoice_ids = 4 ∷ 5 ∷ 6 ∷ [];
  amounts = pos 30_000 ∷ pos 30_000 ∷ pos 30_000 ∷ [];
  currency = usd;
}

schedule_run : generate_schedule code 9 request desk ≡ (ok schedule, scheduled)
unfolding generate_schedule schedule scheduled compute_instalment_amounts ◌-ℤ◌
schedule_run = refl

generate_schedule_total_example : IsScheduled 9 request office scheduled.office
generate_schedule_total_example = generate_schedule_total code 9 request desk scheduled schedule_run

generate_schedule_dates_example :
    (rows : List Invoice) × (scheduled.office.fin.invoices ≡ rows ++ sample.invoices)
    × (pos (length rows) ≡ pos 3)
    × IsDated code 9 request 0 rows
generate_schedule_dates_example = generate_schedule_dates code 9 request desk scheduled schedule_run

-- Tables with an instalment that is due.
abbrev due_office : Office
due_office = record office {
  fin = record sample {
    books = record books { coa = coa_account 1200 ∷ coa_account 4200 ∷ [] };
    invoices =
        record open_invoice { invoice_id = 4; reference = 78; status = draft } ∷ open_invoice ∷ [];
  };
}

abbrev by_number : ℕ → ℕ → Bool
by_number = ltb

raised_office : Office
unfolding raise_due_instalments
raised_office = (raise_due_instalments platform by_number today due_office).1

raise_run : raise_due_instalments platform by_number today due_office ≡ (ok (4 ∷ []), raised_office)
unfolding raise_due_instalments raised_office post_journal_tx check_entry check_lines ◌-ℤ◌ ◌+ℤ◌
    open_period check_codes distinct line_rows
raise_run = refl

raise_due_instalments_complete_example : All (λ i. is_due 500 i ≡ false) raised_office.fin.invoices
raise_due_instalments_complete_example =
    raise_due_instalments_complete platform by_number today due_office raised_office
      (refl, (refl, tt)) raise_run
