-- ===== src/Accounting.antt =====
-- The accounting layer: src/modules/financial/accounting.service.ts. The tables that it owns are the
-- record `Books`; a journal holds its lines. Dates are their year, month and day.
pub mod Tables
pub mod Valid
pub mod History
pub mod Periods
pub mod Reversal
pub mod Reports
pub mod Balance
pub mod Codes
mod Tests
use infraco_os.Common.{
  ℕ, suc, ◌+◌, ◌*◌, Bool, true, false, not, ◌&&◌, ◌||◌, Option, none, some, List, [], ◌∷◌, map, ltb,
  ◌==◌, if◌then◌else◌, or_else, is_some, length, find?, exists, update_where,
}
use infraco_os.Common.Int.{ℤ, pos, ◌+ℤ◌, ◌-ℤ◌, ltb_ℤ, abs_ℕ}
use infraco_os.Common.Result.{Result, ok, err}
use infraco_os.Database.Enums.{
  Error, bad_request, not_found, forbidden, check_violation, type_error, AssetClass, PeriodStatus,
  is_open, closed,
}
use infraco_os.Database.Transaction.{
  Tx, Action, ◌>>=◌, ◌>>◌, pure, throw_if, or_throw, lift, statement, query, modify, with_actor,
}
use Tables.{
  Date, CoaAccount, Period, JournalLine, Journal, Books, JournalLineInput, JournalEntry,
  status_is_open, status_is_closed,
}

-- `money(l.debit ?? 0)`
abbrev pub amount_or_zero : Option ℤ → ℤ
amount_or_zero a = or_else a (pos 0)

-- `a === b` of two Booleans.
abbrev same_test : Bool → Bool → Bool
same_test true b = b
same_test false b = not b

-- The loop over the lines, with the two running totals.
unfoldable pub check_lines : List JournalLineInput → ℤ → ℤ → Result Error (ℤ × ℤ)
check_lines [] total_debit total_credit = ok (total_debit, total_credit)
check_lines (l ∷ ls) total_debit total_credit =
    let debit = amount_or_zero l.debit in
    let credit = amount_or_zero l.credit in
    let rest = check_lines ls (total_debit +ℤ debit) (total_credit +ℤ credit) in
    if ltb_ℤ debit (pos 0) || ltb_ℤ credit (pos 0)
    then err bad_request
    else if same_test (ltb_ℤ (pos 0) debit) (ltb_ℤ (pos 0) credit)
    then err bad_request
    else rest

-- `Math.abs(totalDebit - totalCredit) > EPSILON`, half a cent.
abbrev out_of_balance : ℤ → ℤ → Bool
out_of_balance total_debit total_credit = ltb 1 (2 * abs_ℕ (total_debit -ℤ total_credit))

-- The tests on the lines of an entry, before any statement.
unfoldable pub check_entry : List JournalLineInput → Result Error (Unit {0})
check_entry lines =
    if ltb (length lines) 2 then err bad_request else elim (check_lines lines (pos 0) (pos 0)) [
      | err e ↦ err e
      | ok (d, c) ↦ if out_of_balance d c then err bad_request else ok tt
    ]

abbrev pub in_month : ℕ → ℕ → Period → Bool
in_month year month p = p.year == year && p.month == month

-- INSERT … ON CONFLICT (year, month) DO NOTHING, under the CHECK on the month.
unfoldable pub open_period : ℕ → ℕ → Books → Result Error (Unit {0} × Books)
open_period year month b =
    if ltb month 1 || ltb 12 month
    then err check_violation
    else if exists (in_month year month) b.periods
    then ok (tt, b)
    else ok (
      tt,
      record b { periods = record { year = year; month = month; status = is_open } ∷ b.periods },
    )

abbrev pub find_code : ℕ → List CoaAccount → Option CoaAccount
find_code code = find? (λ c. c.code == code)

-- `new Set(codes)`: each code once, in the order of its first occurrence.
unfoldable pub distinct : List ℕ → List ℕ → List ℕ
distinct seen [] = []
distinct seen (c ∷ cs) =
    let again = distinct seen cs in
    let first = c ∷ distinct (c ∷ seen) cs in if exists (λ s. s == c) seen then again else first

-- The loop that enforces that every code is known, postable and active.
unfoldable pub check_codes : List CoaAccount → List ℕ → Result Error (Unit {0})
check_codes coa [] = ok tt
check_codes coa (code ∷ codes) =
    let rest = check_codes coa codes in
    elim (find_code code coa) [
      | none ↦ err not_found
      | some c ↦ if not c.is_postable || not c.active then err bad_request else rest
    ]

-- The rows of fin.journal_line; a code that `byCode` lacks is a TypeError.
unfoldable pub line_rows : List CoaAccount → List JournalLineInput → Result Error (List JournalLine)
line_rows coa [] = ok []
line_rows coa (l ∷ ls) = elim (find_code l.code coa) [
  | none ↦ err type_error
  | some c ↦ elim (line_rows coa ls) [
    | err e ↦ err e
    | ok rows ↦ ok (
        record {
          code = c.code;
          asset_class = or_else l.asset_class c.asset_class;
          debit = amount_or_zero l.debit;
          credit = amount_or_zero l.credit;
        }
        ∷ rows)
  ]
]

-- The journal with its lines, under a new id.
abbrev pub with_journal : Date → List JournalLine → Books → Books
with_journal date lines b = record b {
  journals =
      record { journal_id = b.next_id; journal_date = date; lines = lines; reversed_by = none }
      ∷ b.journals;
  next_id = suc b.next_id;
}

abbrev pub insert_journal : Date → List JournalLine → Books → Result Error (ℕ × Books)
insert_journal date lines b = ok (b.next_id, with_journal date lines b)

abbrev find_period : ℕ → ℕ → Books → Option Period
find_period year month b = find? (in_month year month) b.periods

-- `postJournalTx`; `today` is the date of the server's clock.
unfoldable pub post_journal_tx : Date → JournalEntry → Tx Books ℕ
post_journal_tx today entry = do
  lift (check_entry entry.lines)
  let date = or_else entry.journal_date today
  statement (open_period date.year date.month)
  period ← or_throw (← query (find_period date.year date.month)) type_error
  throw_if (not (status_is_open period.status)) forbidden
  coa ← query (λ b. b.coa)
  lift (check_codes coa (distinct [] (map (λ l. l.code) entry.lines)))
  lines ← lift (line_rows coa entry.lines)
  statement (insert_journal date lines)

-- `postJournal`
pub post_journal : Date → JournalEntry → Action Books ℕ
post_journal today entry = with_actor (post_journal_tx today entry)

abbrev pub find_journal : ℕ → Books → Option Journal
find_journal id b = find? (λ j. j.journal_id == id) b.journals

-- A line with debit and credit swapped: the counter-entry.
abbrev pub swapped : JournalLine → JournalLineInput
swapped l = record {
  code = l.code;
  asset_class = some l.asset_class;
  debit = some l.credit;
  credit = some l.debit;
}

-- The entry that `reverseJournal` posts, dated today.
abbrev pub reversal_of : Journal → JournalEntry
reversal_of orig = record { journal_date = none; lines = map swapped orig.lines }

abbrev pub mark_reversed : ℕ → ℕ → Books → Books
mark_reversed id by b = record b {
  journals =
      update_where (λ j. j.journal_id == id) (λ j. record j { reversed_by = some by }) b.journals;
}

-- `reverseJournal`
pub reverse_journal_tx : Date → ℕ → Tx Books ℕ
reverse_journal_tx today id = do
  orig ← or_throw (← query (find_journal id)) not_found
  throw_if (is_some orig.reversed_by) bad_request
  reversal ← post_journal_tx today (reversal_of orig)
  modify (mark_reversed id reversal)
  pure reversal

pub reverse_journal : Date → ℕ → Action Books ℕ
unfolding reverse_journal_tx
reverse_journal today id = with_actor (reverse_journal_tx today id)

abbrev set_closed : ℕ → ℕ → Books → Books
set_closed year month b = record b {
  periods = update_where (in_month year month) (λ p. record p { status = closed }) b.periods;
}

-- The transaction of `closePeriod`; the trial balance that it returns too is `trial_balance`.
pub close_period : ℕ → ℕ → Action Books (Unit {0})
close_period year month = with_actor do
  period ← or_throw (← query (find_period year month)) not_found
  throw_if (status_is_closed period.status) bad_request
  modify (set_closed year month)

-- The calls of the accounting layer that change a table, each with the date of its day.
pub data Call : Type 0 where
  posts : Date → JournalEntry → Call
  reverses : Date → ℕ → Call
  closes : ℕ → ℕ → Call

pub step : Call → Books → Books
step (posts today entry) b = (post_journal today entry b).1
step (reverses today id) b = (reverse_journal today id b).1
step (closes year month) b = (close_period year month b).1

-- The calls in turn; one that throws leaves the tables as they were.
pub run : List Call → Books → Books
run [] b = b
run (c ∷ cs) b = run cs (step c b)
