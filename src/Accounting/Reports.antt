-- ===== src/Accounting/Reports.antt =====
-- The reports of src/modules/financial/accounting.service.ts: `trialBalance`, `profitAndLoss` and
-- `balanceSheet`. A query groups the lines of the journals by the account of their code.
use infraco_os.Common.{
  ℕ, ◌*◌, Bool, true, ◌&&◌, ◌||◌, Option, none, some, List, [], ◌∷◌, ◌++◌, leb, ltb, ◌==◌,
  if◌then◌else◌,
}
use infraco_os.Common.Int.{ℤ, pos, ◌+ℤ◌, ◌-ℤ◌, eqb_ℤ, abs_ℕ}
use infraco_os.Database.Enums.{
  AccountClass, asset, liability, equity, revenue, cogs, opex, capex, finance_cost, AssetClass,
  residential, agro, commercial, utilities, projects, group,
}
use infraco_os.Accounting.Tables.{Date, CoaAccount, JournalLine, Journal, Books}
use infraco_os.Accounting.{find_code}

-- A line with the date of its journal, where the join finds one.
pub record DatedLine : Type 0 where
  pub line : JournalLine
  pub date : Option Date

-- extract(year …) = $1 AND ($2 IS NULL OR extract(month …) = $2)
abbrev pub in_period : ℕ → Option ℕ → Date → Bool
in_period year none d = d.year == year
in_period year (some month) d = d.year == year && d.month == month

abbrev pub date_lines : Option Date → List JournalLine → List DatedLine
date_lines date [] = []
date_lines date (l ∷ ls) = record { line = l; date = date } ∷ date_lines date ls

-- LEFT JOIN fin.journal … AND the period: a line of another period stays, without a journal.
unfoldable pub left_join : ℕ → Option ℕ → List Journal → List DatedLine
left_join year month [] = []
left_join year month (j ∷ js) =
    date_lines (if in_period year month j.journal_date then some j.journal_date else none) j.lines
    ++ left_join year month js

-- SUM over the lines of an account.
abbrev pub sum_code : (JournalLine → ℤ) → ℕ → List DatedLine → ℤ
sum_code amount code [] = pos 0
sum_code amount code (d ∷ ds) =
    if d.line.code == code
    then amount d.line +ℤ sum_code amount code ds
    else sum_code amount code ds

pub record TrialBalanceRow : Type 0 where
  pub code : ℕ
  pub debit : ℤ
  pub credit : ℤ

-- The rows, without those that HAVING drops.
unfoldable pub trial_balance_rows : List DatedLine → List CoaAccount → List TrialBalanceRow
trial_balance_rows ds [] = []
trial_balance_rows ds (c ∷ cs) =
    let debit = sum_code (λ l. l.debit) c.code ds in
    let credit = sum_code (λ l. l.credit) c.code ds in
    let rest = trial_balance_rows ds cs in
    if eqb_ℤ debit (pos 0) && eqb_ℤ credit (pos 0)
    then rest
    else record { code = c.code; debit = debit; credit = credit } ∷ rest

abbrev pub total_of : (TrialBalanceRow → ℤ) → List TrialBalanceRow → ℤ
total_of amount [] = pos 0
total_of amount (r ∷ rs) = amount r +ℤ total_of amount rs

-- `Math.abs(a - b) <= EPSILON`, half a cent.
abbrev pub within_epsilon : ℤ → ℤ → Bool
within_epsilon a b = leb (2 * abs_ℕ (a -ℤ b)) 1

pub record TrialBalance : Type 0 where
  pub rows : List TrialBalanceRow
  pub total_debit : ℤ
  pub total_credit : ℤ
  pub balanced : Bool

abbrev pub totals : List TrialBalanceRow → TrialBalance
totals rows = record {
  rows = rows;
  total_debit = total_of (λ r. r.debit) rows;
  total_credit = total_of (λ r. r.credit) rows;
  balanced = within_epsilon (total_of (λ r. r.debit) rows) (total_of (λ r. r.credit) rows);
}

-- `trialBalance`
unfoldable pub trial_balance : ℕ → Option ℕ → Books → TrialBalance
unfolding trial_balance_rows left_join
trial_balance year month b = totals (trial_balance_rows (left_join year month b.journals) b.coa)

abbrev pub asset_class_index : AssetClass → ℕ
asset_class_index residential = 0
asset_class_index agro = 1
asset_class_index commercial = 2
asset_class_index utilities = 3
asset_class_index projects = 4
asset_class_index group = 5

-- $2::fin.asset_class IS NULL OR jl.asset_class = $2
abbrev pub of_class : Option AssetClass → JournalLine → Bool
of_class none l = true
of_class (some c) l = asset_class_index l.asset_class == asset_class_index c

-- A date on or before another.
abbrev pub on_or_before : Date → Date → Bool
on_or_before a b =
    ltb a.year b.year
    || (a.year == b.year && (ltb a.month b.month || (a.month == b.month && leb a.day b.day)))

pub record BalanceSheet : Type 0 where
  pub assets : ℤ
  pub liabilities : ℤ
  pub equity_total : ℤ
  pub retained_earnings : ℤ

abbrev pub empty_sheet : BalanceSheet
empty_sheet = record {
  assets = pos 0;
  liabilities = pos 0;
  equity_total = pos 0;
  retained_earnings = pos 0;
}

-- The `switch` on the account class, with the net debit of a row.
unfoldable pub add_to_sheet : AccountClass → ℤ → BalanceSheet → BalanceSheet
add_to_sheet asset net s = record s { assets = s.assets +ℤ net }
add_to_sheet capex net s = record s { assets = s.assets +ℤ net }
add_to_sheet liability net s = record s { liabilities = s.liabilities -ℤ net }
add_to_sheet equity net s = record s { equity_total = s.equity_total -ℤ net }
add_to_sheet revenue net s = record s { retained_earnings = s.retained_earnings -ℤ net }
add_to_sheet cogs net s = record s { retained_earnings = s.retained_earnings -ℤ net }
add_to_sheet opex net s = record s { retained_earnings = s.retained_earnings -ℤ net }
add_to_sheet finance_cost net s = record s { retained_earnings = s.retained_earnings -ℤ net }

-- A row of the join: the class of the account, and debit - credit.
pub record ClassAmount : Type 0 where
  pub account_class : AccountClass
  pub net_debit : ℤ

-- The inner join of the lines with their accounts, under the filter on the asset class.
unfoldable pub join_lines :
    List CoaAccount → Option AssetClass → List JournalLine → List ClassAmount
join_lines coa class [] = []
join_lines coa class (l ∷ ls) =
    let rest = join_lines coa class ls in
    elim (find_code l.code coa) [
      | none ↦ rest
      | some c ↦
          if of_class class l
          then record { account_class = c.account_class; net_debit = l.debit -ℤ l.credit } ∷ rest
          else rest
    ]

-- WHERE j.journal_date <= $1
unfoldable pub join_journals :
    List CoaAccount → Option AssetClass → Date → List Journal → List ClassAmount
unfolding join_lines
join_journals coa class as_of [] = []
join_journals coa class as_of (j ∷ js) =
    let rest = join_journals coa class as_of js in
    if on_or_before j.journal_date as_of then join_lines coa class j.lines ++ rest else rest

abbrev pub account_class_index : AccountClass → ℕ
account_class_index asset = 0
account_class_index liability = 1
account_class_index equity = 2
account_class_index revenue = 3
account_class_index cogs = 4
account_class_index opex = 5
account_class_index capex = 6
account_class_index finance_cost = 7

-- SUM(jl.debit - jl.credit) of a class.
abbrev pub sum_class : AccountClass → List ClassAmount → ℤ
sum_class c [] = pos 0
sum_class c (r ∷ rs) =
    if account_class_index r.account_class == account_class_index c
    then r.net_debit +ℤ sum_class c rs
    else sum_class c rs

abbrev pub account_classes : List AccountClass
account_classes = asset ∷ liability ∷ equity ∷ revenue ∷ cogs ∷ opex ∷ capex ∷ finance_cost ∷ []

-- The loop over the groups; a class without lines adds 0.
unfoldable pub sheet_of : List AccountClass → List ClassAmount → BalanceSheet → BalanceSheet
unfolding add_to_sheet
sheet_of [] rows s = s
sheet_of (c ∷ cs) rows s = sheet_of cs rows (add_to_sheet c (sum_class c rows) s)

-- `balanceSheet`, without its `balanced`.
unfoldable pub balance_sheet : Date → Option AssetClass → Books → BalanceSheet
unfolding join_journals sheet_of
balance_sheet as_of class b =
    sheet_of account_classes (join_journals b.coa class as_of b.journals) empty_sheet

abbrev pub sheet_is_balanced : BalanceSheet → Bool
sheet_is_balanced s =
    within_epsilon s.assets (s.liabilities +ℤ s.equity_total +ℤ s.retained_earnings)
