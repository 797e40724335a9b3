-- ===== src/Lease/Roll.antt =====
-- The rent roll: `getRentRoll` of src/modules/lease/lease.service.ts. Amounts are whole cents, so they
-- are their own rounding; names and the order of rows, by name, are left out.
pub mod Partition
use infraco_os.Common.{
  ℕ, ◌+◌, ◌-◌, Bool, true, false, not, ◌&&◌, Option, none, some, List, [], ◌∷◌, ◌++◌, map, exists,
  where_rows, find?, length, max, ltb, ◌==◌, if◌then◌else◌,
}
use infraco_os.Common.Int.{ℤ, pos, ◌+ℤ◌}
use infraco_os.Common.Result.{Result, ok, err, ◌>>=◌}
use infraco_os.Database.Enums.{Error, CurrencyCode, TxnType, debit, credit}
use infraco_os.Instalment.{ArrearsRisk, current, arrears_bucket}
use infraco_os.Ledger.Position.{of_account, in_arrears, sum_where, days_in_arrears, unpaid}
use infraco_os.Ledger.Tables.{Invoice, LedgerEntry, Fin}
use infraco_os.Office.{Customer, Office, has_customer}
use infraco_os.Rent.{Text, billing_period_key}
use infraco_os.Lease.{Calendar, Premises, Lease, Estate, is_active, as_date}
use infraco_os.Lease.Rows.{cast_text}

-- What the tables leave out: `date_trunc('month', …)` of a day, the day on which a ledger entry was
-- posted and that on which an invoice was created.
pub record Clock : Type 0 where
  pub month_of : ℕ → ℕ
  pub posted_on : LedgerEntry → ℕ
  pub created_on : Invoice → ℕ

-- A row of the roll.
pub record RollRow : Type 0 where
  pub premises_id : ℕ
  pub vacant : Bool
  pub lease_id : Option ℕ
  pub tenant : Option ℕ
  pub monthly_rent : Option ℤ
  pub currency : Option CurrencyCode
  pub last_invoice_date : Option ℕ
  pub billed_this_month : ℤ
  pub collected : ℤ
  pub arrears_total : ℤ
  pub days_overdue : ℕ
  pub risk_category : ArrearsRisk

-- WHERE i.account_id = l.account_id, which no row meets where the account is null.
abbrev pub of_lease : Lease → ℕ → Bool
of_lease l id = elim l.account_id [ none ↦ false | some a ↦ id == a ]

abbrev pub is_credit : TxnType → Bool
is_credit debit = false
is_credit credit = true

-- COALESCE((SELECT sum(le.amount) … WHERE p), 0)
abbrev pub sum_entries : (LedgerEntry → Bool) → List LedgerEntry → ℤ
sum_entries p [] = pos 0
sum_entries p (e ∷ es) = if p e then e.amount +ℤ sum_entries p es else sum_entries p es

abbrev max_option : ℕ → Option ℕ → Option ℕ
max_option d none = some d
max_option d (some e) = some (max d e)

-- max(i.created_at)::date
abbrev latest : Clock → (Invoice → Bool) → List Invoice → Option ℕ
latest clock p [] = none
latest clock p (i ∷ is) =
    if p i then max_option (clock.created_on i) (latest clock p is) else latest clock p is

-- The sums over the arrears of a lease's account; a lease without one has none.
abbrev arrears_of : Option ℕ → ℕ → List Invoice → ℤ
arrears_of none today is = pos 0
arrears_of (some a) today is = sum_where (in_arrears a today) unpaid is

abbrev overdue_of : Option ℕ → ℕ → List Invoice → ℕ
overdue_of none today is = 0
overdue_of (some a) today is = days_in_arrears a today is

-- A row of an active lease.
unfoldable pub lease_row : Clock → ℕ → Fin → Lease → RollRow
unfolding sum_where days_in_arrears
lease_row clock today f l = record {
  premises_id = l.premises_id;
  vacant = false;
  lease_id = some l.lease_id;
  tenant = some l.tenant_id;
  monthly_rent = some l.rent_amount;
  currency = some l.currency;
  last_invoice_date = latest clock (λ i. of_lease l i.account_id) f.invoices;
  billed_this_month =
      sum_where
        (λ i. of_lease l i.account_id && (clock.month_of i.due_date == clock.month_of today))
        (λ i. i.amount) f.invoices;
  collected =
      sum_entries
        (λ e.
          of_lease l e.account_id
          && (is_credit e.txn_type && (clock.month_of (clock.posted_on e) == clock.month_of today)))
        f.ledger;
  arrears_total = arrears_of l.account_id today f.invoices;
  days_overdue = overdue_of l.account_id today f.invoices;
  risk_category = arrears_bucket (pos (overdue_of l.account_id today f.invoices));
}

abbrev pub vacant_row : Premises → RollRow
vacant_row p = record {
  premises_id = p.premises_id;
  vacant = true;
  lease_id = none;
  tenant = none;
  monthly_rent = none;
  currency = none;
  last_invoice_date = none;
  billed_this_month = pos 0;
  collected = pos 0;
  arrears_total = pos 0;
  days_overdue = 0;
  risk_category = current;
}

abbrev pub has_premises_id : ℕ → Premises → Bool
has_premises_id id p = p.premises_id == id

-- lease.lease JOIN lease.premises JOIN fin.customer WHERE status = 'active'
abbrev pub is_let : Estate → Lease → Bool
is_let e l =
    is_active l.status
    && (exists (has_premises_id l.premises_id) e.premises
        && exists (has_customer l.tenant_id) e.office.customers)

-- NOT EXISTS (SELECT 1 FROM lease.lease l WHERE … AND l.status = 'active')
abbrev pub is_vacant : Estate → Premises → Bool
is_vacant e p = not (exists (λ l. is_active l.status && (l.premises_id == p.premises_id)) e.leases)

pub record Summary : Type 0 where
  pub occupied : ℕ
  pub vacant : ℕ
  pub total_billed_this_month : ℤ
  pub total_collected : ℤ
  pub total_arrears : ℤ

pub record Roll : Type 0 where
  pub period : Text
  pub rows : List RollRow
  pub summary : Summary

-- rows.reduce((a, r) => a + …, 0)
abbrev pub sum_rows : (RollRow → ℤ) → List RollRow → ℤ
sum_rows v [] = pos 0
sum_rows v (r ∷ rs) = v r +ℤ sum_rows v rs

unfoldable pub roll_rows : Clock → ℕ → Estate → List RollRow
unfolding lease_row
roll_rows clock today e =
    map (lease_row clock today e.office.fin) (where_rows (is_let e) e.leases)
    ++ map vacant_row (where_rows (is_vacant e) e.premises)

-- `getRentRoll(asOf)`, at the date that the request gives or else today's.
unfoldable pub get_rent_roll : Calendar → Clock → Text → Estate → Result Error Roll
unfolding as_date billing_period_key roll_rows
get_rent_roll cal clock as_of_iso e = do
  as_of ← as_date as_of_iso
  period ← billing_period_key as_of
  today ← cast_text cal as_of
  let rows = roll_rows clock today e
  ok (record {
    period = period;
    rows = rows;
    summary = record {
      occupied = length (where_rows (is_let e) e.leases);
      vacant = length (where_rows (is_vacant e) e.premises);
      total_billed_this_month = sum_rows (λ r. r.billed_this_month) rows;
      total_collected = sum_rows (λ r. r.collected) rows;
      total_arrears = sum_rows (λ r. r.arrears_total) rows;
    };
  })
