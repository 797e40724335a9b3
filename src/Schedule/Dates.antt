-- ===== src/Schedule/Dates.antt =====
-- What the rows of a schedule of src/modules/financial/financial.service.ts are.
use infraco_os.Common.{ℕ, ◌+◌, ◌*◌, false, ◌≡◌, List, [], ◌∷◌, ◌++◌, All, length}
use infraco_os.Common.Int.{ℤ, pos, ltb_ℤ}
use infraco_os.Database.Enums.{instalment, draft}
use infraco_os.Ledger.Tables.{Invoice}
use infraco_os.Office.{Reference, instalment_ref, uuid_head, Office}
use infraco_os.Lease.Billing.Same.{total_billed}
use infraco_os.Schedule.{Frequency, monthly, quarterly, GenerateSchedule}
use infraco_os.Schedule.Days.{IsMonthsLater}

-- A draft instalment of an account, of no negative amount.
pub record IsDraft (account : ℕ) (i : Invoice) : Type 0 where
  pub its_account : i.account_id ≡ account
  pub its_type : i.invoice_type ≡ instalment
  pub its_status : i.status ≡ draft
  pub its_amount : ltb_ℤ i.amount (pos 0) ≡ false

-- The months between the start of a schedule and its `k`th instalment.
abbrev pub months_until : Frequency → ℕ → ℕ
months_until monthly k = k
months_until quarterly k = 3 * k

-- The `k`th instalment: its reference carries the number, and it is due `k` periods after the start.
pub record IsNumbered (code : Reference → ℕ) (account : ℕ) (p : GenerateSchedule) (k : ℕ)
    (i : Invoice) : Type 0 where
  pub its_reference : i.reference ≡ code (instalment_ref (uuid_head account) k)
  pub its_due_date : IsMonthsLater p.start_date (months_until p.frequency k) i.due_date

-- The rows of a schedule, the last one first, are numbered on from `i + 1`.
abbrev pub IsDated : (Reference → ℕ) → ℕ → GenerateSchedule → ℕ → List Invoice → Type 0
IsDated code account p i [] = Unit {0}
IsDated code account p i (r ∷ rs) =
    IsNumbered code account p (i + length rs + 1) r × IsDated code account p i rs

-- New rows of the table of invoices, of a total amount and a number.
pub record Adds (account : ℕ) (amount : ℤ) (n : ℕ) (o t : Office) : Type 0 where
  pub rows : List Invoice
  pub table : t.fin.invoices ≡ rows ++ o.fin.invoices
  pub drafts : All (IsDraft account) rows
  pub amounts : total_billed rows ≡ amount
  pub count : length rows ≡ n
  pub customers : t.customers ≡ o.customers

-- Tables with the same accounts.
pub record KeepsAccounts (o t : Office) : Type 0 where
  pub account_rows : t.account_rows ≡ o.account_rows
  pub accounts : t.fin.accounts ≡ o.fin.accounts
  pub next_account_id : t.next_account_id ≡ o.next_account_id

-- New rows that are numbered and dated, and no new account.
abbrev pub Dates : (Reference → ℕ) → ℕ → GenerateSchedule → ℕ → ℤ → ℕ → Office → Office → Type 0
Dates code account p i amount n o t =
    (adds : Adds account amount n o t) × (IsDated code account p i adds.rows × KeepsAccounts o t)
