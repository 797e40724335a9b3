-- ===== src/Ledger/Report.antt =====
-- The queries of the ledger: `getAccountLedger` and `reconciliationReport` of
-- src/modules/financial/ledger.service.ts. Newest rows stand first in a table.
use infraco_os.Common.{
  ℕ, Bool, true, false, not, ◌&&◌, List, [], ◌∷◌, ◌++◌, ◌==◌, if◌then◌else◌, where_rows, is_some,
}
use infraco_os.Common.Int.{ℤ, pos, ◌+ℤ◌, eqb_ℤ}
use infraco_os.Database.Enums.{PaymentMethod, adjustment, TxnType, credit, debit}
use infraco_os.Ledger.Tables.{Account, Invoice, LedgerEntry, SuspenseItem, Fin}
use infraco_os.Ledger.Position.{of_account, sum_where}

abbrev oldest_first {ℓ} : {A : Type ℓ} → List A → List A
oldest_first [] = []
oldest_first (x ∷ xs) = oldest_first xs ++ x ∷ []

-- `getAccountLedger`
unfoldable pub get_account_ledger : ℕ → Fin → List LedgerEntry
get_account_ledger account f = oldest_first (where_rows (λ e. e.account_id == account) f.ledger)

abbrev is_credit : TxnType → Bool
is_credit credit = true
is_credit debit = false

abbrev pub is_adjustment : PaymentMethod → Bool
is_adjustment adjustment = true
is_adjustment _ = false

-- txn_type = 'credit' AND payment_method <> 'adjustment' AND invoice_id IS NOT NULL
abbrev pub is_invoice_payment : ℕ → LedgerEntry → Bool
is_invoice_payment account e =
    e.account_id == account
    && is_credit e.txn_type
    && not (is_adjustment e.payment_method)
    && is_some e.invoice_id

-- COALESCE(l.paid, 0)
unfoldable pub ledger_paid : ℕ → List LedgerEntry → ℤ
ledger_paid account [] = pos 0
ledger_paid account (e ∷ es) =
    if is_invoice_payment account e
    then e.amount +ℤ ledger_paid account es
    else ledger_paid account es

-- COALESCE(iv.paid, 0)
unfoldable pub invoice_paid : ℕ → List Invoice → ℤ
unfolding sum_where
invoice_paid account is = sum_where (of_account account) (λ i. i.amount_paid) is

pub record Discrepancy : Type 0 where
  pub account_id : ℕ
  pub ledger_paid : ℤ
  pub invoice_paid : ℤ

unfoldable pub discrepancies_of : List Account → Fin → List Discrepancy
discrepancies_of [] f = []
discrepancies_of (a ∷ accounts) f =
    let l = ledger_paid a.account_id f.ledger in
    let i = invoice_paid a.account_id f.invoices in
    let rest = discrepancies_of accounts f in
    if eqb_ℤ l i
    then rest
    else record { account_id = a.account_id; ledger_paid = l; invoice_paid = i } ∷ rest

abbrev sum_amounts : ℤ → List SuspenseItem → ℤ
sum_amounts total [] = total
sum_amounts total (s ∷ ss) = sum_amounts (total +ℤ s.amount) ss

pub record ReconciliationReport : Type 0 where
  pub discrepancies : List Discrepancy
  pub unresolved_suspense : List SuspenseItem
  pub suspense_total : ℤ

pub unresolved : Fin → List SuspenseItem
unresolved f = oldest_first (where_rows (λ s. not s.resolved) f.suspense)

-- `reconciliationReport`
unfoldable pub reconciliation_report : Fin → ReconciliationReport
unfolding discrepancies_of unresolved
reconciliation_report f = record {
  discrepancies = discrepancies_of f.accounts f;
  unresolved_suspense = unresolved f;
  suspense_total = sum_amounts (pos 0) (unresolved f);
}
