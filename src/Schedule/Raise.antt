-- ===== src/Schedule/Raise.antt =====
-- `raiseDueInstalments` of src/modules/financial/financial.service.ts. The order of texts in the
-- database, by which the query sorts references, is a parameter.
use infraco_os.Common.{
  ℕ, Bool, true, false, ◌&&◌, ◌||◌, none, some, List, [], ◌∷◌, find?, update_where, ltb, leb, ◌==◌,
  if◌then◌else◌,
}
use infraco_os.Database.Enums.{AssetClass, InvoiceType, instalment, InvoiceStatus, draft, issued}
use infraco_os.Database.Transaction.{Action, Tx, ◌>>=◌, ◌>>◌, pure, modify, with_actor, zoom}
use infraco_os.Accounting.{post_journal_tx}
use infraco_os.Accounting.Tables.{JournalEntry}
use infraco_os.Ledger.{in_books}
use infraco_os.Ledger.CoaMap.{
  receivables_code, asset_class_for_account_type, revenue_coa_for_invoice,
}
use infraco_os.Ledger.Position.{recompute_account}
use infraco_os.Ledger.Tables.{Day, Invoice}
use infraco_os.Office.{AccountRow, to_customer, instalment_due, Office, read}
use infraco_os.Office.Bills.{Platform, has_invoice_id, has_account_id, create_bill}
use infraco_os.Lease.Billing.{in_fin}

abbrev pub is_instalment : InvoiceType → Bool
is_instalment instalment = true
is_instalment _ = false

abbrev pub is_draft : InvoiceStatus → Bool
is_draft draft = true
is_draft _ = false

-- A draft instalment that is due on a day.
abbrev pub is_due : ℕ → Invoice → Bool
is_due as_of i = is_instalment i.invoice_type && (is_draft i.status && leb i.due_date as_of)

-- fin.invoice JOIN fin.account
abbrev pub with_account :
    Office → Invoice → List (Invoice × AccountRow) → List (Invoice × AccountRow)
with_account o i rest = elim (find? (has_account_id i.account_id) o.account_rows) [
  | none ↦ rest
  | some a ↦ (i, a) ∷ rest
]

unfoldable pub due_rows : ℕ → Office → List Invoice → List (Invoice × AccountRow)
due_rows as_of o [] = []
due_rows as_of o (i ∷ is) =
    let rest = due_rows as_of o is in if is_due as_of i then with_account o i rest else rest

-- ORDER BY i.due_date, i.reference
abbrev pub comes_first : (ℕ → ℕ → Bool) → Invoice → Invoice → Bool
comes_first before i j =
    ltb i.due_date j.due_date || (i.due_date == j.due_date) && before i.reference j.reference

unfoldable pub insert_due :
    (ℕ → ℕ → Bool)
    → Invoice × AccountRow
    → List (Invoice × AccountRow)
    → List (Invoice × AccountRow)
insert_due before x [] = x ∷ []
insert_due before x (y ∷ ys) =
    let rest = insert_due before x ys in if comes_first before x.0 y.0 then x ∷ y ∷ ys else y ∷ rest

unfoldable pub sort_due : (ℕ → ℕ → Bool) → List (Invoice × AccountRow) → List (Invoice × AccountRow)
unfolding insert_due
sort_due before [] = []
sort_due before (x ∷ xs) = insert_due before x (sort_due before xs)

abbrev pub issue : Invoice → Invoice
issue i = record i { status = if is_draft i.status then issued else i.status }

-- Revenue recognised on issue: the debtor up, the revenue up.
abbrev pub revenue_entry : Day → Invoice → AssetClass → JournalEntry
revenue_entry as_of i class = record {
  journal_date = some as_of.date;
  lines =
      record {
        code = receivables_code;
        asset_class = some class;
        debit = some i.amount;
        credit = none;
      }
      ∷ record {
        code = revenue_coa_for_invoice i.invoice_type class;
        asset_class = some class;
        debit = none;
        credit = some i.amount;
      }
      ∷ [];
}

abbrev pub issue_row : ℕ → Office → Office
issue_row id o = record o {
  fin = record o.fin { invoices = update_where (has_invoice_id id) issue o.fin.invoices };
}

unfoldable pub issue_tx : Day → Invoice × AccountRow → Tx Office ℕ
unfolding asset_class_for_account_type revenue_coa_for_invoice
issue_tx as_of (i, a) = do
  modify (issue_row i.invoice_id)
  modify (λ o. record o {
    notices =
        record {
          recipient = to_customer a.customer_id;
          template = instalment_due;
          about = i.reference;
        }
        ∷ o.notices;
  })
  zoom (λ o. o.fin) (λ f o. record o { fin = f })
      (in_books (
        post_journal_tx as_of.date
          (revenue_entry as_of i (asset_class_for_account_type a.account_type))))

-- One round: what it issues stays issued, whatever becomes of its bill.
unfoldable pub raise_one : Platform → Day → Invoice × AccountRow → Action Office ℕ
unfolding issue_tx create_bill recompute_account
raise_one platform as_of (i, a) = do
  with_actor (issue_tx as_of (i, a))
  create_bill platform i.invoice_id
  in_fin (recompute_account i.account_id as_of.number)
  pure i.invoice_id

unfoldable pub raise_all : Platform → Day → List (Invoice × AccountRow) → Action Office (List ℕ)
unfolding raise_one
raise_all platform as_of [] = pure []
raise_all platform as_of (x ∷ xs) = do
  this ← raise_one platform as_of x
  rest ← raise_all platform as_of xs
  pure (this ∷ rest)

-- `raiseDueInstalments(params)`: the invoices raised.
unfoldable pub raise_due_instalments : Platform → (ℕ → ℕ → Bool) → Day → Action Office (List ℕ)
unfolding due_rows sort_due raise_all
raise_due_instalments platform before as_of = do
  due ← read (λ o. due_rows as_of.number o o.fin.invoices)
  raise_all platform as_of (sort_due before due)
