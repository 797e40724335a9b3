-- ===== src/Ledger.antt =====
-- The unified ledger: src/modules/financial/ledger.service.ts. Amounts are whole cents.
pub mod Tables
pub mod CoaMap
pub mod Position
pub mod Adjustment
pub mod Payment
pub mod Settled
pub mod Duplicate
pub mod History
pub mod Report
pub mod Reconciliation
pub mod Recompute
pub mod Clean
pub mod Authority
pub mod Samples
mod Tests
use infraco_os.Common.{
  ℕ, suc, Bool, true, false, not, ◌&&◌, ◌||◌, Option, none, some, List, [], ◌∷◌, ◌==◌,
  if◌then◌else◌, find?, exists, update_where,
}
use infraco_os.Common.Int.{ℤ, pos, ◌+ℤ◌, ltb_ℤ, leb_ℤ}
use infraco_os.Common.Keys.{has_key}
use infraco_os.Common.Result.{Result, ok, err}
use infraco_os.Database.Enums.{
  Error, not_found, bad_request, unique_violation, check_violation, foreign_key_violation,
  InvoiceStatus, paid, partially_paid, CurrencyCode, PaymentMethod, adjustment, TxnType, credit,
}
use infraco_os.Database.Transaction.{
  Action, Tx, ◌>>=◌, ◌>>◌, pure, throw, throw_if, or_throw, statement, query, modify, attempt,
  with_actor, zoom,
}
use infraco_os.Accounting.Tables.{Books, JournalEntry}
use infraco_os.Accounting.{post_journal_tx}
use Tables.{
  Day, Account, Invoice, LedgerEntry, SuspenseItem, Fin, PostPaymentParams, PostPaymentResult,
  duplicated, posted,
}
use CoaMap.{debit_line, credit_line, cash_code, receivables_code}

abbrev pub find_invoice : ℕ → Fin → Option Invoice
find_invoice id f = find? (has_key (λ i. i.invoice_id) id) f.invoices

abbrev pub has_account : ℕ → Fin → Bool
has_account id f = exists (λ a. a.account_id == id) f.accounts

-- Whether an entry carries a given platform transaction.
abbrev pub has_txn : ℕ → LedgerEntry → Bool
has_txn txn e = elim e.platform_txn_id [ none ↦ false | some t ↦ t == txn ]

-- uq_ledger_platform_txn: an id that is not null stands in one row.
abbrev pub txn_taken : Option ℕ → List LedgerEntry → Bool
txn_taken none es = false
txn_taken (some txn) es = exists (has_txn txn) es

abbrev pub with_entry : LedgerEntry → Fin → Fin
with_entry e f = record f { ledger = e ∷ f.ledger; next_ledger_id = suc f.next_ledger_id }

-- INSERT INTO fin.ledger_entry, under the CHECK, the unique index and the foreign key.
pub insert_entry : (ℕ → LedgerEntry) → Fin → Result Error (ℕ × Fin)
insert_entry row f =
    let e = row f.next_ledger_id in
    if ltb_ℤ e.amount (pos 0)
    then err check_violation
    else if txn_taken e.platform_txn_id f.ledger
    then err unique_violation
    else if has_account e.account_id f
    then ok (f.next_ledger_id, with_entry e f)
    else err foreign_key_violation

abbrev pub set_paid : ℤ → InvoiceStatus → Invoice → Invoice
set_paid amount status i = record i { amount_paid = amount; status = status }

-- UPDATE fin.invoice SET amount_paid, status, under the CHECK on amount_paid.
pub update_paid : ℕ → ℤ → InvoiceStatus → Fin → Result Error (Unit {0} × Fin)
update_paid id amount status f =
    if ltb_ℤ amount (pos 0)
    then err check_violation
    else ok (
      tt,
      record f {
        invoices =
            update_where (has_key (λ i. i.invoice_id) id) (set_paid amount status) f.invoices;
      },
    )

-- `isUnique(err, …)`
abbrev pub is_unique : Error → Bool
is_unique unique_violation = true
is_unique _ = false

-- A transaction on the accounting tables, inside one on the ledger.
abbrev pub in_books : {A : Type 0} → Tx Books A → Tx Fin A
in_books = zoom (λ f. f.books) (λ b f. record f { books = b })

abbrev pub payment_row : PostPaymentParams → ℕ → LedgerEntry
payment_row p id = record {
  ledger_id = id;
  account_id = p.account_id;
  invoice_id = some p.invoice_id;
  txn_type = credit;
  amount = p.amount;
  currency = p.currency;
  payment_method = p.payment_method;
  platform_txn_id = p.platform_txn_id;
}

-- Cash received, receivable cleared.
abbrev pub payment_entry : ℤ → JournalEntry
payment_entry amount = record {
  journal_date = none;
  lines = debit_line cash_code amount ∷ credit_line receivables_code amount ∷ [];
}

-- 'paid' from the full amount on, 'partially_paid' below.
abbrev pub status_after : Invoice → ℤ → InvoiceStatus
status_after i new_paid = if leb_ℤ i.amount new_paid then paid else partially_paid

-- What follows the insertion of the ledger entry.
pub settle_invoice : Day → PostPaymentParams → Invoice → ℕ → Tx Fin PostPaymentResult
settle_invoice today p inv ledger_id = do
  let new_paid = inv.amount_paid +ℤ p.amount
  statement (update_paid p.invoice_id new_paid (status_after inv new_paid))
  in_books (post_journal_tx today.date (payment_entry p.amount))
  pure (posted ledger_id (status_after inv new_paid))

-- The two ends of the `try` round the insertion.
pub after_insert : Day → PostPaymentParams → Invoice → Result Error ℕ → Tx Fin PostPaymentResult
after_insert today p inv (err e) = if is_unique e then pure duplicated else throw e
after_insert today p inv (ok ledger_id) = settle_invoice today p inv ledger_id

-- `postPaymentTx`
pub post_payment_tx : Day → PostPaymentParams → Tx Fin PostPaymentResult
unfolding after_insert
post_payment_tx today p = do
  inv ← or_throw (← query (find_invoice p.invoice_id)) not_found
  inserted ← attempt (statement (insert_entry (payment_row p)))
  after_insert today p inv inserted

-- `parkSuspenseTx`: INSERT … ON CONFLICT (platform_txn_id) DO NOTHING.
unfoldable pub park_suspense : ℕ → ℤ → CurrencyCode → Fin → Fin
park_suspense txn amount currency f =
    if exists (λ s. s.platform_txn_id == txn) f.suspense then f else record f {
      suspense =
          record {
            suspense_id = f.next_suspense_id;
            platform_txn_id = txn;
            amount = amount;
            currency = currency;
            resolved = false;
          }
          ∷ f.suspense;
      next_suspense_id = suc f.next_suspense_id;
    }

unfoldable pub park_suspense_tx : ℕ → ℤ → CurrencyCode → Tx Fin (Unit {0})
unfolding park_suspense
park_suspense_tx txn amount currency = modify (park_suspense txn amount currency)

abbrev pub find_suspense : ℕ → Fin → Option SuspenseItem
find_suspense id f = find? (has_key (λ s. s.suspense_id) id) f.suspense

abbrev pub mark_resolved : ℕ → Fin → Fin
mark_resolved id f = record f {
  suspense =
      update_where (has_key (λ s. s.suspense_id) id) (λ s. record s { resolved = true }) f.suspense;
}

-- The payment that `resolveSuspense` posts for an item.
abbrev pub suspense_payment : SuspenseItem → ℕ → ℕ → PostPaymentParams
suspense_payment s account_id invoice_id = record {
  account_id = account_id;
  invoice_id = invoice_id;
  amount = s.amount;
  currency = s.currency;
  payment_method = adjustment;
  platform_txn_id = some s.platform_txn_id;
}

-- The transaction of `resolveSuspense`.
pub resolve_suspense_tx : Day → ℕ → ℕ → ℕ → Tx Fin PostPaymentResult
resolve_suspense_tx today suspense_id account_id invoice_id = do
  s ← or_throw (← query (find_suspense suspense_id)) not_found
  throw_if s.resolved bad_request
  post ← post_payment_tx today (suspense_payment s account_id invoice_id)
  modify (mark_resolved suspense_id)
  pure post
