-- ===== src/Ledger/Payment.antt =====
-- What `postPaymentTx` has done when it returns.
use infraco_os.Common.{
  ℕ, suc, ◌≡◌, refl, inl, inr, arith, true, false, some, ◌∷◌, update_where, Option-cases,
  Bool-cases,
}
use infraco_os.Common.Int.{pos, ◌+ℤ◌, ltb_ℤ}
use infraco_os.Common.Keys.{has_key}
use infraco_os.Common.Result.{ok, Result-cases}
use infraco_os.Database.Enums.{InvoiceStatus}
use infraco_os.Database.Transaction.{TxState, begin}
use infraco_os.Database.Transaction.Laws.{Action-cases}
use infraco_os.Accounting.Tables.{Books}
use infraco_os.Accounting.{post_journal_tx}
use infraco_os.Accounting.Valid.Posting.{IsPosted, post_journal_tx-eq-ok}
use infraco_os.Ledger.Tables.{Day, Invoice, LedgerEntry, Fin, PostPaymentParams, posted}
use infraco_os.Ledger.{
  find_invoice, has_account, txn_taken, with_entry, insert_entry, set_paid, update_paid,
  payment_row, payment_entry, status_after, settle_invoice, post_payment_tx,
}

-- A row that is inserted has an amount of 0 or more, a transaction that no row has, and an account.
pub record IsInserted (row : ℕ → LedgerEntry) (f : Fin) (id : ℕ) (f' : Fin) : Type 0 where
  pub amount : ltb_ℤ (row f.next_ledger_id).amount (pos 0) ≡ false
  pub new : txn_taken (row f.next_ledger_id).platform_txn_id f.ledger ≡ false
  pub account : has_account (row f.next_ledger_id).account_id f ≡ true
  pub id_eq : id ≡ f.next_ledger_id
  pub state : f' ≡ with_entry (row f.next_ledger_id) f

pub insert_entry-eq-ok :
    (row : ℕ → LedgerEntry) (f : Fin) {id : ℕ} {f' : Fin}
    → insert_entry row f ≡ ok (id, f')
    → IsInserted row f id f'
unfolding insert_entry
insert_entry-eq-ok row f h = elim (Bool-cases (ltb_ℤ (row f.next_ledger_id).amount (pos 0))) [
  | inl p ↦ absurd (ground arith)
  | inr p ↦ elim (Bool-cases (txn_taken (row f.next_ledger_id).platform_txn_id f.ledger)) [
    | inl q ↦ absurd (ground arith)
    | inr q ↦ elim (Bool-cases (has_account (row f.next_ledger_id).account_id f)) [
      | inr r ↦ absurd (ground arith)
      | inl r ↦ record {
        amount = p;
        new = q;
        account = r;
        id_eq = ground arith;
        state = ground arith;
      }
    ]
  ]
]

-- The tables after a payment: one entry more, one invoice updated, and the books of the journal.
abbrev pub after_payment : PostPaymentParams → Invoice → Fin → Books → Fin
after_payment p inv f books = record f {
  books = books;
  invoices =
      update_where (has_key (λ i. i.invoice_id) p.invoice_id)
        (set_paid (inv.amount_paid +ℤ p.amount) (status_after inv (inv.amount_paid +ℤ p.amount)))
        f.invoices;
  ledger = payment_row p f.next_ledger_id ∷ f.ledger;
  next_ledger_id = suc f.next_ledger_id;
}

pub record IsPaid (today : Day) (p : PostPaymentParams) (f : Fin) (id : ℕ) (s : InvoiceStatus)
    (f' : Fin) : Type 0 where
  pub invoice : Invoice
  pub books : Books
  pub journal : ℕ
  pub found : find_invoice p.invoice_id f ≡ some invoice
  pub amount : ltb_ℤ p.amount (pos 0) ≡ false
  pub new : txn_taken p.platform_txn_id f.ledger ≡ false
  pub id_eq : id ≡ f.next_ledger_id
  pub status : s ≡ status_after invoice (invoice.amount_paid +ℤ p.amount)
  pub booked : IsPosted today.date (payment_entry p.amount) f.books journal books
  pub state : f' ≡ after_payment p invoice f books

-- A payment that is posted ran to its end in a transaction that has not failed.
pub post_payment_tx-posted :
    (today : Day) (p : PostPaymentParams) (f : Fin) {id : ℕ} {s : InvoiceStatus} {t : TxState Fin}
    → post_payment_tx today p (begin f) ≡ (ok (posted id s), t)
    → (f' : Fin) × (t ≡ begin f') × IsPaid today p f id s f'
unfolding post_payment_tx settle_invoice update_paid
post_payment_tx-posted today p f {id} {s} h = elim (Option-cases (find_invoice p.invoice_id f)) [
  | inl q ↦ absurd (ground arith)
  | inr (inv, q) ↦ elim (Result-cases (insert_entry (payment_row p) f)) [
    | inr (e, r) ↦ absurd (ground arith)
    | inl ((n, f1), r) ↦
        let i = insert_entry-eq-ok (payment_row p) f r in
        let same : f1 ≡ with_entry (payment_row p f.next_ledger_id) f = i.state in
        let ide : n ≡ f.next_ledger_id = i.id_eq in
        let paid = inv.amount_paid +ℤ p.amount in
        elim (Bool-cases (ltb_ℤ paid (pos 0))) [
          | inl u ↦ absurd (ground arith)
          | inr u ↦
              elim (Action-cases (post_journal_tx today.date (payment_entry p.amount))
                (begin f.books)) [
                  | inr (e, v, w) ↦ absurd (ground arith)
                  | inl (j, v, w) ↦
                      let (books, at, booked) =
                        post_journal_tx-eq-ok today.date (payment_entry p.amount) f.books w in
                      let idn : id ≡ n = ground arith in
                      (
                        after_payment p inv f books,
                        ground arith,
                        record {
                          invoice = inv;
                          books = books;
                          journal = j;
                          found = q;
                          amount = i.amount;
                          new = i.new;
                          id_eq = omega (arith, idn, ide);
                          status = ground arith;
                          booked = booked;
                          state = refl;
                        },
                      )
                ]
        ]
  ]
]
