-- ===== src/Ledger/Settled.antt =====
-- What a payment that is posted changes: its invoice, the ledger, and no other invoice.
use infraco_os.Common.{
  ℕ, ◌≡◌, ◌≢◌, ◌↔◌, refl, sym, subst, ap, arith, some, ◌∷◌, find?, update_where,
}
use infraco_os.Common.Int.{ℤ, ◌+ℤ◌, ◌≤ℤ◌}
use infraco_os.Common.Keys.{has_key, find?-update_self, find?-update_ne}
use infraco_os.Common.Result.{ok}
use infraco_os.Database.Enums.{InvoiceStatus, paid}
use infraco_os.Database.Transaction.{TxState, begin}
use infraco_os.Ledger.Tables.{Day, Invoice, Fin, PostPaymentParams, posted}
use infraco_os.Ledger.{find_invoice, set_paid, payment_row, status_after, post_payment_tx}
use infraco_os.Ledger.Payment.{after_payment, post_payment_tx-posted}

-- The invoice is raised by the amount and has the given status; the others are as they were; the
-- ledger has one entry more.
pub record IsSettled (p : PostPaymentParams) (f : Fin) (id : ℕ) (s : InvoiceStatus) (f' : Fin)
    : Type 0 where
  pub invoice : Invoice
  pub found : find_invoice p.invoice_id f ≡ some invoice
  pub settled :
      find_invoice p.invoice_id f' ≡ some (set_paid (invoice.amount_paid +ℤ p.amount) s invoice)
  pub others : (other : ℕ) → other ≢ p.invoice_id → find_invoice other f' ≡ find_invoice other f
  pub paid_iff : (s ≡ paid) ↔ (invoice.amount ≤ℤ invoice.amount_paid +ℤ p.amount)
  pub entry : f'.ledger ≡ payment_row p id ∷ f.ledger

status_after_iff :
    (i : Invoice) (amount : ℤ) → (status_after i amount ≡ paid) ↔ (i.amount ≤ℤ amount)
status_after_iff i amount = (ground arith, ground arith)

-- A posted payment raises the paid amount of its invoice by its own amount; the invoice becomes
-- 'paid' exactly if the new total reaches the invoiced amount; no other invoice changes, and the
-- ledger gets exactly the credit entry of the payment. The transaction has not failed.
pub post_payment_settles :
    (today : Day) (p : PostPaymentParams) (f : Fin) (id : ℕ) (s : InvoiceStatus) (t : TxState Fin)
    → post_payment_tx today p (begin f) ≡ (ok (posted id s), t)
    → (t ≡ begin t.db) × IsSettled p f id s t.db
post_payment_settles today p f id s t h =
    let (f', same, q) = post_payment_tx-posted today p f {id = id} {s = s} h in
    let paid_up = q.invoice.amount_paid +ℤ p.amount in
    let set = set_paid paid_up (status_after q.invoice paid_up) in
    let self =
      find?-update_self (λ i. i.invoice_id) set p.invoice_id f.invoices (λ _. refl) q.found in
    let settled : IsSettled p f id s (after_payment p q.invoice f q.books) = record {
      invoice = q.invoice;
      found = q.found;
      settled =
          subst
            (λ u.
              find? (has_key (λ i. i.invoice_id) p.invoice_id)
                (update_where (has_key (λ i. i.invoice_id) p.invoice_id) set f.invoices)
              ≡ some (set_paid paid_up u q.invoice))
            (sym q.status) self;
      others = λ other ne.
          find?-update_ne (λ i. i.invoice_id) set p.invoice_id other f.invoices (λ _. refl) ne;
      paid_iff =
          subst (λ u. (u ≡ paid) ↔ (q.invoice.amount ≤ℤ paid_up)) (sym q.status)
            (status_after_iff q.invoice paid_up);
      entry = ap (λ k. payment_row p k ∷ f.ledger) (sym q.id_eq);
    } in
    let moved : IsSettled p f id s f' = subst (IsSettled p f id s) (sym q.state) settled in
    subst (λ u. (u ≡ begin u.db) × IsSettled p f id s u.db) (sym same) (refl, moved)
