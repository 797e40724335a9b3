-- ===== src/Ledger/Reconciliation.antt =====
-- The reconciliation report: what a payment and a resolved suspense item do to it.
use infraco_os.Common.{
  ℕ, ◌≡◌, refl, sym, subst, arith, Bool, false, some, List, [], ◌∷◌, if◌then◌else◌, find?,
  update_where, ==_refl, Bool-cases, inl, inr,
}
use infraco_os.Common.Int.{ℤ, pos, ◌+ℤ◌, +ℤ_left_comm, +ℤ_right_comm, zero_+ℤ, eqb_ℤ-eq, eqb_ℤ}
use infraco_os.Common.Keys.{Descending, has_key, update_absent}
use infraco_os.Common.Result.{ok}
use infraco_os.Database.Enums.{InvoiceStatus}
use infraco_os.Database.Transaction.{TxState, begin}
use infraco_os.Ledger.Tables.{Day, Account, Invoice, SuspenseItem, Fin, PostPaymentParams, posted}
use infraco_os.Ledger.{
  find_invoice, find_suspense, payment_row, set_paid, status_after, post_payment_tx,
  suspense_payment, mark_resolved, resolve_suspense_tx,
}
use infraco_os.Database.Transaction.Laws.{Action-cases}
use infraco_os.Ledger.Position.{of_account, sum_where}
use infraco_os.Ledger.Report.{
  is_adjustment, is_invoice_payment, ledger_paid, invoice_paid, discrepancies_of,
  reconciliation_report,
}
use infraco_os.Ledger.Payment.{after_payment, post_payment_tx-posted}

-- The amount, if the account is the given one.
abbrev pub share : Bool → ℤ → ℤ
share mine amount = if mine then amount else pos 0

-- Raising the paid amount of one invoice raises the sum of its account by the same amount.
invoice_paid-set_paid :
    (account id n : ℕ) (amount : ℤ) (s : InvoiceStatus) (is : List Invoice) {row : Invoice}
    → Descending (λ i. i.invoice_id) n is
    → find? (has_key (λ i. i.invoice_id) id) is ≡ some row
    → invoice_paid account
        (update_where (has_key (λ i. i.invoice_id) id) (set_paid (row.amount_paid +ℤ amount) s) is)
      ≡ share (of_account account row) amount +ℤ invoice_paid account is
unfolding invoice_paid sum_where
invoice_paid-set_paid account id n amount s [] h e = absurd (ground arith)
invoice_paid-set_paid account id n amount s (x ∷ xs) {row} (h, hs) e =
    elim (Bool-cases (has_key (λ i. i.invoice_id) id x)) [
      | inl same ↦
          let at : row ≡ x = ground arith in
          let key =
            update_absent (λ i. i.invoice_id) (set_paid (row.amount_paid +ℤ amount) s) id
              x.invoice_id xs hs (ground arith) in
          let total = sum_where (of_account account) (λ i. i.amount_paid) xs in
          let added = +ℤ_right_comm x.amount_paid amount total in
          let none_added = zero_+ℤ total in
          elim (Bool-cases (of_account account x)) [
            | inl mine ↦ ground arith
            | inr other ↦ ground arith
          ]
      | inr differs ↦
          let found : find? (has_key (λ i. i.invoice_id) id) xs ≡ some row = ground arith in
          let rest =
            invoice_paid-set_paid account id x.invoice_id amount s xs {row = row} hs found in
          elim (Bool-cases (of_account account x)) [
            | inl mine ↦
                let added =
                  +ℤ_left_comm x.amount_paid (share (of_account account row) amount)
                    (sum_where (of_account account) (λ i. i.amount_paid) xs) in
                ground arith
            | inr other ↦ ground arith
          ]
    ]

module _ (today : Day) (p : PostPaymentParams) (f : Fin) (id : ℕ) (s : InvoiceStatus) where
  -- What a posted payment adds to the two sums of an account.
  record Adds (account : ℕ) (inv : Invoice) (f' : Fin) : Type 0 where
    invoices :
        invoice_paid account f'.invoices
        ≡ share (of_account account inv) p.amount +ℤ invoice_paid account f.invoices
    entries :
        ledger_paid account f'.ledger
        ≡ share (is_invoice_payment account (payment_row p id)) p.amount
          +ℤ ledger_paid account f.ledger
    accounts : f'.accounts ≡ f.accounts

  ledger_paid-payment_row :
      (account : ℕ)
      → ledger_paid account (payment_row p id ∷ f.ledger)
        ≡ share (is_invoice_payment account (payment_row p id)) p.amount
          +ℤ ledger_paid account f.ledger
  unfolding ledger_paid
  ledger_paid-payment_row account =
      let none_added = zero_+ℤ (ledger_paid account f.ledger) in
      elim (Bool-cases (is_invoice_payment account (payment_row p id))) [
        | inl q ↦ ground arith
        | inr q ↦ ground arith
      ]

  post_payment-Adds :
      (account n : ℕ) (inv : Invoice) (t : TxState Fin)
      → Descending (λ i. i.invoice_id) n f.invoices
      → find_invoice p.invoice_id f ≡ some inv
      → post_payment_tx today p (begin f) ≡ (ok (posted id s), t)
      → Adds account inv t.db
  post_payment-Adds account n inv t keyed there h =
      let (f', same, q) = post_payment_tx-posted today p f {id = id} {s = s} h in
      let at : q.invoice ≡ inv = ground (arith, there, q.found) in
      let paid = q.invoice.amount_paid +ℤ p.amount in
      let adds : Adds account q.invoice (after_payment p q.invoice f q.books) = record {
        invoices =
            invoice_paid-set_paid account p.invoice_id n p.amount (status_after q.invoice paid)
              f.invoices keyed q.found;
        entries =
            subst
              (λ k.
                ledger_paid account (payment_row p k ∷ f.ledger)
                ≡ share (is_invoice_payment account (payment_row p id)) p.amount
                  +ℤ ledger_paid account f.ledger)
              q.id_eq (ledger_paid-payment_row account);
        accounts = refl;
      } in
      subst (λ i. Adds account i t.db) at
        (subst (λ u. Adds account q.invoice u.db) (sym same)
          (subst (Adds account q.invoice) (sym q.state) adds))

-- No discrepancy arises where equal sums stay equal.
pub discrepancies_of-none :
    (f f' : Fin) (accounts : List Account)
    → ((a : ℕ)
        → ledger_paid a f.ledger ≡ invoice_paid a f.invoices
        → ledger_paid a f'.ledger ≡ invoice_paid a f'.invoices)
    → discrepancies_of accounts f ≡ []
    → discrepancies_of accounts f' ≡ []
unfolding discrepancies_of
discrepancies_of-none f f' [] keep h = refl
discrepancies_of-none f f' (a ∷ accounts) keep h =
    let rest = discrepancies_of-none f f' accounts keep in
    let l = ledger_paid a.account_id f.ledger in
    let i = invoice_paid a.account_id f.invoices in
    elim (Bool-cases (eqb_ℤ l i)) [
      | inr q ↦ absurd (ground arith)
      | inl q ↦
          let e : l ≡ i = eqb_ℤ-eq l i q in
          let now = keep a.account_id e in
          let after : discrepancies_of accounts f' ≡ [] = rest (ground arith) in ground arith
    ]

-- A payment by a platform channel, posted to an invoice of its own account, adds no discrepancy to
-- the reconciliation report: if the report on the tables before it lists none, so does the one after.
pub post_payment_reconciles :
    (today : Day) (p : PostPaymentParams) (f : Fin) (id n : ℕ) (s : InvoiceStatus) (inv : Invoice)
    (t : TxState Fin)
    → Descending (λ i. i.invoice_id) n f.invoices
    → find_invoice p.invoice_id f ≡ some inv
    → inv.account_id ≡ p.account_id
    → is_adjustment p.payment_method ≡ false
    → post_payment_tx today p (begin f) ≡ (ok (posted id s), t)
    → (reconciliation_report f).discrepancies ≡ []
    → (reconciliation_report t.db).discrepancies ≡ []
unfolding reconciliation_report
post_payment_reconciles today p f id n s inv t keyed there own channel h clean =
    subst (λ us. discrepancies_of us t.db ≡ []) (sym (adds 0).accounts)
      (discrepancies_of-none f t.db f.accounts
        (λ a e. let i = (adds a).invoices in let l = (adds a).entries in ground arith) clean)
  where
    adds : (a : ℕ) → Adds today p f id s a inv t.db
    adds a = post_payment-Adds today p f id s a n inv t keyed there h

-- Resolving a suspense item raises what the invoices of the invoice's account record as paid by the
-- amount of the item, but not what the report reads of the ledger: the entry it posts is an
-- adjustment, which the report leaves out.
pub resolve_suspense_discrepancy :
    (today : Day) (suspense_id account_id invoice_id n id : ℕ) (s : InvoiceStatus) (f : Fin)
    (item : SuspenseItem) (inv : Invoice) (t : TxState Fin)
    → Descending (λ i. i.invoice_id) n f.invoices
    → find_suspense suspense_id f ≡ some item
    → find_invoice invoice_id f ≡ some inv
    → resolve_suspense_tx today suspense_id account_id invoice_id (begin f) ≡ (ok (posted id s), t)
    → (invoice_paid inv.account_id t.db.invoices
        ≡ item.amount +ℤ invoice_paid inv.account_id f.invoices)
      × (ledger_paid inv.account_id t.db.ledger ≡ ledger_paid inv.account_id f.ledger)
unfolding resolve_suspense_tx
resolve_suspense_discrepancy today suspense_id account_id invoice_id n id s f item inv t keyed there
      found h =
    let p = suspense_payment item account_id invoice_id in
    elim (Action-cases (post_payment_tx today p) (begin f)) [
      | inr (_, _, q) ↦ absurd (ground arith)
      | inl (post, u, q) ↦
          let e : post ≡ posted id s = ground arith in
          let now : post_payment_tx today p (begin f) ≡ (ok (posted id s), u) = ground arith in
          let adds = post_payment-Adds today p f id s inv.account_id n inv u keyed found now in
          let moved : mark_resolved suspense_id u.db ≡ t.db = ground arith in
          let i = adds.invoices in
          let l = adds.entries in
          let mine = ==_refl inv.account_id in
          let none_added = zero_+ℤ (ledger_paid inv.account_id f.ledger) in
          (ground arith, ground arith)
    ]
