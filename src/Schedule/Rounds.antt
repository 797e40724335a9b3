-- ===== src/Schedule/Rounds.antt =====
-- The rounds of `raiseDueInstalments` of src/modules/financial/financial.service.ts: each leaves the
-- due drafts that are still to be raised.
use infraco_os.Common.{
  ℕ, Bool, true, false, ◌&&◌, ◌≡◌, refl, sym, ap, ◌∙◌, subst, arith, List, [], ◌∷◌, All,
  All-update_where, exists, update_where, if◌then◌else◌,
}
use infraco_os.Common.Result.{ok}
use infraco_os.Database.Transaction.{Action, Tx, TxState, begin, ◌>>=◌, ◌>>◌, pure, with_actor}
use infraco_os.Database.Transaction.Laws.{>>=-eq-ok, with_actor-eq-ok, with_actor_keeps, zoom-eq-ok}
use infraco_os.Database.Enums.{InvoiceStatus, issued}
use infraco_os.Accounting.{post_journal_tx}
use infraco_os.Accounting.Tables.{Books, JournalEntry}
use infraco_os.Accounting.Valid.Posting.{post_journal_tx-eq-ok}
use infraco_os.Ledger.{in_books}
use infraco_os.Ledger.CoaMap.{asset_class_for_account_type}
use infraco_os.Ledger.Position.{
  falls_overdue, mark_overdue, set_overdue, recompute_tx, recompute_account,
}
use infraco_os.Ledger.Tables.{Day, Invoice, Fin, AccountPosition}
use infraco_os.Office.{AccountRow, to_customer, instalment_due, Office}
use infraco_os.Office.Bills.{Platform, has_invoice_id, create_bill}
use infraco_os.Lease.Billing.{in_fin}
use infraco_os.Lease.Billing.Same.{create_bill-fin}
use infraco_os.Schedule.Raise.{
  is_instalment, revenue_entry, is_draft, is_due, issue, issue_row, issue_tx, raise_one, raise_all,
}

-- Every due draft is one of the rows that are still to be raised.
abbrev pub listed : List (Invoice × AccountRow) → Invoice → Bool
listed xs i = exists (λ x. has_invoice_id x.0.invoice_id i) xs

abbrev pub IsLeft : ℕ → List (Invoice × AccountRow) → Invoice → Type 0
IsLeft as_of xs i = is_due as_of i ≡ true → listed xs i ≡ true

abbrev pub AllLeft : ℕ → List (Invoice × AccountRow) → List Invoice → Type 0
AllLeft as_of xs is = All (IsLeft as_of xs) is

issued_no_draft : (x : InvoiceStatus) → is_draft (if is_draft x then issued else x) ≡ false
issued_no_draft x = ground arith

and_false : (b : Bool) → (b && false) ≡ false
and_false true = refl
and_false false = refl

no_draft-IsLeft :
    (as_of : ℕ) (xs : List (Invoice × AccountRow)) (i : Invoice)
    → is_draft i.status ≡ false
    → IsLeft as_of xs i
no_draft-IsLeft as_of xs i e due =
    let at : (is_instalment i.invoice_type && false) ≡ true = rw e at due in
    absurd (ground (arith, and_false (is_instalment i.invoice_type)))

-- An issued row is no draft, so that it need not be listed any more.
issued_left :
    (as_of : ℕ) (x : Invoice × AccountRow) (xs : List (Invoice × AccountRow)) (is : List Invoice)
    → AllLeft as_of (x ∷ xs) is
    → AllLeft as_of xs (update_where (has_invoice_id x.0.invoice_id) issue is)
issued_left as_of x xs [] h = tt
issued_left as_of x xs (i ∷ is) (h, hs) =
    (first (has_invoice_id x.0.invoice_id i) h, issued_left as_of x xs is hs)
  where
    first :
        (b : Bool)
        → (is_due as_of i ≡ true → (if b then true else listed xs i) ≡ true)
        → IsLeft as_of xs (if b then issue i else i)
    first true k = no_draft-IsLeft as_of xs (issue i) (issued_no_draft i.status)
    first false k = k

issue_tx_lem :
    (as_of : Day) (x : Invoice × AccountRow) (o : Office) {id : ℕ} {u : TxState Office}
    → issue_tx as_of x (begin o) ≡ (ok id, u)
    → (t : Office) × (u ≡ begin t)
      × (t.fin.invoices ≡ update_where (has_invoice_id x.0.invoice_id) issue o.fin.invoices)
unfolding issue_tx
issue_tx_lem as_of (i, a) o h =
    let (v, ran, at) =
      zoom-eq-ok (λ o. o.fin) (λ f o. record o { fin = f }) (in_books post) noted h in
    let (w, ran', at') =
      zoom-eq-ok (λ f. f.books) (λ b f. record f { books = b }) post noted.fin ran in
    let (b, at'', made) = post_journal_tx-eq-ok as_of.date entry noted.fin.books ran' in
    (
      record noted { fin = record noted.fin { books = b } },
      at
          ∙ (ap (λ x. record { db = record noted { fin = x.db }; aborted = x.aborted }) at'
              ∙ ap
                  (λ x. record {
                    db = record noted { fin = record noted.fin { books = x.db } };
                    aborted = x.aborted;
                  })
                  at''),
      refl,
    )
  where
    entry : JournalEntry
    entry = revenue_entry as_of i (asset_class_for_account_type a.account_type)

    post : Tx Books ℕ
    post = post_journal_tx as_of.date entry

    noted : Office
    noted = record (issue_row i.invoice_id o) {
      notices =
          record {
            recipient = to_customer a.customer_id;
            template = instalment_due;
            about = i.reference;
          }
          ∷ o.notices;
    }

recompute_left :
    (as_of account today : ℕ) (xs : List (Invoice × AccountRow)) (f : Fin)
    → AllLeft as_of xs f.invoices
    → AllLeft as_of xs (recompute_account account today f).1.invoices
unfolding recompute_account recompute_tx mark_overdue
recompute_left as_of account today xs f h =
    with_actor_keeps (λ g. AllLeft as_of xs g.invoices) (recompute_tx account today) f h
      (λ p t k. subst (AllLeft as_of xs) (marked p t k) (
        All-update_where (IsLeft as_of xs) (falls_overdue account today) set_overdue f.invoices
          (λ i left. no_draft-IsLeft as_of xs (set_overdue i) refl) h))
  where
    marked :
        (p : AccountPosition) (t : TxState Fin)
        → recompute_tx account today (begin f) ≡ (ok p, t)
        → mark_overdue account today f.invoices ≡ t.db.invoices
    marked p t h = ground arith

raise_one_left :
    (platform : Platform) (as_of : Day) (x : Invoice × AccountRow)
    (xs : List (Invoice × AccountRow)) (o t : Office) {id : ℕ}
    → raise_one platform as_of x o ≡ (ok id, t)
    → AllLeft as_of.number (x ∷ xs) o.fin.invoices
    → AllLeft as_of.number xs t.fin.invoices
unfolding raise_one
raise_one_left platform as_of (i, a) xs o t h left =
    let (_, o1, issues, h1) = >>=-eq-ok (with_actor (issue_tx as_of (i, a))) (λ _. bill) o h in
    let (u, ran, at) = with_actor-eq-ok (issue_tx as_of (i, a)) o issues in
    let (o', at', invoices) = issue_tx_lem as_of (i, a) o ran in
    let is_o' : o1 ≡ o' = at ∙ ap (λ x. if x.aborted then o else x.db) at' in
    let (_, o2, billed, h2) = >>=-eq-ok (create_bill platform i.invoice_id) (λ _. position) o1 h1 in
    let fin : o2.fin ≡ o1.fin =
      ap (λ r. r.1.fin) (sym billed) ∙ create_bill-fin platform i.invoice_id o1 in
    let (_, o3, computed, h3) =
      >>=-eq-ok (in_fin (recompute_account i.account_id as_of.number)) (λ _. pure i.invoice_id) o2
        h2 in
    let fin' : (recompute_account i.account_id as_of.number o2.fin).1 ≡ t.fin =
      ap (λ r. r.1.fin) computed ∙ ap (λ r. r.1.fin) h3 in
    subst (λ f. AllLeft as_of.number xs f.invoices) fin'
      (recompute_left as_of.number i.account_id as_of.number xs o2.fin (
        subst (AllLeft as_of.number xs)
          (sym (ap (λ f. f.invoices) (fin ∙ ap (λ y. y.fin) is_o') ∙ invoices))
          (issued_left as_of.number (i, a) xs o.fin.invoices left)))
  where
    position : Action Office ℕ
    position = in_fin (recompute_account i.account_id as_of.number) >> pure i.invoice_id

    bill : Action Office ℕ
    bill = create_bill platform i.invoice_id >> position

pub raise_all_left :
    (platform : Platform) (as_of : Day) (xs : List (Invoice × AccountRow)) (o t : Office)
    {ids : List ℕ}
    → raise_all platform as_of xs o ≡ (ok ids, t)
    → AllLeft as_of.number xs o.fin.invoices
    → AllLeft as_of.number [] t.fin.invoices
unfolding raise_all
raise_all_left platform as_of [] o t h left =
    subst (λ y. AllLeft as_of.number [] y.fin.invoices) (ap (λ r. r.1) h) left
raise_all_left platform as_of (x ∷ xs) o t h left =
    let (id, o1, this, h1) =
      >>=-eq-ok (raise_one platform as_of x)
        (λ id. raise_all platform as_of xs >>= λ ids. pure (id ∷ ids)) o h in
    let (ids, o2, rest, h2) =
      >>=-eq-ok (raise_all platform as_of xs) (λ ids. pure (id ∷ ids)) o1 h1 in
    subst (λ y. AllLeft as_of.number [] y.fin.invoices) (ap (λ r. r.1) h2)
      (raise_all_left platform as_of xs o1 o2 rest
        (raise_one_left platform as_of x xs o o1 this left))
