-- ===== src/Lease/Charges/Sums.antt =====
-- What a utility charge of src/modules/lease/lease.service.ts adds to the invoices.
use infraco_os.Common.{
  ℕ, Bool, true, false, not, ◌≡◌, refl, sym, ap, ◌∙◌, subst, inl, inr, arith, Option, none, some,
  List, [], ◌∷◌, exists, find?, update_where, Bool-cases, if◌then◌else◌,
}
use infraco_os.Common.Int.{ℤ, ◌+ℤ◌, int_laws, +ℤ_left_comm}
use infraco_os.Common.Keys.{Descending, has_key, find?-its_key, update_absent}
use infraco_os.Common.Result.{Result, ok, err, ok-inj}
use infraco_os.Database.Enums.{
  Error, internal_error, unique_violation, foreign_key_violation, RentalUtilityType,
  invoice_type_of,
}
use infraco_os.Database.Transaction.{
  Action, TxState, begin, ◌>>=◌, ◌>>◌, pure, or_throw, with_actor,
}
use infraco_os.Database.Transaction.Laws.{
  >>=-keeps, >>=-eq-ok, statement-eq-ok, with_actor-eq-ok, or_throw-eq-ok,
}
use infraco_os.Ledger.{has_account}
use infraco_os.Ledger.Position.{recompute_account}
use infraco_os.Ledger.Tables.{Invoice}
use infraco_os.Office.{Office}
use infraco_os.Office.Bills.{create_bill}
use infraco_os.Lease.{Lease}
use infraco_os.Lease.Billing.{
  uses_reference, add_invoice, new_invoice, invoice_due, in_fin, Period, reference_for,
}
use infraco_os.Lease.Billing.Same.{total_billed, create_bill-fin, recompute_account-IsSame}
use infraco_os.Lease.Charges.{
  Charged, is_mergeable, keep_mergeable, with_id, raise_amount, charge_ref, insert_charge,
  charge_separately, fold_charge, charge_tx, bill_charge, charge,
}

abbrev pub invoice_key : Invoice → ℕ
invoice_key i = i.invoice_id

-- Raising one invoice by an amount raises the sum by the amount.
total-raise_amount :
    (amount : ℤ) (row : Invoice) (n : ℕ) (is : List Invoice)
    → Descending invoice_key n is
    → find? (has_key invoice_key row.invoice_id) is ≡ some row
    → total_billed (update_where (with_id row.invoice_id) (raise_amount (row.amount +ℤ amount)) is)
      ≡ amount +ℤ total_billed is
unfolding total_billed
total-raise_amount amount row n [] h found = absurd (ground arith)
total-raise_amount amount row n (i ∷ is) (h, hs) found =
    elim (Bool-cases (with_id row.invoice_id i)) [
      | inl hit ↦
          let at : i ≡ row = ground arith in
          let same =
            update_absent invoice_key (raise_amount (row.amount +ℤ amount)) row.invoice_id
              i.invoice_id is hs (ground arith) in
          rw (hit, same)
            (subst (λ a. row.amount +ℤ amount +ℤ total_billed is ≡ amount +ℤ (a +ℤ total_billed is))
              (ap (λ (x : Invoice). x.amount) (sym at)) (omega int_laws))
      | inr miss ↦
          let rest = total-raise_amount amount row i.invoice_id is hs (ground arith) in
          rw miss (ap (λ z. i.amount +ℤ z) rest ∙ +ℤ_left_comm i.amount amount (total_billed is))
    ]

-- The sum after the transaction of a charge.
IsRaised : ℤ → Office → Office → Type 0
IsRaised amount o t = total_billed t.fin.invoices ≡ amount +ℤ total_billed o.fin.invoices

insert_charge-IsRaised :
    (l : Lease) (account : ℕ) (type : RentalUtilityType) (reference : ℕ) (amount : ℤ)
    (due : Result Error ℕ) (o : Office) {c : Charged} {t : Office}
    → insert_charge l account type reference amount due o ≡ ok (c, t)
    → IsRaised amount o t
unfolding IsRaised total_billed
insert_charge-IsRaised l account type reference amount (err x) o h = absurd (ground arith)
insert_charge-IsRaised l account type reference amount (ok due) o {c = charged} {t} h =
    choose (exists (uses_reference reference) o.fin.invoices) (has_account account o.fin) h
  where
    row : Invoice
    row = new_invoice account (invoice_type_of type) reference amount l.currency due o

    outcome : Bool → Bool → Result Error (Charged × Office)
    outcome b c =
        if b
        then err unique_violation
        else if not c
        then err foreign_key_violation
        else ok (
          record {
            invoice_id = o.next_invoice_id;
            reference = reference;
            merged = false;
            amount = amount;
          },
          add_invoice row o,
        )

    choose : (b c : Bool) → outcome b c ≡ ok (charged, t) → IsRaised amount o t
    choose true b k = absurd (ground arith)
    choose false false k = absurd (ground arith)
    choose false true k = ap (λ r. total_billed r.1.fin.invoices) (sym (ok-inj k))

charge_separately-IsRaised :
    (p : Period) (l : Lease) (account : ℕ) (type : RentalUtilityType) (amount : ℤ) (o : Office)
    {c : Charged} {u : TxState Office}
    → charge_separately p l account type amount (begin o) ≡ (ok c, u)
    → (u.aborted ≡ false) × IsRaised amount o u.db
unfolding charge_separately IsRaised
charge_separately-IsRaised p l account type amount o {c} {u} h =
    let due = invoice_due (p.cal.cast_date p.start) amount in
    let (d, stored, clean) =
      statement-eq-ok (insert_charge l account type (charge_ref p l type) amount due) o h in
    let raised = insert_charge-IsRaised l account type (charge_ref p l type) amount due o stored in
    (
      ap (λ w. w.aborted) clean,
      subst (λ w. total_billed w.db.fin.invoices ≡ amount +ℤ total_billed o.fin.invoices)
          (sym clean) raised,
    )

mergeable_found : (o : Option Invoice) {i : Invoice} → keep_mergeable o ≡ some i → o ≡ some i
mergeable_found none h = h
mergeable_found (some x) {i} h = choose (is_mergeable x.status) h
  where
    choose : (b : Bool) → (if b then some x else none) ≡ some i → some x ≡ some i
    choose true k = k
    choose false k = absurd (ground arith)

charge_tx-IsRaised :
    (p : Period) (l : Lease) (account : ℕ) (type : RentalUtilityType) (amount : ℤ) (separate : Bool)
    (o : Office) {c : Charged} {u : TxState Office}
    → Descending invoice_key o.next_invoice_id o.fin.invoices
    → charge_tx p l account type amount separate (begin o) ≡ (ok c, u)
    → (u.aborted ≡ false) × IsRaised amount o u.db
unfolding charge_tx fold_charge IsRaised
charge_tx-IsRaised p l account type amount true o keyed h =
    charge_separately-IsRaised p l account type amount o h
charge_tx-IsRaised p l account type amount false o {c} {u} keyed h =
    go (keep_mergeable (find? (uses_reference (reference_for p l)) o.fin.invoices)) refl h
  where
    go :
        (found : Option Invoice)
        → keep_mergeable (find? (uses_reference (reference_for p l)) o.fin.invoices) ≡ found
        → fold_charge p l account type amount found (begin o) ≡ (ok c, u)
        → (u.aborted ≡ false) × IsRaised amount o u.db
    go none e k = charge_separately-IsRaised p l account type amount o k
    go (some i) e k =
        let found =
          find?-its_key invoice_key (uses_reference (reference_for p l)) o.next_invoice_id
            o.fin.invoices keyed (mergeable_found _ e) in
        (
          ap (λ r. r.1.aborted) (sym k),
          ap (λ r. total_billed r.1.db.fin.invoices) (sym k)
              ∙ total-raise_amount amount i o.next_invoice_id o.fin.invoices keyed found,
        )

bill_charge-fin : (p : Period) (r : Charged) (s : Office) → (bill_charge p r s).1.fin ≡ s.fin
unfolding bill_charge
bill_charge-fin p r s = choose r.merged
  where
    push : Action Office (Unit {0})
    push = create_bill p.platform r.invoice_id >> pure tt

    choose : (b : Bool) → ((if b then pure tt else push) s).1.fin ≡ s.fin
    choose true = refl
    choose false =
        >>=-keeps (λ w. w.fin ≡ s.fin) (create_bill p.platform r.invoice_id) (λ _. pure tt) s
          (create_bill-fin p.platform r.invoice_id s) (λ _ _ e. e)

-- A utility charge that goes through, merged into the rent invoice of the month or separate, adds its
-- amount to the invoices, and no more.
pub charge_total :
    (p : Period) (l : Lease) (account : ℕ) (type : RentalUtilityType) (amount : ℤ) (separate : Bool)
    (o t : Office) {c : Charged}
    → Descending invoice_key o.next_invoice_id o.fin.invoices
    → charge p l account type amount separate o ≡ (ok c, t)
    → total_billed t.fin.invoices ≡ amount +ℤ total_billed o.fin.invoices
unfolding charge IsRaised
charge_total p l account type amount separate o t {c} keyed h =
    let (result, u, ran, after) =
      >>=-eq-ok (with_actor (charge_tx p l account type amount separate)) rest o h in
    let (w, returned, left) = with_actor-eq-ok (charge_tx p l account type amount separate) o ran in
    let (clean, raised) = charge_tx-IsRaised p l account type amount separate o keyed returned in
    let db : u ≡ w.db = left ∙ ap (λ b. if b then o else w.db) clean in
    let (done, v, billed, later) = >>=-eq-ok (bill_charge p result) (λ _. mark result) u after in
    let (today, x, dated, last) =
      >>=-eq-ok (or_throw (p.cal.js_date p.as_of) internal_error) (settle_account result) v later in
    let (has_date, same) = or_throw-eq-ok (p.cal.js_date p.as_of) internal_error v dated in
    ap (λ r. total_billed r.1.fin.invoices) (sym last)
    ∙ settle_total result today x
    ∙ ap (λ s. total_billed s.fin.invoices) same
    ∙ ap (λ f. total_billed f.invoices) (ap (λ r. r.1.fin) (sym billed) ∙ bill_fin result u)
    ∙ ap (λ s. total_billed s.fin.invoices) db
    ∙ raised
  where
    settle_account : Charged → ℕ → Action Office Charged
    settle_account result today = in_fin (recompute_account account today) >> pure result

    mark : Charged → Action Office Charged
    mark result = or_throw (p.cal.js_date p.as_of) internal_error >>= settle_account result

    rest : Charged → Action Office Charged
    rest result = bill_charge p result >> mark result

    bill_fin : (r : Charged) (s : Office) → (bill_charge p r s).1.fin ≡ s.fin
    bill_fin r s = bill_charge-fin p r s

    settle_total :
        (r : Charged) (today : ℕ) (s : Office)
        → total_billed (settle_account r today s).1.fin.invoices ≡ total_billed s.fin.invoices
    settle_total r today s =
        >>=-keeps (λ w. total_billed w.fin.invoices ≡ total_billed s.fin.invoices)
          (in_fin (recompute_account account today)) (λ _. pure r) s
          (recompute_account-IsSame account today s.fin).total (λ _ _ e. e)
