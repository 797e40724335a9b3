-- ===== src/Lease/Billing/Rounds.antt =====
-- One round of the rent run of src/modules/lease/lease.service.ts.
use infraco_os.Common.{
  ℕ, Bool, true, false, not, ◌≡◌, refl, sym, ap, ◌∙◌, subst, arith, Option, none, some, List, ◌∷◌,
  exists, if◌then◌else◌,
}
use infraco_os.Common.Int.{ℤ}
use infraco_os.Common.Result.{Result, ok, err, ok-inj}
use infraco_os.Database.Enums.{Error, foreign_key_violation, rent, CurrencyCode}
use infraco_os.Database.Transaction.{
  Action, Tx, begin, ◌>>=◌, ◌>>◌, pure, lift, statement, modify, with_actor,
}
use infraco_os.Database.Transaction.Laws.{>>=-eq-ok, lift-eq-ok, statement-eq-ok, with_actor-eq-ok}
use infraco_os.Ledger.{has_account}
use infraco_os.Ledger.Tables.{Invoice}
use infraco_os.Office.{Office}
use infraco_os.Lease.{Lease}
use infraco_os.Lease.Billing.{
  uses_reference, add_invoice, new_invoice, insert_unless_billed, invoice_due, notify_rent,
  raise_tx, Raised, Period, reference_for, raised_of, rent_for, follow_up, finish, bill_account,
  Run, count_round, bill_lease, bill_leases,
}
use infraco_os.Lease.Billing.Same.{IsSameBilling, follow_up-IsSame}

-- What an insert by reference returns and leaves.
pub data Raising (reference : ℕ) (amount : ℤ) (o t : Office) (raised : Option ℕ) : Type 0 where
  billed :
      raised ≡ none
      → exists (uses_reference reference) o.fin.invoices ≡ true
      → t ≡ o
      → Raising reference amount o t raised
  raises :
      (i : Invoice)
      → raised ≡ some i.invoice_id
      → i.reference ≡ reference
      → i.amount ≡ amount
      → t.fin.invoices ≡ i ∷ o.fin.invoices
      → Raising reference amount o t raised

insert-Raising :
    (account reference : ℕ) (amount : ℤ) (currency : CurrencyCode) (due : Result Error ℕ)
    (o : Office) {raised : Option ℕ} {t : Office}
    → insert_unless_billed account reference amount currency due o ≡ ok (raised, t)
    → ((day : ℕ) × (due ≡ ok day)) × Raising reference amount o t raised
insert-Raising account reference amount currency (err x) o h = absurd (ground arith)
insert-Raising account reference amount currency (ok due) o {raised} {t} h = (
  (due, refl),
  choose (exists (uses_reference reference) o.fin.invoices) refl (has_account account o.fin) h,
)
  where
    row : Invoice
    row = new_invoice account rent reference amount currency due o

    outcome : Bool → Bool → Result Error (Option ℕ × Office)
    outcome b c =
        if b
        then ok (none, o)
        else if not c
        then err foreign_key_violation
        else ok (some o.next_invoice_id, add_invoice row o)

    choose :
        (b : Bool)
        → exists (uses_reference reference) o.fin.invoices ≡ b
        → (c : Bool) → outcome b c ≡ ok (raised, t)
        → Raising reference amount o t raised
    choose true e c k =
        let at = ok-inj k in billed (ap (λ r. r.0) (sym at)) e (ap (λ r. r.1) (sym at))
    choose false e true k =
        let at = ok-inj k in
        raises row (ap (λ r. r.0) (sym at)) refl refl (ap (λ r. r.1.fin.invoices) (sym at))
    choose false e false k = absurd (ground arith)

-- The transaction of a round.
raise-Raising :
    (account tenant reference : ℕ) (amount : ℤ) (currency : CurrencyCode) (due : Option ℕ)
    (o : Office) {raised : Option ℕ} {t : Office}
    → with_actor (raise_tx account tenant reference amount currency due) o ≡ (ok raised, t)
    → ((day : ℕ) × (invoice_due due amount ≡ ok day)) × Raising reference amount o t raised
unfolding raise_tx
raise-Raising account tenant reference amount currency due o {raised} {t} h =
    let (u, ran, at) = with_actor-eq-ok (insert >>= rest) o h in
    let (x, v, inserted, after) = >>=-eq-ok insert rest (begin o) ran in
    let (o', stored, clean) = statement-eq-ok g o inserted in
    let (day, effect) =
      insert-Raising account reference amount currency (invoice_due due amount) o stored in
    let ends = subst (λ w. rest x w ≡ (ok raised, u)) clean after in
    let left = ap (λ r. if r.1.aborted then o else r.1.db) (sym ends) in
    (day, told x o' effect (sym (ok-inj (ap (λ r. r.0) ends))) (at ∙ left))
  where
    g : Office → Result Error (Option ℕ × Office)
    g = insert_unless_billed account reference amount currency (invoice_due due amount)

    insert : Tx Office (Option ℕ)
    insert = statement g

    rest : Option ℕ → Tx Office (Option ℕ)
    rest x = modify (notify_rent tenant reference x) >> pure x

    notify_invoices :
        (x : Option ℕ) (o' : Office)
        → (notify_rent tenant reference x o').fin.invoices ≡ o'.fin.invoices
    notify_invoices none o' = refl
    notify_invoices (some id) o' = refl

    told :
        (x : Option ℕ) (o' : Office)
        → Raising reference amount o o' x
        → raised ≡ x
        → t ≡ notify_rent tenant reference x o'
        → Raising reference amount o t raised
    told x o' (billed p e q) same left =
        billed (same ∙ p) e (left ∙ ap (λ y. notify_rent tenant reference y o') p ∙ q)
    told x o' (raises i p a b q) same left =
        raises i (same ∙ p) a b (ap (λ w. w.fin.invoices) left ∙ notify_invoices x o' ∙ q)

-- What a round of the loop that does not throw returns and leaves.
pub data Round (p : Period) (l : Lease) (account : Option ℕ) (o t : Office) (r : Option Raised)
    : Type 0 where
  idle : account ≡ none → r ≡ none → t ≡ o → Round p l account o t r
  skips :
      (id : ℕ) (amount : ℤ)
      → account ≡ some id
      → rent_for p l ≡ ok amount
      → (day : ℕ) × (invoice_due (p.cal.cast_date p.start) amount ≡ ok day)
      → exists (uses_reference (reference_for p l)) o.fin.invoices ≡ true
      → r ≡ none
      → t ≡ o
      → Round p l account o t r
  charges :
      (id : ℕ) (amount : ℤ) (i : Invoice)
      → account ≡ some id
      → rent_for p l ≡ ok amount
      → (day : ℕ) × (invoice_due (p.cal.cast_date p.start) amount ≡ ok day)
      → i.amount ≡ amount
      → i.reference ≡ reference_for p l
      → r ≡ some (raised_of l (reference_for p l) amount i.invoice_id)
      → IsSameBilling (i ∷ o.fin.invoices) t.fin.invoices
      → Round p l account o t r

finish-Round :
    (p : Period) (l : Lease) (id : ℕ) (amount : ℤ) (raised : Option ℕ) (o u t : Office)
    (r : Option Raised)
    → rent_for p l ≡ ok amount
    → ((day : ℕ) × (invoice_due (p.cal.cast_date p.start) amount ≡ ok day))
    → Raising (reference_for p l) amount o u raised
    → finish p l id amount raised u ≡ (ok r, t)
    → Round p l (some id) o t r
unfolding finish
finish-Round p l id amount raised o u t r charge due (billed none_raised e same) h =
    let at = subst (λ x. finish p l id amount x u ≡ (ok r, t)) none_raised h in
    skips id amount refl charge due e (sym (ok-inj (ap (λ y. y.0) at)))
      (ap (λ y. y.1) (sym at) ∙ same)
finish-Round p l id amount raised o u t r charge due (raises i is_raised reference charged table)
      h =
    let at = subst (λ x. finish p l id amount x u ≡ (ok r, t)) is_raised h in
    let (a, v, followed, last) =
      >>=-eq-ok (follow_up p id i.invoice_id)
        (λ _. pure (some (raised_of l (reference_for p l) amount i.invoice_id))) u at in
    let same =
      subst (λ w. IsSameBilling u.fin.invoices w.fin.invoices)
        (ap (λ y. y.1) followed ∙ ap (λ y. y.1) last) (follow_up-IsSame p id i.invoice_id u) in
    charges id amount i refl charge due charged reference (sym (ok-inj (ap (λ y. y.0) last)))
      (subst (λ is. IsSameBilling is t.fin.invoices) table same)

pub bill_account-Round :
    (p : Period) (l : Lease) (account : Option ℕ) (o t : Office) (r : Option Raised)
    → bill_account p l account o ≡ (ok r, t)
    → Round p l account o t r
unfolding bill_account
bill_account-Round p l none o t r h =
    idle refl (sym (ok-inj (ap (λ y. y.0) h))) (ap (λ y. y.1) (sym h))
bill_account-Round p l (some id) o t r h =
    let (amount, v, lifted, after) = >>=-eq-ok (lift (rent_for p l)) charge o h in
    let (rented, at) = lift-eq-ok (rent_for p l) o lifted in
    let at_o = subst (λ w. charge amount w ≡ (ok r, t)) at after in
    let (raised, u, ran, last) = >>=-eq-ok (transaction amount) (finish p l id amount) o at_o in
    let (due, effect) =
      raise-Raising id l.tenant_id (reference_for p l) amount l.currency (p.cal.cast_date p.start) o
        ran in
    finish-Round p l id amount raised o u t r rented due effect last
  where
    transaction : ℤ → Action Office (Option ℕ)
    transaction amount =
        with_actor
          (raise_tx id l.tenant_id (reference_for p l) amount l.currency (p.cal.cast_date p.start))

    charge : ℤ → Action Office (Option Raised)
    charge amount = transaction amount >>= finish p l id amount

-- A run that does not throw, by its first round.
pub bill_leases-cons :
    (p : Period) (l : Lease) (ls : List Lease) (o t : Office) {r : Run}
    → bill_leases p (l ∷ ls) o ≡ (ok r, t)
    → (x : Option Raised) × (u : Office) × (rest : Run) × (bill_lease p l o ≡ (ok x, u))
      × (bill_leases p ls u ≡ (ok rest, t))
      × (r ≡ count_round x rest)
unfolding bill_leases
bill_leases-cons p l ls o t {r} h =
    let (x, u, this, after) = >>=-eq-ok (bill_lease p l) later o h in
    let (rest, v, others, last) =
      >>=-eq-ok (bill_leases p ls) (λ y. pure (count_round x y)) u after in
    (
      x,
      u,
      rest,
      this,
      others ∙ ap (λ w. (ok rest, w)) (ap (λ y. y.1) last),
      sym (ok-inj (ap (λ y. y.0) last)),
    )
  where
    later : Option Raised → Action Office Run
    later x = bill_leases p ls >>= λ y. pure (count_round x y)

pub finish-none :
    (p : Period) (l : Lease) (id : ℕ) (amount : ℤ) (o : Office)
    → finish p l id amount none o ≡ (ok none, o)
unfolding finish
finish-none p l id amount o = refl
