-- ===== src/Lease/Billing/Same.antt =====
-- What bills and recomputed positions leave of the invoices, after a rent invoice is raised by
-- src/modules/lease/lease.service.ts.
use infraco_os.Common.{
  ℕ, Bool, true, false, ◌≡◌, refl, sym, ap, ◌∙◌, subst, arith, Option, none, some, List, [], ◌∷◌,
  exists, if◌then◌else◌,
}
use infraco_os.Common.Int.{ℤ, pos, ◌+ℤ◌}
use infraco_os.Common.Result.{ok}
use infraco_os.Database.Enums.{internal_error}
use infraco_os.Database.Transaction.{Action, TxState, begin, ◌>>=◌, ◌>>◌, pure, or_throw}
use infraco_os.Database.Transaction.Laws.{>>=-keeps, with_actor_keeps}
use infraco_os.Ledger.Position.{
  falls_overdue, mark_overdue, set_overdue, recompute_tx, recompute_account,
}
use infraco_os.Ledger.Tables.{Invoice, Fin, AccountPosition}
use infraco_os.Office.{Customer, Office}
use infraco_os.Office.Bills.{Platform, bill_source, bill_tx, push_bill, create_bill}
use infraco_os.Lease.Billing.{uses_reference, in_fin, Period, follow_up}

-- The sum of the amounts of all invoices.
unfoldable pub total_billed : List Invoice → ℤ
total_billed [] = pos 0
total_billed (i ∷ is) = i.amount +ℤ total_billed is

-- Two tables of invoices with the same references and the same sum of amounts.
pub record IsSameBilling (is js : List Invoice) : Type 0 where
  pub total : total_billed js ≡ total_billed is
  pub references : (r : ℕ) → exists (uses_reference r) js ≡ exists (uses_reference r) is

abbrev pub IsSame : Office → Office → Type 0
IsSame o t = IsSameBilling o.fin.invoices t.fin.invoices

pub IsSameBilling-refl : (is : List Invoice) → IsSameBilling is is
IsSameBilling-refl is = record { total = refl; references = λ r. refl }

pub IsSameBilling-trans :
    {is js ks : List Invoice} → IsSameBilling is js → IsSameBilling js ks → IsSameBilling is ks
IsSameBilling-trans p q = record {
  total = q.total ∙ p.total;
  references = λ r. q.references r ∙ p.references r;
}

mark_overdue-IsSameBilling :
    (account as_of : ℕ) (is : List Invoice) → IsSameBilling is (mark_overdue account as_of is)
unfolding mark_overdue total_billed
mark_overdue-IsSameBilling account as_of [] = record { total = refl; references = λ r. refl }
mark_overdue-IsSameBilling account as_of (i ∷ is) =
    let rest = mark_overdue-IsSameBilling account as_of is in
    record {
      total = amounts (falls_overdue account as_of i) rest.total;
      references = λ r. found r (falls_overdue account as_of i) (rest.references r);
    }
  where
    amounts :
        (b : Bool) {x y : ℤ} → x ≡ y → (if b then set_overdue i else i).amount +ℤ x ≡ i.amount +ℤ y
    amounts true e = ap (λ z. i.amount +ℤ z) e
    amounts false e = ap (λ z. i.amount +ℤ z) e

    found :
        (r : ℕ) (b : Bool) {x y : Bool}
        → x ≡ y
        → (if uses_reference r (if b then set_overdue i else i) then true else x)
          ≡ (if uses_reference r i then true else y)
    found r true e = ap (λ z. if uses_reference r i then true else z) e
    found r false e = ap (λ z. if uses_reference r i then true else z) e

pub recompute_account-IsSame :
    (account as_of : ℕ) (f : Fin)
    → IsSameBilling f.invoices (recompute_account account as_of f).1.invoices
unfolding recompute_account recompute_tx
recompute_account-IsSame account as_of f =
    with_actor_keeps (λ g. IsSameBilling f.invoices g.invoices) (recompute_tx account as_of) f
      (IsSameBilling-refl f.invoices)
      (λ p t h.
        subst (IsSameBilling f.invoices) (marked p t h)
          (mark_overdue-IsSameBilling account as_of f.invoices))
  where
    marked :
        (p : AccountPosition) (t : TxState Fin)
        → recompute_tx account as_of (begin f) ≡ (ok p, t)
        → mark_overdue account as_of f.invoices ≡ t.db.invoices
    marked p t h = ground arith

push_bill-fin :
    (platform : Platform) (i : Invoice) (c : Customer) (o : Office)
    → (push_bill platform (i, c) o).1.fin ≡ o.fin
unfolding push_bill bill_tx
push_bill-fin platform i c o = refl

pub create_bill-fin :
    (platform : Platform) (id : ℕ) (o : Office) → (create_bill platform id o).1.fin ≡ o.fin
unfolding create_bill
create_bill-fin platform id o = go (bill_source id o)
  where
    pushed : (source : Invoice × Customer) → (push_bill platform source o).1.fin ≡ o.fin
    pushed (i, c) = push_bill-fin platform i c o

    go :
        (found : Option (Invoice × Customer))
        → ((or_throw {S = Office} found internal_error >>= push_bill platform) o).1.fin ≡ o.fin
    go none = refl
    go (some source) = pushed source

-- What follows a new invoice, whether it succeeds or not, adds no invoice and changes no amount.
pub follow_up-IsSame :
    (p : Period) (account invoice : ℕ) (o : Office) → IsSame o (follow_up p account invoice o).1
unfolding follow_up
follow_up-IsSame p account invoice o =
    >>=-keeps (IsSame o) (create_bill p.platform invoice) (λ _. rest) o
      (subst (λ f. IsSameBilling o.fin.invoices f.invoices)
        (sym (create_bill-fin p.platform invoice o)) (IsSameBilling-refl o.fin.invoices))
      (λ _ t same. IsSameBilling-trans same (go (p.cal.js_date p.as_of) t))
  where
    mark : ℕ → Action Office (Unit {0})
    mark today = in_fin (recompute_account account today) >> pure tt

    rest : Action Office (Unit {0})
    rest = or_throw (p.cal.js_date p.as_of) internal_error >>= mark

    go : (day : Option ℕ) (t : Office) → IsSame t ((or_throw day internal_error >>= mark) t).1
    go none t = IsSameBilling-refl t.fin.invoices
    go (some today) t =
        >>=-keeps (IsSame t) (in_fin (recompute_account account today)) (λ _. pure tt) t
          (recompute_account-IsSame account today t.fin) (λ _ _ same. same)
