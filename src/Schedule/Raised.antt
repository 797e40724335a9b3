-- ===== src/Schedule/Raised.antt =====
-- After `raiseDueInstalments` of src/modules/financial/financial.service.ts nothing is left to raise.
use infraco_os.Common.{
  ℕ, Bool, true, false, ◌≡◌, refl, ap, ◌∙◌, arith, Option, none, some, List, [], ◌∷◌, All, find?,
  ==_refl, is_some, if◌then◌else◌,
}
use infraco_os.Common.Result.{ok}
use infraco_os.Ledger.Tables.{Day, Invoice}
use infraco_os.Office.{AccountRow, Office}
use infraco_os.Office.Bills.{Platform, has_invoice_id, has_account_id}
use infraco_os.Schedule.Raise.{
  comes_first, is_due, due_rows, insert_due, sort_due, raise_due_instalments,
}
use infraco_os.Schedule.Rounds.{listed, IsLeft, AllLeft, raise_all_left}

listed_insert :
    (before : ℕ → ℕ → Bool) (x : Invoice × AccountRow) (xs : List (Invoice × AccountRow))
    (i : Invoice)
    → listed (insert_due before x xs) i ≡ listed (x ∷ xs) i
unfolding insert_due
listed_insert before x [] i = refl
listed_insert before x (y ∷ ys) i =
    choose (comes_first before x.0 y.0) (listed_insert before x ys i)
  where
    swap :
        (a b r : Bool)
        → (if b then true else if a then true else r) ≡ (if a then true else if b then true else r)
    swap true true r = refl
    swap true false r = refl
    swap false true r = refl
    swap false false r = refl

    choose :
        (b : Bool)
        → listed (insert_due before x ys) i ≡ listed (x ∷ ys) i
        → listed (if b then x ∷ y ∷ ys else y ∷ insert_due before x ys) i ≡ listed (x ∷ y ∷ ys) i
    choose true rest = refl
    choose false rest =
        ap (λ r. if has_invoice_id y.0.invoice_id i then true else r) rest
        ∙ swap (has_invoice_id x.0.invoice_id i) (has_invoice_id y.0.invoice_id i) (listed ys i)

listed_sort :
    (before : ℕ → ℕ → Bool) (xs : List (Invoice × AccountRow)) (i : Invoice)
    → listed (sort_due before xs) i ≡ listed xs i
unfolding sort_due
listed_sort before [] i = refl
listed_sort before (x ∷ xs) i =
    listed_insert before x (sort_due before xs) i
    ∙ ap (λ r. if has_invoice_id x.0.invoice_id i then true else r) (listed_sort before xs i)

All-map_lem :
    {P Q : Invoice → Type 0} (is : List Invoice) → ((i : Invoice) → P i → Q i) → All P is → All Q is
All-map_lem [] f h = tt
All-map_lem {P} {Q} (i ∷ is) f (h, hs) = (f i h, All-map_lem {P = P} {Q = Q} is f hs)

-- Every invoice is of an account that is there: the foreign key of fin.invoice.
abbrev pub HasAccount : Office → Invoice → Type 0
HasAccount o i = is_some (find? (has_account_id i.account_id) o.account_rows) ≡ true

due_rows_left :
    (as_of : ℕ) (o : Office) (is : List Invoice)
    → All (HasAccount o) is
    → AllLeft as_of (due_rows as_of o is) is
unfolding due_rows
due_rows_left as_of o [] h = tt
due_rows_left as_of o (i ∷ is) (h, hs) = (
  here (is_due as_of i) refl (find? (has_account_id i.account_id) o.account_rows) h,
  All-map_lem {P = IsLeft as_of rest} {Q = IsLeft as_of (due_rows as_of o (i ∷ is))} is
      (λ j left due.
        later (is_due as_of i) (find? (has_account_id i.account_id) o.account_rows) j (left due))
      (due_rows_left as_of o is hs),
)
  where
    rest : List (Invoice × AccountRow)
    rest = due_rows as_of o is

    joined : Option AccountRow → List (Invoice × AccountRow)
    joined found = elim found [ none ↦ rest | some a ↦ (i, a) ∷ rest ]

    here :
        (b : Bool)
        → is_due as_of i ≡ b
        → (found : Option AccountRow) → is_some found ≡ true
        → is_due as_of i ≡ true
        → listed (if b then joined found else rest) i ≡ true
    here false e found k due = absurd (ground arith)
    here true e none k due = absurd (ground arith)
    here true e (some a) k due = rw (==_refl i.invoice_id) refl

    later :
        (b : Bool) (found : Option AccountRow) (j : Invoice)
        → listed rest j ≡ true
        → listed (if b then joined found else rest) j ≡ true
    later false found j k = k
    later true none j k = k
    later true (some a) j k = either (has_invoice_id i.invoice_id j)
      where
        either : (b : Bool) → (if b then true else listed rest j) ≡ true
        either true = refl
        either false = k

-- A run that returns, where every invoice has its account, leaves no draft instalment that is due by
-- its day.
pub raise_due_instalments_complete :
    (platform : Platform) (before : ℕ → ℕ → Bool) (as_of : Day) (o t : Office) {ids : List ℕ}
    → All (HasAccount o) o.fin.invoices
    → raise_due_instalments platform before as_of o ≡ (ok ids, t)
    → All (λ i. is_due as_of.number i ≡ false) t.fin.invoices
unfolding raise_due_instalments
raise_due_instalments_complete platform before as_of o t has h =
    All-map_lem {P = IsLeft as_of.number []} {Q = λ i. is_due as_of.number i ≡ false} t.fin.invoices
      (λ i left. not_due (is_due as_of.number i) left)
      (raise_all_left platform as_of (sort_due before (due_rows as_of.number o o.fin.invoices)) o t
        h
        (All-map_lem {P = IsLeft as_of.number (due_rows as_of.number o o.fin.invoices)}
          {Q = IsLeft as_of.number (sort_due before (due_rows as_of.number o o.fin.invoices))}
          o.fin.invoices
          (λ i left due. listed_sort before (due_rows as_of.number o o.fin.invoices) i ∙ left due)
          (due_rows_left as_of.number o o.fin.invoices has)))
  where
    not_due : (b : Bool) → (b ≡ true → false ≡ true) → b ≡ false
    not_due true k = absurd (ground (arith, k refl))
    not_due false k = refl
