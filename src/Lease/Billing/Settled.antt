-- ===== src/Lease/Billing/Settled.antt =====
-- The leases that a rent run of src/modules/lease/lease.service.ts has billed.
use infraco_os.Common.{
  ℕ, Bool, true, false, ◌≡◌, refl, sym, ap, ◌∙◌, subst, Option, none, some, List, [], ◌∷◌, All,
  exists, ◌==◌, ==_refl, if◌then◌else◌, length, arith,
}
use infraco_os.Common.Int.{ℤ}
use infraco_os.Common.Result.{Result, ok}
use infraco_os.Database.Enums.{Error}
use infraco_os.Database.Transaction.{
  Action, ◌>>=◌, ◌>>◌, Tx, begin, settle, pure, lift, with_actor, statement, modify,
}
use infraco_os.Database.Transaction.Laws.{>>=-ok, with_actor-commits}
use infraco_os.Office.{Office}
use infraco_os.Lease.{Lease}
use infraco_os.Lease.Billing.{
  uses_reference, insert_unless_billed, invoice_due, notify_rent, count_round, raise_tx, Raised,
  Run, Period, reference_for, rent_for, finish, bill_account, bill_lease, bill_leases,
}
use infraco_os.Lease.Billing.Rounds.{
  Round, idle, skips, charges, bill_account-Round, bill_leases-cons, finish-none,
}

-- A lease that a later round of the same period has nothing to raise for.
pub data IsSettled (p : Period) (l : Lease) (account : Option ℕ) (o : Office) : Type 0 where
  no_account : account ≡ none → IsSettled p l account o
  is_billed :
      (id : ℕ) (amount : ℤ) (day : ℕ)
      → account ≡ some id
      → rent_for p l ≡ ok amount
      → invoice_due (p.cal.cast_date p.start) amount ≡ ok day
      → exists (uses_reference (reference_for p l)) o.fin.invoices ≡ true
      → IsSettled p l account o

-- No reference is lost.
abbrev pub Extends : Office → Office → Type 0
Extends o t =
    (r : ℕ)
    → exists (uses_reference r) o.fin.invoices ≡ true
    → exists (uses_reference r) t.fin.invoices ≡ true

Round-IsSettled :
    (p : Period) (l : Lease) (account : Option ℕ) (o t : Office) (r : Option Raised)
    → Round p l account o t r
    → IsSettled p l account t × Extends o t
Round-IsSettled p l account o t r (idle no_id _ same) = (
  no_account no_id,
  λ x found. subst (λ w. exists (uses_reference x) w.fin.invoices ≡ true) (sym same) found,
)
Round-IsSettled p l account o t r (skips id amount has_id charge (day, due) e _ same) = (
  is_billed id amount day has_id charge due
      (subst (λ w. exists (uses_reference (reference_for p l)) w.fin.invoices ≡ true) (sym same) e),
  λ x found. subst (λ w. exists (uses_reference x) w.fin.invoices ≡ true) (sym same) found,
)
Round-IsSettled p l account o t r
      (charges id amount i has_id charge (day, due) _ reference _ same) =
    (
      is_billed id amount day has_id charge due
          (same.references (reference_for p l) ∙ head reference),
      λ x found. same.references x ∙ tail x (uses_reference x i) found,
    )
  where
    head : {x : ℕ} → i.reference ≡ x → exists (uses_reference x) (i ∷ o.fin.invoices) ≡ true
    head {x} at =
        ap (λ b. if b then true else exists (uses_reference x) o.fin.invoices)
          (ap (λ y. y == x) at ∙ ==_refl x)

    tail :
        (x : ℕ) (b : Bool)
        → exists (uses_reference x) o.fin.invoices ≡ true
        → (if b then true else exists (uses_reference x) o.fin.invoices) ≡ true
    tail x true found = refl
    tail x false found = found

raise_again :
    (p : Period) (l : Lease) (id : ℕ) (amount : ℤ) {day : ℕ} (o : Office)
    → invoice_due (p.cal.cast_date p.start) amount ≡ ok day
    → exists (uses_reference (reference_for p l)) o.fin.invoices ≡ true
    → with_actor
        (raise_tx id l.tenant_id (reference_for p l) amount l.currency (p.cal.cast_date p.start))
        o
      ≡ (ok none, o)
unfolding raise_tx
raise_again p l id amount {day} o due e =
    with_actor-commits (statement g >>= rest) o
      (>>=-ok (statement g) rest (begin o) (ap (settle (begin o)) conflict))
  where
    g : Office → Result Error (Option ℕ × Office)
    g =
        insert_unless_billed id (reference_for p l) amount l.currency
          (invoice_due (p.cal.cast_date p.start) amount)

    rest : Option ℕ → Tx Office (Option ℕ)
    rest x = modify (notify_rent l.tenant_id (reference_for p l) x) >> pure x

    at_day : insert_unless_billed id (reference_for p l) amount l.currency (ok day) o ≡ ok (none, o)
    at_day = rw e refl

    conflict : g o ≡ ok (none, o)
    conflict =
        ap (λ d. insert_unless_billed id (reference_for p l) amount l.currency d o) due ∙ at_day

settled_skips :
    (p : Period) (l : Lease) (account : Option ℕ) (o : Office)
    → IsSettled p l account o
    → bill_account p l account o ≡ (ok none, o)
unfolding bill_account
settled_skips p l account o (no_account none_id) = ap (λ a. bill_account p l a o) none_id
settled_skips p l account o (is_billed id amount day has_id charge due e) =
    ap (λ a. bill_account p l a o) has_id ∙ again
  where
    run : ℤ → Action Office (Option ℕ)
    run x =
        with_actor
          (raise_tx id l.tenant_id (reference_for p l) x l.currency (p.cal.cast_date p.start))

    finishes : finish p l id amount none o ≡ (ok none, o)
    finishes = finish-none p l id amount o

    again : bill_account p l (some id) o ≡ (ok none, o)
    again =
        ap (λ x. (lift {S = Office} x >>= λ y. run y >>= finish p l id y) o) charge
        ∙ >>=-ok (run amount) (finish p l id amount) o (raise_again p l id amount o due e)
        ∙ finishes

-- The loop, over leases that are settled.
pub bill_leases-settled :
    (p : Period) (ls : List Lease) (o : Office)
    → All (λ l. IsSettled p l l.account_id o) ls
    → bill_leases p ls o ≡ (ok (record { raised = []; skipped = length ls }), o)
unfolding bill_leases
bill_leases-settled p [] o h = refl
bill_leases-settled p (l ∷ ls) o (h, hs) =
    >>=-ok (bill_lease p l) (λ x. bill_leases p ls >>= λ y. pure (count_round x y)) o
      (settled_skips p l l.account_id o h)
    ∙ >>=-ok (bill_leases p ls) (λ y. pure (count_round none y)) o (bill_leases-settled p ls o hs)
    ∙ ap (λ n. (ok (record { raised = []; skipped = n }), o)) (omega arith)

IsSettled-later :
    (p : Period) (l : Lease) (account : Option ℕ) (o t : Office)
    → Extends o t
    → IsSettled p l account o
    → IsSettled p l account t
IsSettled-later p l account o t more (no_account none_id) = no_account none_id
IsSettled-later p l account o t more (is_billed id amount day has_id charge due e) =
    is_billed id amount day has_id charge due (more (reference_for p l) e)

pub settles :
    (p : Period) (ls : List Lease) (o t : Office) (r : Run)
    → bill_leases p ls o ≡ (ok r, t)
    → All (λ l. IsSettled p l l.account_id t) ls × Extends o t
unfolding bill_leases
settles p [] o t r h = (
  tt,
  λ x found. subst (λ w. exists (uses_reference x) w.fin.invoices ≡ true) (ap (λ y. y.1) h) found,
)
settles p (l ∷ ls) o t r h =
    let (x, u, rest, this, others, is_r) = bill_leases-cons p l ls o t h in
    let (now, more) =
      Round-IsSettled p l l.account_id o u x (bill_account-Round p l l.account_id o u x this) in
    let (later, more') = settles p ls u t rest others in
    ((IsSettled-later p l l.account_id u t more' now, later), λ y found. more' y (more y found))
