-- ===== src/Ledger/Clean.antt =====
-- The operations of the ledger that leave a clean reconciliation report clean.
use infraco_os.Common.{
  ℕ, ◌≡◌, refl, sym, subst, ◌∙◌, arith, Bool, true, false, some, List, [], ◌∷◌, ◌==◌, if◌then◌else◌,
  exists, update_where, Bool-cases, inl, inr,
}
use infraco_os.Common.Int.{ℤ, ◌+ℤ◌}
use infraco_os.Common.Keys.{Descending, Descending-update}
use infraco_os.Common.Result.{ok}
use infraco_os.Database.Enums.{CurrencyCode}
use infraco_os.Database.Transaction.{TxState, begin}
use infraco_os.Database.Transaction.Laws.{with_actor_keeps}
use infraco_os.Ledger.Tables.{
  Day, Account, Invoice, Fin, PostPaymentParams, PostPaymentResult, duplicated, posted,
  AccountPosition,
}
use infraco_os.Ledger.{find_invoice, park_suspense, post_payment_tx, set_paid}
use infraco_os.Ledger.Position.{
  of_account, falls_overdue, mark_overdue, set_overdue, recompute_tx, recompute_account,
}
use infraco_os.Ledger.Recompute.{sum_where-update}
use infraco_os.Ledger.Report.{is_adjustment, invoice_paid, discrepancies_of, reconciliation_report}
use infraco_os.Ledger.Payment.{post_payment_tx-posted}
use infraco_os.Ledger.History.{post_payment_tx-duplicated}
use infraco_os.Ledger.Reconciliation.{post_payment_reconciles, discrepancies_of-none}

-- Invoices have ids in increasing order, and the report lists no discrepancy.
pub record IsClean (f : Fin) : Type 0 where
  pub bound : ℕ
  pub keyed : Descending (λ i. i.invoice_id) bound f.invoices
  pub clean : (reconciliation_report f).discrepancies ≡ []

pub park_suspense-IsClean :
    (txn : ℕ) (amount : ℤ) (currency : CurrencyCode) (f : Fin)
    → IsClean f
    → IsClean (park_suspense txn amount currency f)
unfolding park_suspense reconciliation_report
park_suspense-IsClean txn amount currency f v =
    elim (Bool-cases (exists (λ s. s.platform_txn_id == txn) f.suspense)) [
      | inl p ↦ rw p v
      | inr p ↦ rw p (record {
        bound = v.bound;
        keyed = v.keyed;
        clean = discrepancies_of-none f _ f.accounts (λ _ e. e) v.clean;
      })
    ]

-- A payment by a platform channel to an invoice of its own account.
pub post_payment_tx-IsClean :
    (today : Day) (p : PostPaymentParams) (f : Fin) (inv : Invoice) (r : PostPaymentResult)
    (t : TxState Fin)
    → IsClean f
    → find_invoice p.invoice_id f ≡ some inv
    → inv.account_id ≡ p.account_id
    → is_adjustment p.payment_method ≡ false
    → post_payment_tx today p (begin f) ≡ (ok r, t)
    → IsClean t.db
post_payment_tx-IsClean today p f inv duplicated t v found own channel h =
    subst (λ u. IsClean u.db) (sym (post_payment_tx-duplicated today p f h)) v
post_payment_tx-IsClean today p f inv (posted id s) t v found own channel h =
    let (f', same, q) = post_payment_tx-posted today p f {id = id} {s = s} h in
    let keyed : Descending (λ i. i.invoice_id) v.bound f'.invoices =
      subst (λ u. Descending (λ i. i.invoice_id) v.bound u.invoices) (sym q.state)
        (Descending-update (λ i. i.invoice_id) (set_paid (q.invoice.amount_paid +ℤ p.amount) _)
          p.invoice_id v.bound f.invoices (λ _. refl) v.keyed) in
    record {
      bound = v.bound;
      keyed = subst (λ u. Descending (λ i. i.invoice_id) v.bound u.db.invoices) (sym same) keyed;
      clean =
          post_payment_reconciles today p f id v.bound s inv t v.keyed found own channel h v.clean;
    }

Descending-update_where :
    (q : Invoice → Bool) (n : ℕ) (is : List Invoice)
    → Descending (λ i. i.invoice_id) n is
    → Descending (λ i. i.invoice_id) n (update_where q set_overdue is)
Descending-update_where q n [] h = tt
Descending-update_where q n (i ∷ is) (h, hs) =
    let rest = Descending-update_where q i.invoice_id is hs in choose (q i) rest
  where
    choose :
        (b : Bool)
        → Descending (λ i. i.invoice_id) i.invoice_id (update_where q set_overdue is)
        → Descending
            (λ i. i.invoice_id)
            n
            ((if b then set_overdue i else i) ∷ update_where q set_overdue is)
    choose true rest = (h, rest)
    choose false rest = (h, rest)

discrepancies_of-set_balance :
    (account : ℕ) (balance : ℤ) (f : Fin) (accounts : List Account)
    → discrepancies_of
        (update_where (λ a. a.account_id == account) (λ a. record a { balance = balance }) accounts)
        f
      ≡ discrepancies_of accounts f
unfolding discrepancies_of
discrepancies_of-set_balance account balance f [] = refl
discrepancies_of-set_balance account balance f (a ∷ accounts) =
    let rest = discrepancies_of-set_balance account balance f accounts in
    elim (Bool-cases (a.account_id == account)) [ inl p ↦ ground arith | inr p ↦ ground arith ]

invoice_paid-mark_overdue :
    (a account as_of : ℕ) (is : List Invoice)
    → invoice_paid a (mark_overdue account as_of is) ≡ invoice_paid a is
unfolding invoice_paid mark_overdue
invoice_paid-mark_overdue a account as_of is =
    sum_where-update (falls_overdue account as_of) (of_account a) (λ i. i.amount_paid)
      (record { test = λ _ _. refl; value = λ _. refl }) is

recompute_tx-IsClean :
    (account as_of : ℕ) (f : Fin) (p : AccountPosition) (t : TxState Fin)
    → IsClean f
    → recompute_tx account as_of (begin f) ≡ (ok p, t)
    → IsClean t.db
unfolding recompute_tx reconciliation_report
recompute_tx-IsClean account as_of f p t v h =
    let is : mark_overdue account as_of f.invoices ≡ t.db.invoices = ground arith in
    let ledger : t.db.ledger ≡ f.ledger = ground arith in
    let accounts : update_where (λ a. a.account_id == account)
          (λ a. record a { balance = p.balance }) f.accounts
        ≡ t.db.accounts =
      ground arith in
    let base =
      discrepancies_of-none f t.db f.accounts
        (λ a e. let k = invoice_paid-mark_overdue a account as_of f.invoices in ground arith)
        v.clean in
    record {
      bound = v.bound;
      keyed =
          subst (Descending (λ i. i.invoice_id) v.bound) is
            (Descending-update_where (falls_overdue account as_of) v.bound f.invoices v.keyed);
      clean =
          subst (λ a. discrepancies_of a t.db ≡ []) accounts
            (discrepancies_of-set_balance account p.balance t.db f.accounts ∙ base);
    }

pub recompute_account-IsClean :
    (account as_of : ℕ) (f : Fin) → IsClean f → IsClean (recompute_account account as_of f).1
unfolding recompute_account
recompute_account-IsClean account as_of f v =
    with_actor_keeps IsClean (recompute_tx account as_of) f v
      (λ p t h. recompute_tx-IsClean account as_of f p t v h)
