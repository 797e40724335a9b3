-- ===== src/Ledger/History.antt =====
-- What holds after any sequence of calls of the ledger.
use infraco_os.Common.{
  ℕ, ◌≡◌, sym, subst, arith, true, false, List, [], ◌∷◌, ◌==◌, exists, Bool-cases, Option-cases,
  inl, inr,
}
use infraco_os.Common.Int.{ℤ, pos, ◌+ℤ◌, ltb_ℤ}
use infraco_os.Common.Result.{ok, Result-cases}
use infraco_os.Database.Enums.{TxnType, CurrencyCode}
use infraco_os.Database.Transaction.{TxState, begin, with_actor, ◌>>◌, pure, lift}
use infraco_os.Database.Transaction.Laws.{with_actor_keeps, Action-cases, >>=-keeps}
use infraco_os.Accounting.{post_journal_tx}
use infraco_os.Accounting.Valid.{IsValid, IsPosted-IsValid}
use infraco_os.Accounting.Valid.Posting.{post_journal_tx-eq-ok}
use infraco_os.Approvals.{execute, requires_approval}
use infraco_os.Ledger.Tables.{
  Day, LedgerEntry, Fin, PostPaymentParams, PostPaymentResult, duplicated, posted, AccountPosition,
}
use infraco_os.Ledger.{
  find_invoice, find_suspense, has_account, txn_taken, insert_entry, payment_row, payment_entry,
  post_payment_tx, park_suspense, park_suspense_tx, suspense_payment, resolve_suspense_tx,
  settle_invoice, update_paid, mark_resolved,
}
use infraco_os.Ledger.Position.{recompute_account, recompute_tx}
use infraco_os.Ledger.Adjustment.{
  action_code_of, AdjustmentParams, adjustment_row, adjustment_entry, authorise, consume_approval,
  check_adjustment, resolve_suspense, post_adjustment_tx, post_authorised, post_manual_adjustment,
  Call, pays, parks, resolves, adjusts, recomputes, step, run,
}
use infraco_os.Ledger.Payment.{post_payment_tx-posted, insert_entry-eq-ok}

-- No entry carries the platform transaction of an older one, and no amount is negative.
abbrev pub AreEntries : List LedgerEntry → Type 0
AreEntries [] = Unit
AreEntries (e ∷ es) =
    (txn_taken e.platform_txn_id es ≡ false) × (ltb_ℤ e.amount (pos 0) ≡ false) × AreEntries es

-- The entries are so, and every journal of the books balances.
pub record IsSound (f : Fin) : Type 0 where
  pub entries : AreEntries f.ledger
  pub balanced : IsValid f.books

pub post_payment_tx-duplicated :
    (today : Day) (p : PostPaymentParams) (f : Fin) {t : TxState Fin}
    → post_payment_tx today p (begin f) ≡ (ok duplicated, t)
    → t ≡ record { db = f; aborted = true }
unfolding post_payment_tx settle_invoice update_paid insert_entry
post_payment_tx-duplicated today p f h = elim (Option-cases (find_invoice p.invoice_id f)) [
  | inl q ↦ absurd (ground arith)
  | inr (inv, q) ↦ elim (Result-cases (insert_entry (payment_row p) f)) [
    | inr (e, r) ↦ ground arith
    | inl ((n, f1), r) ↦ elim (Bool-cases (ltb_ℤ (inv.amount_paid +ℤ p.amount) (pos 0))) [
      | inl u ↦ absurd (ground arith)
      | inr u ↦
          elim (Action-cases (post_journal_tx today.date (payment_entry p.amount))
            (begin f1.books)) [
              | inr (_, _, w) ↦ absurd (ground arith)
              | inl (_, _, w) ↦ absurd (ground arith)
            ]
    ]
  ]
]

post_payment_tx-IsSound :
    (today : Day) (p : PostPaymentParams) (f : Fin) (r : PostPaymentResult) (t : TxState Fin)
    → IsSound f
    → post_payment_tx today p (begin f) ≡ (ok r, t)
    → IsSound t.db
post_payment_tx-IsSound today p f duplicated t v h =
    subst (λ u. IsSound u.db) (sym (post_payment_tx-duplicated today p f h)) v
post_payment_tx-IsSound today p f (posted id s) t v h =
    let (f', same, q) = post_payment_tx-posted today p f {id = id} {s = s} h in
    subst (λ u. IsSound u.db) (sym same)
      (subst IsSound (sym q.state) (record {
        entries = (q.new, q.amount, v.entries);
        balanced =
            IsPosted-IsValid today.date (payment_entry p.amount) f.books q.journal q.books q.booked
              v.balanced;
      }))

park_suspense-IsSound :
    (txn : ℕ) (amount : ℤ) (currency : CurrencyCode) (f : Fin)
    → IsSound f
    → IsSound (park_suspense txn amount currency f)
unfolding park_suspense
park_suspense-IsSound txn amount currency f v =
    elim (Bool-cases (exists (λ s. s.platform_txn_id == txn) f.suspense)) [
      | inl p ↦ rw p v
      | inr p ↦ rw p (record { entries = v.entries; balanced = v.balanced })
    ]

resolve_suspense_tx-IsSound :
    (today : Day) (suspense_id account_id invoice_id : ℕ) (f : Fin) (r : PostPaymentResult)
    (t : TxState Fin)
    → IsSound f
    → resolve_suspense_tx today suspense_id account_id invoice_id (begin f) ≡ (ok r, t)
    → IsSound t.db
unfolding resolve_suspense_tx
resolve_suspense_tx-IsSound today suspense_id account_id invoice_id f r t v h =
    elim (Option-cases (find_suspense suspense_id f)) [
      | inl p ↦ absurd (ground arith)
      | inr (s, p) ↦
          elim (Action-cases (post_payment_tx today (suspense_payment s account_id invoice_id))
            (begin f)) [
              | inr (_, _, q) ↦ absurd (ground arith)
              | inl (post, u, q) ↦
                  let w =
                    post_payment_tx-IsSound today (suspense_payment s account_id invoice_id) f post
                      u v q in
                  let e : mark_resolved suspense_id u.db ≡ t.db = ground arith in
                  subst IsSound e (record { entries = w.entries; balanced = w.balanced })
            ]
    ]

-- The two tables that soundness is about.
abbrev SameBooks : Fin → Fin → Type 0
SameBooks f f' = (f'.ledger ≡ f.ledger) × (f'.books ≡ f.books)

SameBooks-IsSound : (f f' : Fin) → SameBooks f f' → IsSound f → IsSound f'
SameBooks-IsSound f f' (ledger, books) v = record {
  entries = subst AreEntries (sym ledger) v.entries;
  balanced = subst IsValid (sym books) v.balanced;
}

recompute_tx-same :
    (account as_of : ℕ) (f : Fin) (p : AccountPosition) (t : TxState Fin)
    → recompute_tx account as_of (begin f) ≡ (ok p, t)
    → SameBooks f t.db
unfolding recompute_tx
recompute_tx-same account as_of f p t h = elim (Bool-cases (has_account account f)) [
  | inl q ↦ (ground arith, ground arith)
  | inr q ↦ absurd (ground arith)
]

recompute_account-IsSound :
    (account as_of : ℕ) (f : Fin) → IsSound f → IsSound (recompute_account account as_of f).1
unfolding recompute_account
recompute_account-IsSound account as_of f v =
    with_actor_keeps IsSound (recompute_tx account as_of) f v
      (λ p t h. SameBooks-IsSound f t.db (recompute_tx-same account as_of f p t h) v)

resolve_suspense-IsSound :
    (today : Day) (suspense_id account_id invoice_id : ℕ) (f : Fin)
    → IsSound f
    → IsSound (resolve_suspense today suspense_id account_id invoice_id f).1
unfolding resolve_suspense
resolve_suspense-IsSound today suspense_id account_id invoice_id f v =
    >>=-keeps IsSound (with_actor (resolve_suspense_tx today suspense_id account_id invoice_id))
      (λ result. recompute_account account_id today.number >> pure result) f
      (with_actor_keeps IsSound (resolve_suspense_tx today suspense_id account_id invoice_id) f v
        (λ r t h. resolve_suspense_tx-IsSound today suspense_id account_id invoice_id f r t v h))
      (λ r t w.
        >>=-keeps IsSound (recompute_account account_id today.number) (λ _. pure r) t
          (recompute_account-IsSound account_id today.number t w) (λ _ _ u. u))

-- Consuming an approval touches neither table.
authorise-same :
    (p : AdjustmentParams) (c : CurrencyCode) (f : Fin) → SameBooks f (authorise p c f).1
unfolding authorise consume_approval
authorise-same p c f =
    elim (Bool-cases (requires_approval (action_code_of p.kind) p.amount c f.approvals).required) [
      | inr q ↦ (ground arith, ground arith)
      | inl q ↦ elim (Option-cases p.approval_id) [
        | inl r ↦ (ground arith, ground arith)
        | inr (id, r) ↦ elim (Action-cases (execute id) f.approvals) [
          | inl (_, _, s) ↦ (ground arith, ground arith)
          | inr (_, _, s) ↦ (ground arith, ground arith)
        ]
      ]
    ]

post_adjustment_tx-IsSound :
    (today : Day) (p : AdjustmentParams) (u : TxnType) (c : CurrencyCode) (f : Fin) (id : ℕ)
    (t : TxState Fin)
    → IsSound f
    → post_adjustment_tx today p u c (begin f) ≡ (ok id, t)
    → IsSound t.db
unfolding post_adjustment_tx
post_adjustment_tx-IsSound today p u c f id t v h =
    elim (Result-cases (insert_entry (adjustment_row p u c) f)) [
      | inr (_, q) ↦ absurd (ground arith)
      | inl ((n, f1), q) ↦
          let i = insert_entry-eq-ok (adjustment_row p u c) f q in
          let w : IsSound f1 =
            subst IsSound (sym i.state)
              (record { entries = (i.new, i.amount, v.entries); balanced = v.balanced }) in
          elim (Action-cases (post_journal_tx today.date (adjustment_entry u p.amount))
            (begin f1.books)) [
              | inr (_, _, r) ↦ absurd (ground arith)
              | inl (j, s, r) ↦
                  let (books, at, booked) =
                    post_journal_tx-eq-ok today.date (adjustment_entry u p.amount) f1.books r in
                  let e : record f1 { books = books } ≡ t.db = ground arith in
                  subst IsSound e (record {
                    entries = w.entries;
                    balanced =
                        IsPosted-IsValid today.date (adjustment_entry u p.amount) f1.books j books
                          booked w.balanced;
                  })
            ]
    ]

post_authorised-IsSound :
    (today : Day) (p : AdjustmentParams) (u : TxnType) (c : CurrencyCode) (f : Fin)
    → IsSound f
    → IsSound (post_authorised today p u c f).1
unfolding post_authorised
post_authorised-IsSound today p u c f v =
    >>=-keeps IsSound (with_actor (post_adjustment_tx today p u c))
      (λ id. recompute_account p.account_id today.number >> pure id) f
      (with_actor_keeps IsSound (post_adjustment_tx today p u c) f v
        (λ id t h. post_adjustment_tx-IsSound today p u c f id t v h))
      (λ id t w.
        >>=-keeps IsSound (recompute_account p.account_id today.number) (λ _. pure id) t
          (recompute_account-IsSound p.account_id today.number t w) (λ _ _ x. x))

post_manual_adjustment-IsSound :
    (today : Day) (p : AdjustmentParams) (f : Fin)
    → IsSound f
    → IsSound (post_manual_adjustment today p f).1
unfolding post_manual_adjustment
post_manual_adjustment-IsSound today p f v =
    >>=-keeps IsSound (lift (check_adjustment p))
      (λ a. authorise p a.1 >> post_authorised today p a.0 a.1) f v
      (λ a t w.
        >>=-keeps IsSound (authorise p a.1) (λ _. post_authorised today p a.0 a.1) t
          (SameBooks-IsSound t _ (authorise-same p a.1 t) w)
          (λ _ u x. post_authorised-IsSound today p a.0 a.1 u x))

step-IsSound : (c : Call) (f : Fin) → IsSound f → IsSound (step c f)
unfolding step park_suspense_tx
step-IsSound (pays today p) f v =
    with_actor_keeps IsSound (post_payment_tx today p) f v
      (λ r t h. post_payment_tx-IsSound today p f r t v h)
step-IsSound (parks txn amount currency) f v = park_suspense-IsSound txn amount currency f v
step-IsSound (resolves today suspense_id account_id invoice_id) f v =
    resolve_suspense-IsSound today suspense_id account_id invoice_id f v
step-IsSound (adjusts today p) f v = post_manual_adjustment-IsSound today p f v
step-IsSound (recomputes account as_of) f v = recompute_account-IsSound account as_of f v

-- After any sequence of payments, suspense items parked and resolved, manual adjustments and
-- recalculations, whether they succeed or throw, it still holds, if it held before: no two ledger
-- entries carry the same platform transaction, no entry's amount is negative, and every journal
-- balances.
pub run-IsSound : (cs : List Call) (f : Fin) → IsSound f → IsSound (run cs f)
unfolding run
run-IsSound [] f v = v
run-IsSound (c ∷ cs) f v = run-IsSound cs (step c f) (step-IsSound c f v)
