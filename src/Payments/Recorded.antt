-- ===== src/Payments/Recorded.antt =====
-- A callback that has been recorded stays recorded, whatever the transaction then does.
use infraco_os.Common.{
  ℕ, ◌≡◌, refl, arith, true, Option, none, some, List, [], ◌∷◌, ◌==◌, or_else, update_where,
  Bool-cases, inl, inr,
}
use infraco_os.Database.Enums.{CurrencyCode}
use infraco_os.Database.Transaction.{Tx, TxState, ◌>>◌, pure, query}
use infraco_os.Database.Transaction.Laws.{>>=-keeps}
use infraco_os.Ledger.Tables.{Day, Invoice, Fin, PostPaymentResult, duplicated, posted}
use infraco_os.Ledger.{post_payment_tx, park_suspense_tx}
use infraco_os.Payments.Tables.{
  Purpose, ordinary, utility_vend, lte_purchase, Callback, CallbackStatus, matched, unmatched,
  duplicate, CallbackRow, Outcome, matched_it, duplicate_it, unmatched_it, Pay, Utility,
}
use infraco_os.Payments.{
  has_callback, mark, on_fin, on_utility, callback_payment, after_post, settle_bill, find_reference,
  vend_path, lte_path, bill_path, route,
}

module _ {U : Type 0} (txn : ℕ) where
  abbrev pub Recorded : Pay U → Type 0
  Recorded s = has_callback txn s.callbacks ≡ true

  abbrev pub RecordedIn : TxState (Pay U) → Type 0
  RecordedIn t = Recorded t.db

has_callback-update :
    (txn other : ℕ) (status : CallbackStatus) (ledger_id : Option ℕ) (rows : List CallbackRow)
    → has_callback txn (
        update_where
          (λ r. r.platform_txn_id == other)
          (λ r. record r { status = status; ledger_id = ledger_id })
          rows)
      ≡ has_callback txn rows
has_callback-update txn other status ledger_id [] = refl
has_callback-update txn other status ledger_id (r ∷ rows) =
    let rest = has_callback-update txn other status ledger_id rows in
    elim (Bool-cases (r.platform_txn_id == other)) [ inl p ↦ ground arith | inr p ↦ ground arith ]

module _ {U : Type 0} (txn : ℕ) where
  on_fin-keeps :
      {A : Type 0} (m : Tx Fin A) (t : TxState (Pay U))
      → RecordedIn txn t
      → RecordedIn txn (on_fin m t).1
  on_fin-keeps m t h = h

  on_utility-keeps :
      {A : Type 0} (m : Tx U A) (t : TxState (Pay U))
      → RecordedIn txn t
      → RecordedIn txn (on_utility m t).1
  on_utility-keeps m t h = h

  mark-keeps :
      (other : ℕ) (status : CallbackStatus) (ledger_id : Option ℕ) (t : TxState (Pay U))
      → RecordedIn txn t
      → RecordedIn txn (mark other status ledger_id t).1
  mark-keeps other status ledger_id t h = elim (Bool-cases t.aborted) [
    | inl p ↦ ground arith
    | inr p ↦ let e = has_callback-update txn other status ledger_id t.db.callbacks in ground arith
  ]

  -- A path that ends by marking the callback.
  marked-keeps :
      (other : ℕ) (status : CallbackStatus) (ledger_id : Option ℕ) (r : Outcome × Option ℕ)
      (t : TxState (Pay U))
      → RecordedIn txn t
      → RecordedIn txn ((mark other status ledger_id >> pure r) t).1
  marked-keeps other status ledger_id r t h =
      >>=-keeps (RecordedIn txn) (mark other status ledger_id) (λ _. pure r) t
        (mark-keeps other status ledger_id t h) (λ _ _ x. x)

  settle_bill-keeps :
      (today : Day) (c : Callback) (currency : CurrencyCode) (inv : Option Invoice)
      (t : TxState (Pay U))
      → RecordedIn txn t
      → RecordedIn txn (settle_bill today c currency inv t).1
  unfolding settle_bill after_post
  settle_bill-keeps today c currency none t h =
      >>=-keeps (RecordedIn txn)
        (on_fin (park_suspense_tx c.platform_txn_id c.amount_paid currency))
        (λ _. mark c.platform_txn_id unmatched none >> pure (unmatched_it, none)) t
        (on_fin-keeps (park_suspense_tx c.platform_txn_id c.amount_paid currency) t h)
        (λ _ u x. marked-keeps c.platform_txn_id unmatched none (unmatched_it, none) u x)
  settle_bill-keeps today c currency (some i) t h =
      >>=-keeps (RecordedIn txn) (on_fin (post_payment_tx today (callback_payment c currency i)))
        (after_post c i) t
        (on_fin-keeps (post_payment_tx today (callback_payment c currency i)) t h) posted-keeps
    where
      posted-keeps :
          (post : PostPaymentResult) (u : TxState (Pay U))
          → RecordedIn txn u
          → RecordedIn txn (after_post c i post u).1
      posted-keeps duplicated u x =
          marked-keeps c.platform_txn_id duplicate none (duplicate_it, none) u x
      posted-keeps (posted ledger_id _) u x =
          marked-keeps c.platform_txn_id matched (some ledger_id) (matched_it, some i.account_id) u
            x

module _ {U : Type 0} (utility : Utility U) (txn : ℕ) where
  -- No path of the routing removes the record of a callback.
  pub route-keeps :
      (today : Day) (c : Callback) (currency : CurrencyCode) (purpose : Purpose)
      (t : TxState (Pay U))
      → RecordedIn txn t
      → RecordedIn txn (route utility today c currency purpose t).1
  unfolding route vend_path lte_path bill_path
  route-keeps today c currency utility_vend t h =
      >>=-keeps (RecordedIn txn) (on_utility (utility.vend_from_callback c))
        (λ _. mark c.platform_txn_id matched none >> pure (matched_it, none)) t
        (on_utility-keeps txn (utility.vend_from_callback c) t h)
        (λ _ u x. marked-keeps txn c.platform_txn_id matched none (matched_it, none) u x)
  route-keeps today c currency ordinary t h =
      >>=-keeps (RecordedIn txn) (query (find_reference (or_else c.bill_ref 0)))
        (settle_bill today c currency) t (ground arith)
        (λ inv u x. settle_bill-keeps txn today c currency inv u x)
  route-keeps today c currency lte_purchase t h = lte c.subscriber_id c.product_id
    where
      lte : (s p : Option ℕ) → RecordedIn txn (lte_path utility c s p t).1
      lte (some s) (some p) =
          >>=-keeps (RecordedIn txn) (on_utility (utility.purchase_lte_from_callback c s p))
            (λ _. mark c.platform_txn_id matched none >> pure (matched_it, none)) t
            (on_utility-keeps txn (utility.purchase_lte_from_callback c s p) t h)
            (λ _ u x. marked-keeps txn c.platform_txn_id matched none (matched_it, none) u x)
      lte none p = marked-keeps txn c.platform_txn_id unmatched none (unmatched_it, none) t h
      lte (some s) none = marked-keeps txn c.platform_txn_id unmatched none (unmatched_it, none) t h
