-- ===== src/Payments/Once.antt =====
-- A platform transaction is acted on once.
use infraco_os.Common.{
  ℕ, ◌≡◌, sym, subst, arith, Bool, true, false, Option, none, some, List, [], ◌∷◌, ◌==◌, ==_refl,
  if◌then◌else◌, or_else, Bool-cases, inl, inr,
}
use infraco_os.Common.Result.{Result, ok, err, is_ok, Result-cases}
use infraco_os.Database.Enums.{
  Error, CurrencyCode, CurrencyInput, omitted, known, unique_violation, invalid_text,
}
use infraco_os.Database.Enums
use infraco_os.Database.Transaction.{
  TxState, begin, commit, ◌>>=◌, ◌>>◌, pure, query, attempt, statement, with_actor,
}
use infraco_os.Database.Transaction.Laws.{>>=-keeps, >>=-eq-ok, with_actor_keeps, Action-cases}
use infraco_os.Ledger.Tables.{Day, Invoice, PostPaymentResult, duplicated, posted}
use infraco_os.Ledger.Position.{recompute_account}
use infraco_os.Ledger.{post_payment_tx, park_suspense_tx, is_unique}
use infraco_os.Payments.Tables.{
  Purpose, ordinary, utility_vend, lte_purchase, Callback, CallbackStatus, matched, unmatched,
  duplicate, Outcome, matched_it, duplicate_it, unmatched_it, rejected_it, Pay, Utility,
}
use infraco_os.Payments.{
  cast_currency, is_pay_channel, has_callback, insert_callback, mark, on_fin, on_utility,
  callback_payment, after_post, settle_bill, find_reference, vend_path, lte_path, bill_path, route,
  after_record, callback_tx, after_commit, handle_callback, log_rejected_callback, run,
}
use infraco_os.Payments.Recorded.{Recorded, RecordedIn, route-keeps}

-- The currency and the channel of the payload are values of their enumerations.
abbrev pub is_well_formed : Callback → Bool
is_well_formed c = if is_ok (cast_currency c.currency) then is_pay_channel c.channel else false

cast_currency-err : (i : CurrencyInput) {x : Error} → cast_currency i ≡ err x → invalid_text ≡ x
cast_currency-err omitted h = absurd (ground arith)
cast_currency-err (known _) h = absurd (ground arith)
cast_currency-err Enums.other h = ground arith

module _ {U : Type 0} where
  marked-live :
      (txn : ℕ) (status : CallbackStatus) (ledger_id : Option ℕ) (x r : Outcome × Option ℕ)
      (v u : TxState (Pay U))
      → (mark txn status ledger_id >> pure x) v ≡ (ok r, u)
      → u.aborted ≡ false
  marked-live txn status ledger_id x r v u h = elim (Bool-cases v.aborted) [
    | inl p ↦ absurd (ground arith)
    | inr p ↦ ground arith
  ]

  settle_bill-live :
      (today : Day) (c : Callback) (currency : CurrencyCode) (inv : Option Invoice)
      (t : TxState (Pay U)) (r : Outcome × Option ℕ) (u : TxState (Pay U))
      → settle_bill today c currency inv t ≡ (ok r, u)
      → u.aborted ≡ false
  unfolding settle_bill after_post
  settle_bill-live today c currency none t r u h =
      let (_, v, _, k) =
        >>=-eq-ok (on_fin (park_suspense_tx c.platform_txn_id c.amount_paid currency))
          (λ _. mark c.platform_txn_id unmatched none >> pure (unmatched_it, none)) t h in
      marked-live c.platform_txn_id unmatched none (unmatched_it, none) r v u k
  settle_bill-live today c currency (some i) t r u h =
      let (post, v, _, k) =
        >>=-eq-ok (on_fin (post_payment_tx today (callback_payment c currency i))) (after_post c i)
          t h in
      posted-live post v k
    where
      posted-live :
          (post : PostPaymentResult) (v : TxState (Pay U))
          → after_post c i post v ≡ (ok r, u)
          → u.aborted ≡ false
      posted-live duplicated v k =
          marked-live c.platform_txn_id duplicate none (duplicate_it, none) r v u k
      posted-live (posted ledger_id _) v k =
          marked-live c.platform_txn_id matched (some ledger_id) (matched_it, some i.account_id) r v
            u k

module _ {U : Type 0} (utility : Utility U) where
  pub route-live :
      (today : Day) (c : Callback) (currency : CurrencyCode) (purpose : Purpose)
      (t : TxState (Pay U)) (r : Outcome × Option ℕ) (u : TxState (Pay U))
      → route utility today c currency purpose t ≡ (ok r, u)
      → u.aborted ≡ false
  unfolding route vend_path lte_path bill_path
  route-live today c currency utility_vend t r u h =
      let (_, v, _, k) =
        >>=-eq-ok (on_utility (utility.vend_from_callback c))
          (λ _. mark c.platform_txn_id matched none >> pure (matched_it, none)) t h in
      marked-live c.platform_txn_id matched none (matched_it, none) r v u k
  route-live today c currency ordinary t r u h =
      let (inv, v, _, k) =
        >>=-eq-ok (query (find_reference (or_else c.bill_ref 0))) (settle_bill today c currency) t
          h in
      settle_bill-live today c currency inv v r u k
  route-live today c currency lte_purchase t r u h = lte c.subscriber_id c.product_id h
    where
      lte : (s p : Option ℕ) → lte_path utility c s p t ≡ (ok r, u) → u.aborted ≡ false
      lte (some s) (some p) h =
          let (_, v, _, k) =
            >>=-eq-ok (on_utility (utility.purchase_lte_from_callback c s p))
              (λ _. mark c.platform_txn_id matched none >> pure (matched_it, none)) t h in
          marked-live c.platform_txn_id matched none (matched_it, none) r v u k
      lte none p h = marked-live c.platform_txn_id unmatched none (unmatched_it, none) r t u h
      lte (some s) none h =
          marked-live c.platform_txn_id unmatched none (unmatched_it, none) r t u h

  insert_callback-Recorded :
      (c : Callback) (s : Pay U) (currency : CurrencyCode) (s1 : Pay U)
      → insert_callback c s ≡ ok (currency, s1)
      → Recorded c.platform_txn_id s1
  unfolding insert_callback
  insert_callback-Recorded c s currency s1 h =
      let same = ==_refl c.platform_txn_id in
      elim (Result-cases (cast_currency c.currency)) [
        | inr (x, q) ↦ absurd (ground arith)
        | inl (x, q) ↦ ground arith
      ]

  -- What a callback's transaction leaves when it returns has the callback recorded.
  callback_tx-Recorded :
      (today : Day) (c : Callback) (s : Pay U) (r : Outcome × Option ℕ) (t : TxState (Pay U))
      → callback_tx utility today c (begin s) ≡ (ok r, t)
      → Recorded c.platform_txn_id (commit s (ok r, t)).1
  unfolding callback_tx after_record insert_callback
  callback_tx-Recorded today c s r t h = elim (Result-cases (insert_callback c s)) [
    | inr (e, p) ↦ elim (Result-cases (cast_currency c.currency)) [
      | inr (x, q) ↦ let bad = cast_currency-err c.currency q in absurd (ground arith)
      | inl (x, q) ↦ elim (Bool-cases (is_pay_channel c.channel)) [
        | inr u ↦ absurd (ground arith)
        | inl u ↦ elim (Bool-cases (has_callback c.platform_txn_id s.callbacks)) [
          | inl v ↦ ground arith
          | inr v ↦ absurd (ground arith)
        ]
      ]
    ]
    | inl ((currency, s1), p) ↦
        let now : Recorded c.platform_txn_id s1 = insert_callback-Recorded c s currency s1 p in
        let routed : route utility today c currency c.purpose (begin s1) ≡ (ok r, t) =
          ground arith in
        let live = route-live today c currency c.purpose (begin s1) r t routed in
        let kept =
          route-keeps utility c.platform_txn_id today c currency c.purpose (begin s1) now in
        ground arith
  ]

  after_commit-keeps :
      (txn : ℕ) (today : Day) (o : Outcome × Option ℕ) (s : Pay U)
      → Recorded txn s
      → Recorded txn (after_commit utility today o s).1
  unfolding after_commit
  after_commit-keeps txn today (o, none) s h = h
  after_commit-keeps txn today (o, some account) s h =
      elim (Action-cases (recompute_account account today.number) s.fin) [
        | inl (_, _, p) ↦ ground arith
        | inr (_, _, p) ↦ ground arith
      ]

  insert_callback-keeps :
      (txn : ℕ) (c : Callback) (s : Pay U)
      → Recorded txn s
      → RecordedIn txn (attempt (statement (insert_callback c)) (begin s)).1
  unfolding insert_callback
  insert_callback-keeps txn c s h = elim (Result-cases (insert_callback c s)) [
    | inr (e, p) ↦ ground arith
    | inl ((currency, s1), p) ↦ elim (Result-cases (cast_currency c.currency)) [
      | inr (x, q) ↦ absurd (ground arith)
      | inl (x, q) ↦ elim (Bool-cases (c.platform_txn_id == txn)) [
        | inl _ ↦ ground arith
        | inr _ ↦ ground arith
      ]
    ]
  ]

  after_record-keeps :
      (txn : ℕ) (today : Day) (c : Callback) (recorded : Result Error CurrencyCode)
      (t : TxState (Pay U))
      → RecordedIn txn t
      → RecordedIn txn (after_record utility today c recorded t).1
  unfolding after_record
  after_record-keeps txn today c (ok currency) t h =
      route-keeps utility txn today c currency c.purpose t h
  after_record-keeps txn today c (err e) t h = elim (Bool-cases (is_unique e)) [
    | inl p ↦ ground arith
    | inr p ↦ ground arith
  ]

  callback_tx-keeps :
      (txn : ℕ) (today : Day) (c : Callback) (s : Pay U)
      → Recorded txn s
      → Recorded txn (with_actor (callback_tx utility today c) s).1
  unfolding callback_tx
  callback_tx-keeps txn today c s h =
      with_actor_keeps (Recorded txn) (callback_tx utility today c) s h (λ r t k.
        subst (λ u. RecordedIn txn u.1) k
          (>>=-keeps (RecordedIn txn) (attempt (statement (insert_callback c)))
            (after_record utility today c) (begin s) (insert_callback-keeps txn c s h)
            (λ recorded u x. after_record-keeps txn today c recorded u x)))

  handle_callback-keeps :
      (txn : ℕ) (today : Day) (c : Callback) (s : Pay U)
      → Recorded txn s
      → Recorded txn (handle_callback utility today c s).1
  unfolding handle_callback log_rejected_callback
  handle_callback-keeps txn today c s h = choose c.signature_valid
    where
      choose :
          (b : Bool)
          → Recorded txn
              ((if b
                  then with_actor (callback_tx utility today c) >>= after_commit utility today
                  else log_rejected_callback c >> pure rejected_it)
                s).1
      choose false = h
      choose true =
          >>=-keeps (Recorded txn) (with_actor (callback_tx utility today c))
            (after_commit utility today) s (callback_tx-keeps txn today c s h)
            (λ o u x. after_commit-keeps txn today o u x)

  run-keeps :
      (txn : ℕ) (cs : List (Day × Callback)) (s : Pay U)
      → Recorded txn s
      → Recorded txn (run utility cs s)
  unfolding run
  run-keeps txn [] s h = h
  run-keeps txn ((today, c) ∷ cs) s h = run-keeps txn cs _ (handle_callback-keeps txn today c s h)

  handle_callback-Recorded :
      (today : Day) (c : Callback) (s s' : Pay U) (o : Outcome)
      → c.signature_valid ≡ true
      → handle_callback utility today c s ≡ (ok o, s')
      → Recorded c.platform_txn_id s'
  unfolding handle_callback
  handle_callback-Recorded today c s s' o valid h =
      elim (Action-cases (callback_tx utility today c) (begin s)) [
        | inr (_, _, p) ↦ absurd (ground arith)
        | inl (r, t, p) ↦
            let first = callback_tx-Recorded today c s r t p in
            let kept = after_commit-keeps c.platform_txn_id today r (commit s (ok r, t)).1 first in
            let left : (after_commit utility today r (commit s (ok r, t)).1).1 ≡ s' =
              ground arith in
            subst (Recorded c.platform_txn_id) left kept
      ]

  handle_callback-refuses :
      (today : Day) (c : Callback) (s : Pay U)
      → c.signature_valid ≡ true
      → is_well_formed c ≡ true
      → Recorded c.platform_txn_id s
      → handle_callback utility today c s ≡ (ok duplicate_it, s)
  unfolding handle_callback callback_tx after_record insert_callback after_commit
  handle_callback-refuses today c s valid formed h =
      elim (Result-cases (cast_currency c.currency)) [
        | inr (x, q) ↦ absurd (ground arith)
        | inl (x, q) ↦ ground arith
      ]

  -- Once a signed callback has returned an outcome, whichever it is, every later signed callback for
  -- the same platform transaction, with a currency and a channel of the database, returns
  -- 'duplicate' and changes no table, also after any sequence of other callbacks.
  pub handle_callback_once :
      (today later : Day) (c again : Callback) (s s' : Pay U) (o : Outcome)
      (cs : List (Day × Callback))
      → c.signature_valid ≡ true
      → handle_callback utility today c s ≡ (ok o, s')
      → again.platform_txn_id ≡ c.platform_txn_id
      → again.signature_valid ≡ true
      → is_well_formed again ≡ true
      → handle_callback utility later again (run utility cs s')
        ≡ (ok duplicate_it, run utility cs s')
  handle_callback_once today later c again s s' o cs valid h same signed formed =
      handle_callback-refuses later again (run utility cs s') signed formed (
        subst (λ k. Recorded k (run utility cs s')) (sym same)
          (run-keeps c.platform_txn_id cs s' (handle_callback-Recorded today c s s' o valid h)))
