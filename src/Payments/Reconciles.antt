-- ===== src/Payments/Reconciles.antt =====
-- Callbacks leave a clean reconciliation report clean.
use infraco_os.Common.{
  ℕ, ◌≡◌, refl, sym, subst, ap, ◌∙◌, arith, Bool, true, false, Option, none, some, List, [], ◌∷◌,
  ◌==◌, if◌then◌else◌, or_else, Bool-cases, inl, inr, ◌⊎◌,
}
use infraco_os.Common.Keys.{find?-its_key}
use infraco_os.Common.Result.{ok, Result-cases}
use infraco_os.Database.Enums.{CurrencyCode}
use infraco_os.Database.Transaction.{TxState, begin, ◌>>=◌, ◌>>◌, pure, with_actor}
use infraco_os.Database.Transaction.Laws.{>>=-keeps, >>=-ok, with_actor_keeps, Action-cases}
use infraco_os.Ledger.Tables.{Day, Invoice, PostPaymentResult, duplicated, posted}
use infraco_os.Ledger.{post_payment_tx, park_suspense_tx}
use infraco_os.Ledger.Position.{recompute_account}
use infraco_os.Ledger.Report.{is_adjustment}
use infraco_os.Ledger.Clean.{
  IsClean, park_suspense-IsClean, post_payment_tx-IsClean, recompute_account-IsClean,
}
use infraco_os.Payments.Tables.{
  ChannelInput, no_channel, ussd, app, qr, agent_channel, remittance_channel, merchant_channel,
  wallet_text, cash_text, bank_transfer_text, other_text, Purpose, ordinary, utility_vend,
  lte_purchase, Callback, CallbackStatus, matched, unmatched, duplicate, Outcome, matched_it,
  duplicate_it, unmatched_it, rejected_it, Pay, Utility,
}
use infraco_os.Payments.{
  map_channel, cast_currency, insert_callback, mark, on_fin, on_utility, callback_payment,
  after_post, settle_bill, find_reference, vend_path, lte_path, bill_path, route, after_record,
  callback_tx, after_commit, handle_callback, log_rejected_callback, run,
}

-- No channel is mapped to 'adjustment'.
map_channel_adjustment : (c : ChannelInput) → is_adjustment (map_channel c) ≡ false
unfolding map_channel
map_channel_adjustment no_channel = refl
map_channel_adjustment ussd = refl
map_channel_adjustment app = refl
map_channel_adjustment qr = refl
map_channel_adjustment agent_channel = refl
map_channel_adjustment remittance_channel = refl
map_channel_adjustment merchant_channel = refl
map_channel_adjustment wallet_text = refl
map_channel_adjustment cash_text = refl
map_channel_adjustment bank_transfer_text = refl
map_channel_adjustment other_text = refl

module _ {U : Type 0} where
  abbrev pub Clean : Pay U → Type 0
  Clean s = IsClean s.fin

  abbrev CleanIn : TxState (Pay U) → Type 0
  CleanIn t = Clean t.db

  mark-Clean :
      (txn : ℕ) (status : CallbackStatus) (ledger_id : Option ℕ) (r : Outcome × Option ℕ)
      (t : TxState (Pay U))
      → CleanIn t
      → CleanIn ((mark txn status ledger_id >> pure r) t).1
  mark-Clean txn status ledger_id r t h =
      >>=-keeps CleanIn (mark txn status ledger_id) (λ _. pure r) t
        (subst IsClean (sym (same (Bool-cases t.aborted))) h) (λ _ _ x. x)
    where
      same :
          (t.aborted ≡ true) ⊎ (t.aborted ≡ false)
          → (mark txn status ledger_id t).1.db.fin ≡ t.db.fin
      same (inl p) = ground arith
      same (inr p) = ground arith

  settle_bill-Clean :
      (today : Day) (c : Callback) (currency : CurrencyCode) (s : Pay U) (r : Outcome × Option ℕ)
      (u : TxState (Pay U)) (reference : ℕ)
      → Clean s
      → settle_bill today c currency (find_reference reference s) (begin s) ≡ (ok r, u)
      → CleanIn u
  unfolding settle_bill after_post park_suspense_tx
  settle_bill-Clean today c currency s r u reference v h = go (find_reference reference s) refl h
    where
      posted-Clean :
          (i : Invoice) (post : PostPaymentResult) (t : TxState (Pay U))
          → CleanIn t
          → CleanIn (after_post c i post t).1
      posted-Clean i duplicated t x =
          mark-Clean c.platform_txn_id duplicate none (duplicate_it, none) t x
      posted-Clean i (posted ledger_id _) t x =
          mark-Clean c.platform_txn_id matched (some ledger_id) (matched_it, some i.account_id) t x

      go :
          (o : Option Invoice)
          → find_reference reference s ≡ o
          → settle_bill today c currency o (begin s) ≡ (ok r, u)
          → CleanIn u
      go none e k =
          subst (λ x. CleanIn x.1) k
            (>>=-keeps CleanIn (on_fin (park_suspense_tx c.platform_txn_id c.amount_paid currency))
              (λ _. mark c.platform_txn_id unmatched none >> pure (unmatched_it, none)) (begin s)
              (park_suspense-IsClean c.platform_txn_id c.amount_paid currency s.fin v)
              (λ _ t x. mark-Clean c.platform_txn_id unmatched none (unmatched_it, none) t x))
      go (some i) e k =
          let p = callback_payment c currency i in
          elim (Action-cases (post_payment_tx today p) (begin s.fin)) [
            | inr (_, _, q) ↦ absurd (ground arith)
            | inl (post, t, q) ↦
                let found =
                  find?-its_key (λ i. i.invoice_id) (λ i. i.reference == reference) v.bound
                    s.fin.invoices v.keyed e in
                let w =
                  post_payment_tx-IsClean today p s.fin i post t v found refl
                    (map_channel_adjustment c.channel) q in
                let rest : after_post c i post
                      (record { db = record s { fin = t.db }; aborted = t.aborted })
                    ≡ (ok r, u) =
                  sym (
                    >>=-ok (on_fin (post_payment_tx today p)) (after_post c i) (begin s) (
                      ap
                        (λ x.
                          let (a, b) = x in
                          (a, record { db = record s { fin = b.db }; aborted = b.aborted }))
                        q))
                  ∙ k in
                subst (λ x. CleanIn x.1) rest (posted-Clean i post _ w)
          ]

module _ {U : Type 0} (utility : Utility U) where
  route-Clean :
      (today : Day) (c : Callback) (currency : CurrencyCode) (purpose : Purpose) (s : Pay U)
      (r : Outcome × Option ℕ) (u : TxState (Pay U))
      → Clean s
      → route utility today c currency purpose (begin s) ≡ (ok r, u)
      → CleanIn u
  unfolding route vend_path lte_path bill_path
  route-Clean today c currency utility_vend s r u v h =
      subst (λ x. CleanIn x.1) h
        (>>=-keeps CleanIn (on_utility (utility.vend_from_callback c))
          (λ _. mark c.platform_txn_id matched none >> pure (matched_it, none)) (begin s) v
          (λ _ t x. mark-Clean c.platform_txn_id matched none (matched_it, none) t x))
  route-Clean today c currency ordinary s r u v h =
      settle_bill-Clean today c currency s r u (or_else c.bill_ref 0) v h
  route-Clean today c currency lte_purchase s r u v h = lte c.subscriber_id c.product_id h
    where
      lte : (a b : Option ℕ) → lte_path utility c a b (begin s) ≡ (ok r, u) → CleanIn u
      lte (some a) (some b) k =
          subst (λ x. CleanIn x.1) k
            (>>=-keeps CleanIn (on_utility (utility.purchase_lte_from_callback c a b))
              (λ _. mark c.platform_txn_id matched none >> pure (matched_it, none)) (begin s) v
              (λ _ t x. mark-Clean c.platform_txn_id matched none (matched_it, none) t x))
      lte none b k =
          subst (λ x. CleanIn x.1) k
            (mark-Clean c.platform_txn_id unmatched none (unmatched_it, none) (begin s) v)
      lte (some a) none k =
          subst (λ x. CleanIn x.1) k
            (mark-Clean c.platform_txn_id unmatched none (unmatched_it, none) (begin s) v)

  insert_callback-fin :
      (c : Callback) (s : Pay U) (currency : CurrencyCode) (s1 : Pay U)
      → insert_callback c s ≡ ok (currency, s1)
      → s1.fin ≡ s.fin
  unfolding insert_callback
  insert_callback-fin c s currency s1 h = elim (Result-cases (cast_currency c.currency)) [
    | inr (x, q) ↦ absurd (ground arith)
    | inl (x, q) ↦ ground arith
  ]

  callback_tx-Clean :
      (today : Day) (c : Callback) (s : Pay U) (r : Outcome × Option ℕ) (t : TxState (Pay U))
      → Clean s
      → callback_tx utility today c (begin s) ≡ (ok r, t)
      → CleanIn t
  unfolding callback_tx after_record
  callback_tx-Clean today c s r t v h = elim (Result-cases (insert_callback c s)) [
    | inr (e, p) ↦ let same : t.db ≡ s = ground arith in subst Clean (sym same) v
    | inl ((currency, s1), p) ↦
        let w : Clean s1 = subst IsClean (sym (insert_callback-fin c s currency s1 p)) v in
        route-Clean today c currency c.purpose s1 r t w (ground arith)
  ]

  handle_callback-Clean :
      (today : Day) (c : Callback) (s : Pay U)
      → Clean s
      → Clean (handle_callback utility today c s).1
  unfolding handle_callback log_rejected_callback after_commit
  handle_callback-Clean today c s v = choose c.signature_valid
    where
      recomputed :
          (o : Outcome × Option ℕ) (u : Pay U) → Clean u → Clean (after_commit utility today o u).1
      recomputed (o, none) u x = x
      recomputed (o, some account) u x =
          let w = recompute_account-IsClean account today.number u.fin x in
          elim (Action-cases (recompute_account account today.number) u.fin) [
            | inl (_, f, p) ↦
                let e : f ≡ (after_commit utility today (o, some account) u).1.fin = ground arith in
                subst IsClean e (subst (λ q. IsClean q.1) p w)
            | inr (_, f, p) ↦
                let e : f ≡ (after_commit utility today (o, some account) u).1.fin = ground arith in
                subst IsClean e (subst (λ q. IsClean q.1) p w)
          ]

      choose :
          (b : Bool)
          → Clean
              ((if b
                  then with_actor (callback_tx utility today c) >>= after_commit utility today
                  else log_rejected_callback c >> pure rejected_it)
                s).1
      choose false = v
      choose true =
          >>=-keeps Clean (with_actor (callback_tx utility today c)) (after_commit utility today) s
            (with_actor_keeps Clean (callback_tx utility today c) s v
              (λ r t h. callback_tx-Clean today c s r t v h))
            recomputed

  -- After any sequence of callbacks, whatever their outcome, the reconciliation report lists no
  -- discrepancy, if it listed none before and the invoices have ids in increasing order.
  pub run-Clean : (cs : List (Day × Callback)) (s : Pay U) → Clean s → Clean (run utility cs s)
  unfolding run
  run-Clean [] s v = v
  run-Clean ((today, c) ∷ cs) s v = run-Clean cs _ (handle_callback-Clean today c s v)
