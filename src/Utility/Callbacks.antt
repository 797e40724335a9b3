-- ===== src/Utility/Callbacks.antt =====
-- The utility service behind the payment callbacks.
use infraco_os.Common.{
  ℕ, ◌≡◌, refl, subst, arith, true, false, Option, none, some, Bool-cases, inl, inr,
}
use infraco_os.Common.Result.{ok, Result-cases}
use infraco_os.Database.Transaction.{TxState, begin}
use infraco_os.Database.Transaction.Laws.{Action-cases}
use infraco_os.Ledger.Tables.{Day}
use infraco_os.Ledger.{is_unique}
use infraco_os.Payments.Tables.{Callback, utility_vend, Outcome, matched_it, Pay, Utility}
use infraco_os.Payments.{
  insert_callback, vend_path, route, after_record, callback_tx, after_commit, handle_callback,
}
use infraco_os.Utility.Tables.{TokenVend, Util, Backends}
use infraco_os.Utility.{vend_core_tx, vend_dto_of, vend_from_callback_tx, find_vend}
use infraco_os.Utility.Vended.{vend_core_tx-eq-ok}
use infraco_os.Utility.Lte.{purchase_lte_from_callback_tx}

-- What a callback drives.
abbrev pub utility_of : Backends → Utility Util
utility_of backends = record {
  vend_from_callback = vend_from_callback_tx backends;
  purchase_lte_from_callback = purchase_lte_from_callback_tx backends;
}

module _ (backends : Backends) where
  vend_from_callback_tx-vends :
      (c : Callback) (u : Util) {t : TxState Util}
      → vend_from_callback_tx backends c (begin u) ≡ (ok tt, t)
      → (v : TokenVend) × (find_vend c.platform_txn_id t.db ≡ some v)
  unfolding vend_from_callback_tx
  vend_from_callback_tx-vends c u {t} h =
      elim (Action-cases (vend_core_tx backends (vend_dto_of c)) (begin u)) [
        | inr (_, _, p) ↦ absurd (ground arith)
        | inl (o, s, p) ↦
            let (v, found, _, _) =
              vend_core_tx-eq-ok backends (vend_dto_of c) u c.platform_txn_id refl p in
            let e : s ≡ t = ground arith in
            (v, subst (λ w. find_vend c.platform_txn_id w.db ≡ some v) e found)
      ]

  vend_path-vends :
      (c : Callback) (s : Pay Util) {r : Outcome × Option ℕ} {t : TxState (Pay Util)}
      → vend_path (utility_of backends) c (begin s) ≡ (ok r, t)
      → (r ≡ (matched_it, none))
        × (t.aborted ≡ false)
        × ((v : TokenVend) × (find_vend c.platform_txn_id t.db.utility ≡ some v))
  unfolding vend_path
  vend_path-vends c s {r} {t} h =
      elim (Action-cases (vend_from_callback_tx backends c) (begin s.utility)) [
        | inr (_, _, p) ↦ absurd (ground arith)
        | inl (x, u, p) ↦
            let (v, found) = vend_from_callback_tx-vends c s.utility p in
            elim (Bool-cases u.aborted) [
              | inl q ↦ absurd (ground arith)
              | inr q ↦ (ground arith, ground arith, (v, ground arith))
            ]
      ]

  -- A signed callback for a vend that is handled as matched leaves a token of the utility service for
  -- its platform transaction.
  pub handle_callback-vends :
      (today : Day) (c : Callback) (s s' : Pay Util)
      → c.signature_valid ≡ true
      → c.purpose ≡ utility_vend
      → handle_callback (utility_of backends) today c s ≡ (ok matched_it, s')
      → (v : TokenVend) × (find_vend c.platform_txn_id s'.utility ≡ some v)
  unfolding handle_callback callback_tx after_record after_commit route
  handle_callback-vends today c s s' signed purpose h = elim (Result-cases (insert_callback c s)) [
    | inr (e, p) ↦ elim (Bool-cases (is_unique e)) [
      | inl q ↦ absurd (ground arith)
      | inr q ↦ absurd (ground arith)
    ]
    | inl ((currency, s1), p) ↦ elim (Action-cases (vend_path (utility_of backends) c) (begin s1)) [
      | inr (_, _, q) ↦ absurd (ground arith)
      | inl (r, t, q) ↦
          let (out, live, (v, found)) = vend_path-vends c s1 q in
          let left : t.db ≡ s' = ground arith in
          (v, subst (λ w. find_vend c.platform_txn_id w.utility ≡ some v) left found)
    ]
  ]
