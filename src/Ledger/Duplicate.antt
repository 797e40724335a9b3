-- ===== src/Ledger/Duplicate.antt =====
-- A transaction of the platform that the ledger has already: what the backstop of `postPaymentTx`
-- does, and what its callers then run into.
use infraco_os.Common.{ℕ, ◌≡◌, arith, true, false, some}
use infraco_os.Common.Int.{pos, ltb_ℤ}
use infraco_os.Common.Result.{ok, err}
use infraco_os.Database.Enums.{tx_aborted}
use infraco_os.Database.Transaction.{◌>>◌, pure, begin, with_actor}
use infraco_os.Database.Transaction.Laws.{>>=-err, with_actor-commits}
use infraco_os.Ledger.Tables.{Day, Invoice, Fin, SuspenseItem, PostPaymentParams, duplicated}
use infraco_os.Ledger.{
  find_invoice, find_suspense, txn_taken, insert_entry, post_payment_tx, suspense_payment,
  resolve_suspense_tx,
}
use infraco_os.Ledger.Position.{recompute_account}
use infraco_os.Ledger.Adjustment.{resolve_suspense}

module _ (today : Day) (f : Fin) where
  post_payment-fails :
      (p : PostPaymentParams) (inv : Invoice)
      → find_invoice p.invoice_id f ≡ some inv
      → ltb_ℤ p.amount (pos 0) ≡ false
      → txn_taken p.platform_txn_id f.ledger ≡ true
      → post_payment_tx today p (begin f) ≡ (ok duplicated, record { db = f; aborted = true })
  unfolding post_payment_tx insert_entry
  post_payment-fails p inv found amount taken = ground arith

  -- A payment of 0 or more to a known invoice, whose platform transaction the ledger has already,
  -- returns `duplicated` and leaves every table as it was.
  pub post_payment_duplicate :
      (p : PostPaymentParams) (inv : Invoice)
      → find_invoice p.invoice_id f ≡ some inv
      → ltb_ℤ p.amount (pos 0) ≡ false
      → txn_taken p.platform_txn_id f.ledger ≡ true
      → with_actor (post_payment_tx today p) f ≡ (ok duplicated, f)
  post_payment_duplicate p inv found amount taken =
      let e = post_payment-fails p inv found amount taken in ground arith

  resolve_suspense_tx-fails :
      (suspense_id account_id invoice_id : ℕ) (s : SuspenseItem) (inv : Invoice)
      → find_suspense suspense_id f ≡ some s
      → s.resolved ≡ false
      → find_invoice invoice_id f ≡ some inv
      → ltb_ℤ s.amount (pos 0) ≡ false
      → txn_taken (some s.platform_txn_id) f.ledger ≡ true
      → resolve_suspense_tx today suspense_id account_id invoice_id (begin f)
        ≡ (err tx_aborted, record { db = f; aborted = true })
  unfolding resolve_suspense_tx
  resolve_suspense_tx-fails suspense_id account_id invoice_id s inv there still_open found amount
        taken =
      let e =
        post_payment-fails (suspense_payment s account_id invoice_id) inv found amount taken in
      ground arith

  -- An open suspense item whose platform transaction the ledger has already cannot be resolved: the
  -- statement that would mark it runs in the failed transaction, so the call throws that error and
  -- leaves every table as it was.
  pub resolve_suspense_duplicate :
      (suspense_id account_id invoice_id : ℕ) (s : SuspenseItem) (inv : Invoice)
      → find_suspense suspense_id f ≡ some s
      → s.resolved ≡ false
      → find_invoice invoice_id f ≡ some inv
      → ltb_ℤ s.amount (pos 0) ≡ false
      → txn_taken (some s.platform_txn_id) f.ledger ≡ true
      → resolve_suspense today suspense_id account_id invoice_id f ≡ (err tx_aborted, f)
  unfolding resolve_suspense
  resolve_suspense_duplicate suspense_id account_id invoice_id s inv there still_open found amount
        taken =
      >>=-err (with_actor (resolve_suspense_tx today suspense_id account_id invoice_id))
        (λ result. recompute_account account_id today.number >> pure result) f
        (with_actor-commits (resolve_suspense_tx today suspense_id account_id invoice_id) f (
          resolve_suspense_tx-fails suspense_id account_id invoice_id s inv there still_open found
            amount taken))
