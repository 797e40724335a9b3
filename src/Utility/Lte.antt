-- ===== src/Utility/Lte.antt =====
-- Purchases of LTE products and their provisioning: src/modules/utility/utility.service.ts.
use infraco_os.Common.{
  ℕ, suc, Bool, true, false, not, ◌&&◌, Option, none, some, ◌∷◌, ◌==◌, if◌then◌else◌, find?, exists,
  update_where,
}
use infraco_os.Common.Int.{pos, ltb_ℤ}
use infraco_os.Common.Result.{Result, ok, err}
use infraco_os.Database.Enums.{
  Error, bad_request, not_found, unique_violation, foreign_key_violation, invalid_text,
  CurrencyCode,
}
use infraco_os.Database.Transaction.{
  Action, Tx, ◌>>=◌, ◌>>◌, pure, throw, throw_if, or_throw, statement, query, modify, attempt,
  with_actor,
}
use infraco_os.Ledger.{is_unique}
use infraco_os.Payments.Tables.{Callback}
use infraco_os.Payments.{is_pay_channel, cast_currency}
use infraco_os.Utility.Tables.{
  ProvisionStatus, pending, provisioned, failed, LtePurchase, Util, LtePurchaseDto,
  LtePurchaseOutcome, Backends,
}
use infraco_os.Utility.{has_platform_txn, known_customer}

-- `findPurchaseByTxnTx`, as a query.
abbrev pub find_purchase_by_txn : ℕ → Util → Option LtePurchase
find_purchase_by_txn txn u = find? (λ p. has_platform_txn txn p.platform_txn_id) u.purchases

abbrev pub outcome_of : Bool → LtePurchase → LtePurchaseOutcome
outcome_of duplicate p = record {
  purchase_id = p.purchase_id;
  status = p.status;
  provision_ref = p.provision_ref;
  duplicate = duplicate;
}

abbrev purchase_taken : Option ℕ → Util → Bool
purchase_taken none u = false
purchase_taken (some txn) u = exists (λ p. has_platform_txn txn p.platform_txn_id) u.purchases

abbrev pub purchase_row : LtePurchaseDto → CurrencyCode → ℕ → LtePurchase
purchase_row dto currency id = record {
  purchase_id = id;
  subscriber_id = dto.subscriber_id;
  product_id = dto.product_id;
  amount_paid = dto.amount_paid;
  currency = currency;
  platform_txn_id = dto.platform_txn_id;
  provision_ref = none;
  status = pending;
}

-- INSERT INTO util.lte_purchase, under the unique index and the foreign keys.
unfoldable pub insert_purchase : LtePurchaseDto → Util → Result Error (ℕ × Util)
insert_purchase dto u = elim (cast_currency dto.currency) [
  | err e ↦ err e
  | ok currency ↦
      if not (is_pay_channel dto.channel)
      then err invalid_text
      else if purchase_taken dto.platform_txn_id u
      then err unique_violation
      else if exists (λ k. k == dto.subscriber_id) u.subscribers
          && exists (λ k. k == dto.product_id) u.products
          && known_customer dto.customer_id u
      then ok (
        u.next_purchase_id,
        record u {
          purchases = purchase_row dto currency u.next_purchase_id ∷ u.purchases;
          next_purchase_id = suc u.next_purchase_id;
        },
      )
      else err foreign_key_violation
]

abbrev pub set_provision : ℕ → ProvisionStatus → Option ℕ → Util → Util
set_provision id status ref u = record u {
  purchases =
      update_where (λ p. p.purchase_id == id)
        (λ p. record p { status = status; provision_ref = ref }) u.purchases;
}

-- A failed attempt keeps the reference that the row has.
abbrev pub set_failed : ℕ → Util → Util
set_failed id u = record u {
  purchases =
      update_where (λ p. p.purchase_id == id) (λ p. record p { status = failed }) u.purchases;
}

abbrev made : ℕ → ProvisionStatus → Option ℕ → LtePurchaseOutcome
made id status ref = record {
  purchase_id = id;
  status = status;
  provision_ref = ref;
  duplicate = false;
}

-- What a callback asks for.
abbrev pub purchase_dto_of : Callback → ℕ → ℕ → LtePurchaseDto
purchase_dto_of c subscriber product = record {
  subscriber_id = subscriber;
  product_id = product;
  amount_paid = c.amount_paid;
  currency = c.currency;
  channel = c.channel;
  customer_id = c.customer_id;
  platform_txn_id = some c.platform_txn_id;
}

abbrev find_existing : Option ℕ → Tx Util (Option LtePurchase)
find_existing none = pure none
find_existing (some txn) = query (find_purchase_by_txn txn)

abbrev is_provisioned : ProvisionStatus → Bool
is_provisioned provisioned = true
is_provisioned _ = false

abbrev find_purchase : ℕ → Util → Option LtePurchase
find_purchase id u = find? (λ p. p.purchase_id == id) u.purchases

module _ (backends : Backends) where
  -- `attemptProvisionTx`
  unfoldable pub attempt_provision_tx : ℕ → ℕ → Tx Util LtePurchaseOutcome
  attempt_provision_tx id tries = elim (backends.provision id tries) [
    | some ref ↦ modify (set_provision id provisioned ref) >> pure (made id provisioned ref)
    | none ↦ modify (set_failed id) >> pure (made id failed none)
  ]

  -- The two ends of the `try` round the insertion.
  unfoldable pub after_purchase : Option ℕ → Result Error ℕ → Tx Util LtePurchaseOutcome
  unfolding attempt_provision_tx
  after_purchase txn (ok id) = attempt_provision_tx id 1
  after_purchase none (err e) = throw e
  after_purchase (some txn) (err e) =
      if is_unique e
      then (query (find_purchase_by_txn txn) >>= λ dup. elim dup [
        | none ↦ throw e
        | some p ↦ pure (outcome_of true p)
      ])
      else throw e

  unfoldable pub new_purchase : LtePurchaseDto → Tx Util LtePurchaseOutcome
  unfolding after_purchase insert_purchase
  new_purchase dto = do
    inserted ← attempt (statement (insert_purchase dto))
    after_purchase dto.platform_txn_id inserted

  -- `purchaseLteCoreTx`
  unfoldable pub purchase_lte_core_tx : LtePurchaseDto → Tx Util LtePurchaseOutcome
  unfolding new_purchase
  purchase_lte_core_tx dto = do
    throw_if (ltb_ℤ dto.amount_paid (pos 0)) bad_request
    existing ← find_existing dto.platform_txn_id
    elim existing [ some p ↦ pure (outcome_of true p) | none ↦ new_purchase dto ]

  -- `purchaseLte`
  unfoldable pub purchase_lte : LtePurchaseDto → Action Util LtePurchaseOutcome
  unfolding purchase_lte_core_tx
  purchase_lte dto = with_actor (purchase_lte_core_tx dto)

  -- A purchase that is provisioned is returned as it is.
  unfoldable pub provision_again : LtePurchase → Tx Util LtePurchaseOutcome
  unfolding attempt_provision_tx
  provision_again p =
      if is_provisioned p.status
      then pure (outcome_of true p)
      else attempt_provision_tx p.purchase_id 2

  -- `retryProvision`
  unfoldable pub retry_provision : ℕ → Action Util LtePurchaseOutcome
  unfolding provision_again
  retry_provision id =
      with_actor
        do current ← or_throw (← query (find_purchase id)) not_found; provision_again current

  -- `purchaseLteFromCallbackTx`
  pub purchase_lte_from_callback_tx : Callback → ℕ → ℕ → Tx Util (Unit {0})
  unfolding purchase_lte_core_tx
  purchase_lte_from_callback_tx c subscriber product = do
    purchase_lte_core_tx (purchase_dto_of c subscriber product)
    pure tt
