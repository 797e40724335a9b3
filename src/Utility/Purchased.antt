-- ===== src/Utility/Purchased.antt =====
-- A platform transaction buys one LTE purchase.
use infraco_os.Common.{
  ℕ, ◌≡◌, refl, subst, ap, ◌∙◌, arith, true, false, none, some, List, ◌∷◌, ==_refl, Option-cases,
  inl, inr,
}
use infraco_os.Common.Int.{pos, ltb_ℤ}
use infraco_os.Common.Result.{ok, Result-cases}
use infraco_os.Database.Transaction.{TxState, begin}
use infraco_os.Database.Transaction.Laws.{Action-cases, with_actor-commits}
use infraco_os.Payments.{cast_currency}
use infraco_os.Utility.Tables.{
  LtePurchase, failed, provisioned, Util, LtePurchaseDto, LtePurchaseOutcome, Backends,
}
use infraco_os.Utility.Lte.{
  find_purchase_by_txn, outcome_of, insert_purchase, purchase_row, attempt_provision_tx,
  after_purchase, new_purchase, purchase_lte_core_tx, purchase_lte,
}

-- The purchase of a transaction is found, and it answers as the outcome did.
abbrev IsAnswered : ℕ → LtePurchaseOutcome → TxState Util → Type 0
IsAnswered txn o t =
    (p : LtePurchase) × (find_purchase_by_txn txn t.db ≡ some p)
    × (outcome_of true p ≡ record o { duplicate = true })
    × (t.aborted ≡ false)

-- A row that has just been inserted.
record IsNew (dto : LtePurchaseDto) (id : ℕ) (u : Util) : Type 0 where
  row : LtePurchase
  rest : List LtePurchase
  at : u.purchases ≡ row ∷ rest
  its_id : row.purchase_id ≡ id
  its_txn : row.platform_txn_id ≡ dto.platform_txn_id
  no_ref : row.provision_ref ≡ none

insert_purchase-eq-ok :
    (dto : LtePurchaseDto) (u : Util) {id : ℕ} {u' : Util}
    → insert_purchase dto u ≡ ok (id, u')
    → IsNew dto id u'
unfolding insert_purchase
insert_purchase-eq-ok dto u h = elim (Result-cases (cast_currency dto.currency)) [
  | inr (_, p) ↦ absurd (ground arith)
  | inl (currency, p) ↦ record {
    row = purchase_row dto currency u.next_purchase_id;
    rest = u.purchases;
    at = ground arith;
    its_id = ground arith;
    its_txn = refl;
    no_ref = refl;
  }
]

module _ (backends : Backends) where
  attempt_provision_tx-answers :
      (dto : LtePurchaseDto) (u : Util) (txn id : ℕ) {o : LtePurchaseOutcome} {t : TxState Util}
      → dto.platform_txn_id ≡ some txn
      → IsNew dto id u
      → attempt_provision_tx backends id 1 (begin u) ≡ (ok o, t)
      → IsAnswered txn o t
  unfolding attempt_provision_tx
  attempt_provision_tx-answers dto u txn id {o} {t} named n h =
      let at = n.at in
      let its_id = n.its_id in
      let its_txn = n.its_txn in
      let no_ref = n.no_ref in
      let same = ==_refl id in
      let same_txn = ==_refl txn in
      elim (Option-cases (backends.provision id 1)) [
        | inl p ↦ (record n.row { status = failed }, ground arith, ground arith, ground arith)
        | inr (ref, p) ↦ (
          record n.row { status = provisioned; provision_ref = ref },
          ground arith,
          ground arith,
          ground arith,
        )
      ]

  purchase_lte_core_tx-answers :
      (dto : LtePurchaseDto) (u : Util) (txn : ℕ) {o : LtePurchaseOutcome} {t : TxState Util}
      → dto.platform_txn_id ≡ some txn
      → purchase_lte_core_tx backends dto (begin u) ≡ (ok o, t)
      → IsAnswered txn o t
  unfolding purchase_lte_core_tx new_purchase after_purchase
  purchase_lte_core_tx-answers dto u txn {o} {t} named h =
      elim (Option-cases (find_purchase_by_txn txn u)) [
        | inr (p, r) ↦ (p, ground arith, ground arith, ground arith)
        | inl r ↦ elim (Result-cases (insert_purchase dto u)) [
          | inr (e, q) ↦ absurd (ground arith)
          | inl ((id, u1), q) ↦
              attempt_provision_tx-answers dto u1 txn id {o = o} {t = t} named
                (insert_purchase-eq-ok dto u q) (ground arith)
        ]
      ]

  purchase_lte_core_tx-replays :
      (dto : LtePurchaseDto) (u : Util) (txn : ℕ) (p : LtePurchase)
      → dto.platform_txn_id ≡ some txn
      → ltb_ℤ dto.amount_paid (pos 0) ≡ false
      → find_purchase_by_txn txn u ≡ some p
      → purchase_lte_core_tx backends dto (begin u) ≡ (ok (outcome_of true p), begin u)
  unfolding purchase_lte_core_tx
  purchase_lte_core_tx-replays dto u txn p named amount found = ground arith

  -- Once a purchase for a platform transaction has been made, provisioned or not, another for the
  -- same transaction, with an amount that is not negative, answers with the same purchase, status and
  -- reference, marked as a duplicate, and changes no table.
  pub purchase_lte_once :
      (dto again : LtePurchaseDto) (u u' : Util) (txn : ℕ) (o : LtePurchaseOutcome)
      → dto.platform_txn_id ≡ some txn
      → purchase_lte backends dto u ≡ (ok o, u')
      → again.platform_txn_id ≡ some txn
      → ltb_ℤ again.amount_paid (pos 0) ≡ false
      → purchase_lte backends again u' ≡ (ok (record o { duplicate = true }), u')
  unfolding purchase_lte
  purchase_lte_once dto again u u' txn o named h same amount =
      elim (Action-cases (purchase_lte_core_tx backends dto) (begin u)) [
        | inr (_, _, p) ↦ absurd (ground arith)
        | inl (made, t, p) ↦
            let (v, found, answer, live) = purchase_lte_core_tx-answers dto u txn named p in
            let left : t.db ≡ u' = ground arith in
            let out : made ≡ o = ground arith in
            let there : find_purchase_by_txn txn u' ≡ some v =
              subst (λ w. find_purchase_by_txn txn w ≡ some v) left found in
            let e = purchase_lte_core_tx-replays again u' txn v same amount there in
            let r : outcome_of true v ≡ record o { duplicate = true } =
              subst (λ w. outcome_of true v ≡ record w { duplicate = true }) out answer in
            with_actor-commits (purchase_lte_core_tx backends again) u' e ∙ ap (λ w. (ok w, u')) r
      ]
