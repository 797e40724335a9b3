-- ===== src/Utility/Vended.antt =====
-- A platform transaction buys one token: `vend` of src/modules/utility/utility.service.ts.
use infraco_os.Common.{
  ℕ, Bool, ◌≡◌, ◌≢◌, if◌then◌else◌, refl, sym, not, subst, ap, ◌∙◌, arith, true, false, Option,
  none, some, ==_refl, Option-cases, inl, inr,
}
use infraco_os.Common.Int.{ℤ, pos, ltb_ℤ}
use infraco_os.Common.Result.{Result, ok, err, Result-cases, is_ok, ok-inj}
use infraco_os.Database.Enums.{
  Error, bad_request, internal_error, CurrencyCode, TokenKind, resolve_currency,
}
use infraco_os.Database.Transaction.{
  Tx, TxState, begin, ◌>>=◌, pure, throw, throw_if, attempt, query,
}
use infraco_os.Database.Transaction.Laws.{
  Action-cases, with_actor-commits, >>=-eq-ok, throw_if-eq-ok,
}
use infraco_os.Utility.Tables.{Meter, TokenVend, Util, VendDto, VendOutcome, Backends}
use infraco_os.Utility.{
  resolve_token_kind, resolve_meter_tx, compute_units_tx, insert_vend, vend_row, record_vend,
  after_vend, is_unique, find_vend, replay, new_vend, vend_core_tx, vend, reference_of, is_vendable,
  is_configured,
}

resolve_meter_tx-keeps :
    (meter_id serial_no : Option ℕ) (u : Util) {m : Meter} {t : TxState Util}
    → resolve_meter_tx meter_id serial_no (begin u) ≡ (ok m, t)
    → t ≡ begin u
unfolding resolve_meter_tx
resolve_meter_tx-keeps meter_id serial_no u h = ground arith

compute_units_tx-keeps :
    (tariff_id : Option ℕ) (amount : ℤ) (u : Util) {n : Option ℕ} {t : TxState Util}
    → compute_units_tx tariff_id amount (begin u) ≡ (ok n, t)
    → t ≡ begin u
unfolding compute_units_tx
compute_units_tx-keeps none amount u h = ground arith
compute_units_tx-keeps (some id) amount u h = ground arith

-- The vend of a transaction is found, and it answers as the outcome did.
abbrev pub IsAnswered : ℕ → VendOutcome → TxState Util → Type 0
IsAnswered txn o t =
    (v : TokenVend) × (find_vend txn t.db ≡ some v)
    × (replay v ≡ record o { duplicate = true })
    × (t.aborted ≡ false)

module _ (dto : VendDto) (meter : Meter) (kind : TokenKind) (currency : CurrencyCode)
    (token : ℕ) where
  record_vend-eq-ok :
      (units : Option ℕ) (u : Util) (txn : ℕ) {o : VendOutcome} {t : TxState Util}
      → dto.platform_txn_id ≡ some txn
      → record_vend dto meter kind currency units token (begin u) ≡ (ok o, t)
      → IsAnswered txn o t
  unfolding record_vend insert_vend
  record_vend-eq-ok none u txn named h =
      let same = ==_refl txn in
      (
        vend_row dto meter kind currency none token u.next_vend_id,
        ground arith,
        ground arith,
        ground arith,
      )
  record_vend-eq-ok (some n) u txn named h =
      let same = ==_refl txn in
      (
        vend_row dto meter kind currency (some n) token u.next_vend_id,
        ground arith,
        ground arith,
        ground arith,
      )

  record_vend-eq-err :
      (units : Option ℕ) (u : Util) {e : Error} {t : TxState Util}
      → record_vend dto meter kind currency units token (begin u) ≡ (err e, t)
      → t.aborted ≡ true
  unfolding record_vend
  record_vend-eq-err none u h =
      elim (Result-cases (insert_vend dto (vend_row dto meter kind currency none token) u)) [
        | inl (_, p) ↦ absurd (ground arith)
        | inr (_, p) ↦ ground arith
      ]
  record_vend-eq-err (some n) u h =
      elim (Result-cases (insert_vend dto (vend_row dto meter kind currency (some n) token) u)) [
        | inl (_, p) ↦ absurd (ground arith)
        | inr (_, p) ↦ ground arith
      ]

-- In a failed transaction nothing is looked up.
after_vend-failed :
    (txn : Option ℕ) (e : Error) (v : TxState Util) {o : VendOutcome} {t : TxState Util}
    → v.aborted ≡ true
    → after_vend txn (err e) v ≢ (ok o, t)
unfolding after_vend
after_vend-failed none e v failed h = absurd (ground arith)
after_vend-failed (some txn) e v {o} {t} failed h = choose (is_unique e) h
  where
    look : Tx Util VendOutcome
    look = query (find_vend txn) >>= λ dup. elim dup [ none ↦ throw e | some v ↦ pure (replay v) ]

    choose : (b : Bool) → (if b then look else throw e) v ≢ (ok o, t)
    choose true k = let at = rw failed at k in absurd (ground arith)
    choose false k = absurd (ground arith)

after_vend-ok :
    (txn : Option ℕ) (o : VendOutcome) (v : TxState Util) → after_vend txn (ok o) v ≡ (ok o, v)
unfolding after_vend
after_vend-ok txn o v = refl

module _ (backends : Backends) where
  new_vend-eq-ok :
      (dto : VendDto) (kind : TokenKind) (currency : CurrencyCode) (u : Util) (txn : ℕ)
      {o : VendOutcome} {t : TxState Util}
      → dto.platform_txn_id ≡ some txn
      → new_vend backends dto kind currency (begin u) ≡ (ok o, t)
      → IsAnswered txn o t
  unfolding new_vend
  new_vend-eq-ok dto kind currency u txn {o} {t} named h =
      let (meter, s, p, prepaid) =
        >>=-eq-ok (resolve_meter_tx dto.meter_id dto.meter_serial) check_prepaid (begin u) h in
      let (_, s', q, vendable) =
        >>=-eq-ok (throw_if (not meter.is_prepaid) bad_request) (λ _. check_type meter) s prepaid in
      let (_, s'', r, priced) =
        >>=-eq-ok (throw_if (not (is_vendable meter.utility_type)) bad_request) (λ _. price meter)
          s' vendable in
      let same : s'' ≡ begin u =
        (throw_if-eq-ok (not (is_vendable meter.utility_type)) bad_request s' r).1
        ∙ ((throw_if-eq-ok (not meter.is_prepaid) bad_request s q).1
            ∙ resolve_meter_tx-keeps dto.meter_id dto.meter_serial u p) in
      let (units, v, x, configured) =
        >>=-eq-ok (compute_units_tx meter.tariff_id dto.amount_paid) (check_adapter meter) (begin u)
          (subst (λ w. price meter w ≡ (ok o, t)) same priced) in
      let (_, v', y, last) =
        >>=-eq-ok (throw_if (not (is_configured meter.adapter)) internal_error)
          (λ _. record_new meter units) v configured in
      let same' : v' ≡ begin u =
        (throw_if-eq-ok (not (is_configured meter.adapter)) internal_error v y).1
        ∙ compute_units_tx-keeps meter.tariff_id dto.amount_paid u x in
      recorded meter units (subst (λ w. record_new meter units w ≡ (ok o, t)) same' last)
    where
      token_of : Meter → ℕ
      token_of meter =
          backends.token_of meter.serial_no (reference_of dto.platform_txn_id meter dto.amount_paid)

      record_new : Meter → Option ℕ → Tx Util VendOutcome
      record_new meter units =
          attempt (record_vend dto meter kind currency units (token_of meter))
          >>= after_vend dto.platform_txn_id

      check_adapter : Meter → Option ℕ → Tx Util VendOutcome
      check_adapter meter units =
          throw_if (not (is_configured meter.adapter)) internal_error >>= λ _.
          record_new meter units

      price : Meter → Tx Util VendOutcome
      price meter = compute_units_tx meter.tariff_id dto.amount_paid >>= check_adapter meter

      check_type : Meter → Tx Util VendOutcome
      check_type meter =
          throw_if (not (is_vendable meter.utility_type)) bad_request >>= λ _. price meter

      check_prepaid : Meter → Tx Util VendOutcome
      check_prepaid meter = throw_if (not meter.is_prepaid) bad_request >>= λ _. check_type meter

      finish : Result Error VendOutcome × TxState Util → Result Error VendOutcome × TxState Util
      finish (r, v) = after_vend dto.platform_txn_id r v

      recorded :
          (meter : Meter) (units : Option ℕ)
          → record_new meter units (begin u) ≡ (ok o, t)
          → IsAnswered txn o t
      recorded meter units k =
          elim (Action-cases (record_vend dto meter kind currency units (token_of meter))
            (begin u)) [
              | inr (e, v, r) ↦ absurd (
                  after_vend-failed dto.platform_txn_id e v {o = o} {t = t}
                    (record_vend-eq-err dto meter kind currency (token_of meter) units u r)
                    (sym (ap finish r) ∙ k))
              | inl (made, v, r) ↦
                  let goes =
                    sym (after_vend-ok dto.platform_txn_id made v) ∙ (sym (ap finish r) ∙ k) in
                  subst (λ w. IsAnswered txn o w) (ap (λ w. w.1) goes)
                    (subst (λ w. IsAnswered txn w v) (ok-inj (ap (λ w. w.0) goes))
                      (record_vend-eq-ok dto meter kind currency (token_of meter) units u txn named
                        r))
            ]

  pub vend_core_tx-eq-ok :
      (dto : VendDto) (u : Util) (txn : ℕ) {o : VendOutcome} {t : TxState Util}
      → dto.platform_txn_id ≡ some txn
      → vend_core_tx backends dto (begin u) ≡ (ok o, t)
      → IsAnswered txn o t
  unfolding vend_core_tx
  vend_core_tx-eq-ok dto u txn {o} {t} named h =
      elim (Result-cases (resolve_token_kind dto.token_kind)) [
        | inr (_, p) ↦ absurd (ground arith)
        | inl (kind, p) ↦ elim (Result-cases (resolve_currency dto.currency)) [
          | inr (_, q) ↦ absurd (ground arith)
          | inl (currency, q) ↦ elim (Option-cases (find_vend txn u)) [
            | inr (v, r) ↦ (v, ground arith, ground arith, ground arith)
            | inl r ↦ new_vend-eq-ok dto kind currency u txn {o = o} {t = t} named (ground arith)
          ]
        ]
      ]

  vend_core_tx-replays :
      (dto : VendDto) (u : Util) (txn : ℕ) (v : TokenVend)
      → dto.platform_txn_id ≡ some txn
      → ltb_ℤ dto.amount_paid (pos 0) ≡ false
      → is_ok (resolve_token_kind dto.token_kind) ≡ true
      → is_ok (resolve_currency dto.currency) ≡ true
      → find_vend txn u ≡ some v
      → vend_core_tx backends dto (begin u) ≡ (ok (replay v), begin u)
  unfolding vend_core_tx
  vend_core_tx-replays dto u txn v named amount kind currency found =
      elim (Result-cases (resolve_token_kind dto.token_kind)) [
        | inr (_, p) ↦ absurd (ground arith)
        | inl (_, p) ↦ elim (Result-cases (resolve_currency dto.currency)) [
          | inr (_, q) ↦ absurd (ground arith)
          | inl (_, q) ↦ ground arith
        ]
      ]

  -- Once a vend for a platform transaction has succeeded, another for the same transaction, with an
  -- amount that is not negative and a token kind and currency of the lists, answers with the same
  -- token, units and amount, marked as a duplicate, and changes no table.
  pub vend_once :
      (dto again : VendDto) (u u' : Util) (txn : ℕ) (o : VendOutcome)
      → dto.platform_txn_id ≡ some txn
      → vend backends dto u ≡ (ok o, u')
      → again.platform_txn_id ≡ some txn
      → ltb_ℤ again.amount_paid (pos 0) ≡ false
      → is_ok (resolve_token_kind again.token_kind) ≡ true
      → is_ok (resolve_currency again.currency) ≡ true
      → vend backends again u' ≡ (ok (record o { duplicate = true }), u')
  unfolding vend
  vend_once dto again u u' txn o named h same amount kind currency =
      elim (Action-cases (vend_core_tx backends dto) (begin u)) [
        | inr (_, _, p) ↦ absurd (ground arith)
        | inl (made, t, p) ↦
            let (v, found, answer, live) = vend_core_tx-eq-ok dto u txn named p in
            let left : t.db ≡ u' = ground arith in
            let out : made ≡ o = ground arith in
            let there : find_vend txn u' ≡ some v =
              subst (λ w. find_vend txn w ≡ some v) left found in
            let e = vend_core_tx-replays again u' txn v same amount kind currency there in
            let r : replay v ≡ record o { duplicate = true } =
              subst (λ w. replay v ≡ record w { duplicate = true }) out answer in
            with_actor-commits (vend_core_tx backends again) u' e ∙ ap (λ w. (ok w, u')) r
      ]
