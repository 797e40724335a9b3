-- ===== src/Database/Transaction/Laws.antt =====
-- What a block of statements that succeeds has gone through, and what a transaction leaves behind.
use infraco_os.Common.{
  Bool, true, false, ◌≡◌, refl, sym, ap, ◌∙◌, arith, Option, none, some, ◌⊎◌, inl, inr,
  if◌then◌else◌,
}
use infraco_os.Common.Result.{Result, ok, err}
use infraco_os.Database.Enums.{Error}
use infraco_os.Database.Transaction.{
  Action, Tx, TxState, ◌>>=◌, begin, with_actor, throw_if, or_throw, lift, statement, settle,
  commit, zoom,
}

module _ {S : Type 0} where
  -- Inversion of a bind that succeeds.
  pub >>=-eq-ok :
      {A B : Type 0} (m : Action S A) (f : A → Action S B) (s : S) {b : B} {u : S}
      → (m >>= f) s ≡ (ok b, u)
      → (a : A) × (t : S) × (m s ≡ (ok a, t)) × (f a t ≡ (ok b, u))
  >>=-eq-ok {A} {B} m f s {b} {u} h = go (m s) refl h
    where
      go :
          (r : Result Error A × S)
          → m s ≡ r
          → (let (r', t) = r in elim r' [ ok a ↦ f a t | err e ↦ (err e, t) ]) ≡ (ok b, u)
          → (a : A) × (t : S) × (m s ≡ (ok a, t)) × (f a t ≡ (ok b, u))
      go (ok a, t) e k = (a, t, e, k)
      go (err e, t) p k = absurd (ground arith)

  pub throw_if-eq-ok :
      (c : Bool) (e : Error) (s : S) {a : Unit {0}} {t : S}
      → throw_if c e s ≡ (ok a, t)
      → (c ≡ false) × (t ≡ s)
  throw_if-eq-ok true e s h = absurd (ground arith)
  throw_if-eq-ok false e s h = (refl, ground arith)

  pub or_throw-eq-ok :
      {A : Type 0} (o : Option A) (e : Error) (s : S) {a : A} {t : S}
      → or_throw o e s ≡ (ok a, t)
      → (o ≡ some a) × (t ≡ s)
  or_throw-eq-ok none e s h = absurd (ground arith)
  or_throw-eq-ok (some a) e s h = (ground arith, ground arith)

  pub lift-eq-ok :
      {A : Type 0} (r : Result Error A) (s : S) {a : A} {t : S}
      → lift r s ≡ (ok a, t)
      → (r ≡ ok a) × (t ≡ s)
  lift-eq-ok (ok a) s h = (ground arith, ground arith)
  lift-eq-ok (err e) s h = absurd (ground arith)

module _ {S A : Type 0} where
  -- A transaction that throws changes no table.
  pub with_actor-err :
      (m : Tx S A) (d : S) {e : Error} → (with_actor m d).0 ≡ err e → (with_actor m d).1 ≡ d
  with_actor-err m d h = ground arith

  -- A statement that succeeds ran in a transaction that had not failed.
  pub statement-eq-ok :
      (f : S → Result Error (A × S)) (d : S) {a : A} {t : TxState S}
      → statement f (begin d) ≡ (ok a, t)
      → (d' : S) × (f d ≡ ok (a, d')) × (t ≡ begin d')
  statement-eq-ok f d {a} {t} h = go (f d) refl h
    where
      go :
          (r : Result Error (A × S))
          → f d ≡ r
          → settle (begin d) r ≡ (ok a, t)
          → (d' : S) × (f d ≡ ok (a, d')) × (t ≡ begin d')
      go (ok (x, d')) e k = (d', ground arith, ground arith)
      go (err x) e k = absurd (ground arith)

  -- What holds before, and after every run that succeeds, holds after the transaction.
  pub with_actor_keeps {ℓ} :
      (P : S → Type ℓ) (m : Tx S A) (d : S)
      → P d
      → ((a : A) (t : TxState S) → m (begin d) ≡ (ok a, t) → P t.db)
      → P (with_actor m d).1
  with_actor_keeps P m d before after = go (m (begin d)) refl
    where
      go : (r : Result Error A × TxState S) → m (begin d) ≡ r → P (commit d r).1
      go (ok a, t) e = choose t.aborted
        where
          choose : (c : Bool) → P (if c then d else t.db)
          choose true = before
          choose false = after a t e
      go (err e, t) h = before

-- To split on how stateful code ends.
pub Action-cases :
    {S A : Type 0} (m : Action S A) (s : S)
    → ((a : A) × (t : S) × (m s ≡ (ok a, t))) ⊎ ((e : Error) × (t : S) × (m s ≡ (err e, t)))
Action-cases {S} {A} m s = go (m s) refl
  where
    go :
        (r : Result Error A × S)
        → m s ≡ r
        → ((a : A) × (t : S) × (m s ≡ (ok a, t))) ⊎ ((e : Error) × (t : S) × (m s ≡ (err e, t)))
    go (ok a, t) e = inl (a, t, e)
    go (err x, t) e = inr (x, t, e)

module _ {S A B : Type 0} where
  -- A block goes on from what its first part returned, or ends with what it threw.
  pub >>=-ok :
      (m : Action S A) (f : A → Action S B) (s : S) {a : A} {t : S}
      → m s ≡ (ok a, t)
      → (m >>= f) s ≡ f a t
  >>=-ok m f s h = ap (λ r. let (x, t) = r in elim x [ ok a ↦ f a t | err e ↦ (err e, t) ]) h

  pub >>=-err :
      (m : Action S A) (f : A → Action S B) (s : S) {e : Error} {t : S}
      → m s ≡ (err e, t)
      → (m >>= f) s ≡ (err e, t)
  >>=-err m f s h = ap (λ r. let (x, t) = r in elim x [ ok a ↦ f a t | err e ↦ (err e, t) ]) h

module _ {S A : Type 0} where
  pub with_actor-commits :
      (m : Tx S A) (d : S) {r : Result Error A} {t : TxState S}
      → m (begin d) ≡ (r, t)
      → with_actor m d ≡ commit d (r, t)
  with_actor-commits m d h = ap (commit d) h

-- What each part of a block keeps, the block keeps, whether it throws or not.
pub >>=-keeps {ℓ} :
    {S A B : Type 0} (P : S → Type ℓ) (m : Action S A) (f : A → Action S B) (s : S)
    → P (m s).1
    → ((a : A) (t : S) → P t → P (f a t).1)
    → P ((m >>= f) s).1
>>=-keeps {S} {A} {B} P m f s before after = go (m s) before
  where
    go :
        (r : Result Error A × S)
        → P r.1
        → (let u : Result Error B × S =
              (let (x, t) = r in elim x [ ok a ↦ f a t | err e ↦ (err e, t) ]) in
            P u.1)
    go (ok a, t) h = after a t h
    go (err e, t) h = h

-- A block ends where its first part throws, or where the rest leads from what that returned.
pub >>=-cases {ℓ} :
    {S A B : Type 0} (Q : S → Type ℓ) (m : Action S A) (f : A → Action S B) (s : S)
    → ((e : Error) (t : S) → m s ≡ (err e, t) → Q t)
    → ((a : A) (t : S) → m s ≡ (ok a, t) → Q (f a t).1)
    → Q ((m >>= f) s).1
>>=-cases {S} {A} {B} Q m f s stops goes = go (m s) refl
  where
    go :
        (r : Result Error A × S)
        → m s ≡ r
        → (let u : Result Error B × S =
              (let (x, t) = r in elim x [ ok a ↦ f a t | err e ↦ (err e, t) ]) in
            Q u.1)
    go (ok a, t) e = goes a t e
    go (err e, t) h = stops e t h

-- A transaction of one statement.
pub with_actor-statement {ℓ} :
    {S A : Type 0} (Q : S → Type ℓ) (f : S → Result Error (A × S)) (d : S)
    → Q d
    → ((a : A) (d' : S) → f d ≡ ok (a, d') → Q d')
    → Q (with_actor (statement f) d).1
with_actor-statement {S} {A} Q f d before after = go (f d) refl
  where
    go : (r : Result Error (A × S)) → f d ≡ r → Q (commit d (settle (begin d) r)).1
    go (ok (a, d')) e = after a d' e
    go (err x) e = before

-- A value that must be there is read without a change, whether it is there or not.
pub or_throw-state :
    {S A : Type 0} (o : Option A) (e : Error) (s : S) {r : Result Error A} {t : S}
    → or_throw o e s ≡ (r, t)
    → t ≡ s
or_throw-state none e s h = ap (λ r. r.1) (sym h)
or_throw-state (some a) e s h = ap (λ r. r.1) (sym h)

-- What a transaction returns, its code returned; it leaves what the code left, if nothing failed.
pub with_actor-eq-ok :
    {S A : Type 0} (m : Tx S A) (d : S) {a : A} {t : S}
    → with_actor m d ≡ (ok a, t)
    → (u : TxState S) × (m (begin d) ≡ (ok a, u)) × (t ≡ (if u.aborted then d else u.db))
with_actor-eq-ok {S} {A} m d {a} {t} h = go (m (begin d)) refl h
  where
    go :
        (r : Result Error A × TxState S)
        → m (begin d) ≡ r
        → commit d r ≡ (ok a, t)
        → (u : TxState S) × (m (begin d) ≡ (ok a, u)) × (t ≡ (if u.aborted then d else u.db))
    go (ok x, u) e k = (u, e ∙ ap (λ y. (y, u)) (ap (λ r. r.0) k), ap (λ r. r.1) (sym k))
    go (err x, u) e k = absurd (ground arith)

-- A transaction on some of the tables, run inside one on more of them.
pub zoom-eq-ok :
    {S T A : Type 0} (get : T → S) (put : S → T → T) (m : Tx S A) (d : T) {a : A} {u : TxState T}
    → zoom get put m (begin d) ≡ (ok a, u)
    → (v : TxState S) × (m (begin (get d)) ≡ (ok a, v))
      × (u ≡ record { db = put v.db d; aborted = v.aborted })
zoom-eq-ok get put m d h =
    ((m (begin (get d))).1, ap (λ r. (r.0, (m (begin (get d))).1)) h, ap (λ r. r.1) (sym h))
