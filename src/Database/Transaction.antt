-- ===== src/Database/Transaction.antt =====
-- `PrismaService.withActor`: a callback that runs in one database transaction. The session variables
-- that it sets for the audit trigger change no table, so they are left out.
--
-- A statement that violates a constraint leaves the transaction failed: PostgreSQL refuses every
-- later statement of it, also when the code catches the error, and its commit is a rollback.
pub mod Laws
use infraco_os.Common.{Bool, true, false, Option, none, some, if◌then◌else◌}
use infraco_os.Common.Result.{Result, ok, err}
use infraco_os.Database.Enums.{Error, tx_aborted}

-- Stateful code that may throw; the state comes back in either case.
abbrev pub Action : Type 0 → Type 0 → Type 0
Action S A = S → Result Error A × S

infixl 5 ◌>>=◌ ◌>>◌
abbrev pub ◌>>=◌ : {S A B : Type 0} → Action S A → (A → Action S B) → Action S B
◌>>=◌ m f s = let (r, s') = m s in elim r [ ok a ↦ f a s' | err e ↦ (err e, s') ]

abbrev pub ◌>>◌ : {S A B : Type 0} → Action S A → Action S B → Action S B
m >> k = m >>= λ _. k

module _ {S : Type 0} where
  abbrev pub pure : {A : Type 0} → A → Action S A
  pure a s = (ok a, s)

  abbrev pub throw : {A : Type 0} → Error → Action S A
  throw e s = (err e, s)

  abbrev pub throw_if : Bool → Error → Action S (Unit {0})
  throw_if b e s = (if b then err e else ok tt, s)

  abbrev pub or_throw : {A : Type 0} → Option A → Error → Action S A
  or_throw none e s = (err e, s)
  or_throw (some a) e s = (ok a, s)

  abbrev pub lift : {A : Type 0} → Result Error A → Action S A
  lift r s = (r, s)

-- The tables as the transaction sees them, and whether a statement of it has failed.
pub record TxState (S : Type 0) : Type 0 where
  pub db : S
  pub aborted : Bool

abbrev pub Tx : Type 0 → Type 0 → Type 0
Tx S A = Action (TxState S) A

abbrev pub begin : {S : Type 0} → S → TxState S
begin d = record { db = d; aborted = false }

module _ {S : Type 0} where
  -- How a statement leaves the transaction: `err` stands for a violated constraint.
  abbrev pub settle : {A : Type 0} → TxState S → Result Error (A × S) → Result Error A × TxState S
  settle s (ok (a, d)) = (ok a, record s { db = d })
  settle s (err e) = (err e, record s { aborted = true })

  -- One SQL statement.
  abbrev pub statement : {A : Type 0} → (S → Result Error (A × S)) → Tx S A
  statement f s = if s.aborted then (err tx_aborted, s) else settle s (f s.db)

  abbrev pub query : {A : Type 0} → (S → A) → Tx S A
  query f = statement (λ d. ok (f d, d))

  abbrev pub modify : (S → S) → Tx S (Unit {0})
  modify f = statement (λ d. ok (tt, f d))

  -- `try { … } catch`: the outcome as a value.
  abbrev pub attempt : {A : Type 0} → Tx S A → Tx S (Result Error A)
  attempt m s = let (r, s') = m s in (ok r, s')

  -- Commit what succeeds; roll back what throws, and what returns from a failed transaction.
  abbrev pub commit : {A : Type 0} → S → Result Error A × TxState S → Result Error A × S
  commit d (ok a, s) = (ok a, if s.aborted then d else s.db)
  commit d (err e, s) = (err e, d)

  abbrev pub with_actor : {A : Type 0} → Tx S A → Action S A
  with_actor m d = commit d (m (begin d))

-- A transaction on some of the tables, run inside one on more of them.
abbrev pub zoom : {S T A : Type 0} → (T → S) → (S → T → T) → Tx S A → Tx T A
zoom get put m t =
    let (r, s) = m (record { db = get t.db; aborted = t.aborted }) in
    (r, record { db = put s.db t.db; aborted = s.aborted })
