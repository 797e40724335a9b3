-- ===== src/Common/Lists.antt =====
-- Lists measured by native numbers, a predicate on every element, and search by a test.
use Prim.Native.Nat.{ℕ, suc, zero, ◌+◌}
use mathlib.Core.Path.{◌≡◌, refl}
use mathlib.Core.Bool.{Bool, true, false}
use mathlib.Core.List.{List, [], ◌∷◌, ◌++◌}
use mathlib.Core.Option.{Option, none, some}
use native.Mathlib.Omega.{arith}
use infraco_os.Common.Tests.{if◌then◌else◌}

module _ {ℓ} {A : Type ℓ} where
  abbrev pub length : List A → ℕ
  length [] = 0
  length (x ∷ xs) = suc (length xs)

  abbrev pub replicate : ℕ → A → List A
  replicate zero a = []
  replicate (suc n) a = a ∷ replicate n a

  -- The first element that passes a test: what `rows[0]` reads of a query by a key.
  abbrev pub find? : (A → Bool) → List A → Option A
  find? p [] = none
  find? p (x ∷ xs) = if p x then some x else find? p xs

  -- `some` of a JavaScript array.
  abbrev pub exists : (A → Bool) → List A → Bool
  exists p [] = false
  exists p (x ∷ xs) = if p x then true else exists p xs

  -- `UPDATE … SET … WHERE p`
  abbrev pub update_where : (A → Bool) → (A → A) → List A → List A
  update_where p f [] = []
  update_where p f (x ∷ xs) = (if p x then f x else x) ∷ update_where p f xs

  -- `WHERE p`
  abbrev pub where_rows : (A → Bool) → List A → List A
  where_rows p [] = []
  where_rows p (x ∷ xs) = if p x then x ∷ where_rows p xs else where_rows p xs

  abbrev pub All {κ} : (A → Type κ) → List A → Type κ
  All P [] = Unit
  All P (x ∷ xs) = P x × All P xs

module _ {ℓ} {A : Type ℓ} where
  pub length-append : (xs ys : List A) → length (xs ++ ys) ≡ length xs + length ys
  length-append [] ys = omega arith
  length-append (x ∷ xs) ys = omega (arith, length-append xs ys)

  pub length-replicate : (n : ℕ) (a : A) → length (replicate n a) ≡ n
  length-replicate zero a = refl
  length-replicate (suc n) a = omega (arith, length-replicate n a)

-- What an update keeps of each row, it keeps of the table.
pub All-update_where {ℓ κ} :
    {A : Type ℓ} (P : A → Type κ) (p : A → Bool) (f : A → A) (xs : List A)
    → ((x : A) → P x → P (f x))
    → All P xs
    → All P (update_where p f xs)
All-update_where P p f [] keep h = tt
All-update_where {A = A} P p f (x ∷ xs) keep (h, hs) =
    (choose (p x), All-update_where P p f xs keep hs)
  where
    choose : (b : Bool) → P (if b then f x else x)
    choose true = keep x h
    choose false = h
