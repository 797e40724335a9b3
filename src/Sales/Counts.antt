-- ===== src/Sales/Counts.antt =====
-- How an update of a table changes the number of rows that pass a test, for the tables of
-- src/modules/sales/sales.service.ts.
use infraco_os.Common.{
  ℕ, suc, ◌+◌, ◌≤◌, Bool, true, false, ◌≡◌, refl, sym, subst, inl, inr, arith, some, List, [], ◌∷◌,
  find?, update_where, Bool-cases, if◌then◌else◌,
}
use infraco_os.Common.Keys.{Descending, has_key, update_absent}
use infraco_os.Lease.Single.{count_where}

abbrev pub one_if : Bool → ℕ
one_if true = 1
one_if false = 0

module _ {A : Type 0} (q : A → Bool) where
  pub count_cons : (x : A) (xs : List A) → count_where q (x ∷ xs) ≡ one_if (q x) + count_where q xs
  unfolding count_where
  count_cons x xs = choose (q x)
    where
      choose :
          (b : Bool)
          → (if b then suc (count_where q xs) else count_where q xs) ≡ one_if b + count_where q xs
      choose true = omega arith
      choose false = omega arith

  one_if-le : (a b : Bool) → (a ≡ true → b ≡ true) → one_if a ≤ one_if b
  one_if-le true b h = rw (h refl) (omega arith)
  one_if-le false b h = omega arith

  -- An update after which a row passes only if it did before.
  pub count_update-le :
      (p : A → Bool) (f : A → A) (xs : List A)
      → ((x : A) → q (f x) ≡ true → q x ≡ true)
      → count_where q (update_where p f xs) ≤ count_where q xs
  unfolding count_where
  count_update-le p f [] h = omega arith
  count_update-le p f (x ∷ xs) h =
      let rest = count_update-le p f xs h in
      let here = one_if-le (q (if p x then f x else x)) (q x) (kept (p x)) in
      let before = count_cons x xs in
      let after = count_cons (if p x then f x else x) (update_where p f xs) in omega arith
    where
      kept : (b : Bool) → q (if b then f x else x) ≡ true → q x ≡ true
      kept true e = h x e
      kept false e = e

  -- An update after which no row passes.
  pub count_update_none :
      (p : A → Bool) (f : A → A) (xs : List A)
      → ((x : A) → q (f x) ≡ false)
      → ((x : A) → p x ≡ false → q x ≡ false)
      → count_where q (update_where p f xs) ≡ 0
  unfolding count_where
  count_update_none p f [] all out = refl
  count_update_none p f (x ∷ xs) all out =
      let rest = count_update_none p f xs all out in
      let here = failed (p x) refl in
      let after = count_cons (if p x then f x else x) (update_where p f xs) in ground arith
    where
      failed : (b : Bool) → p x ≡ b → q (if b then f x else x) ≡ false
      failed true e = all x
      failed false e = out x e

  module _ (key : A → ℕ) (f : A → A) (id : ℕ) where
    -- The row that is found passed, and no longer does.
    pub count_update-lt :
        (xs : List A) {row : A}
        → find? (has_key key id) xs ≡ some row
        → ((x : A) → q (f x) ≡ true → q x ≡ true)
        → q row ≡ true
        → q (f row) ≡ false
        → suc (count_where q (update_where (has_key key id) f xs)) ≤ count_where q xs
    unfolding count_where
    count_update-lt [] found h was now = absurd (ground arith)
    count_update-lt (x ∷ xs) {row} found h was now = elim (Bool-cases (has_key key id x)) [
      | inl hit ↦
          let at : x ≡ row = ground arith in
          let passed = subst (λ y. q y ≡ true) (sym at) was in
          let fails = subst (λ y. q (f y) ≡ false) (sym at) now in
          let rest = count_update-le (has_key key id) f xs h in
          let before = count_cons x xs in
          let after = count_cons (f x) (update_where (has_key key id) f xs) in
          rw (hit, passed, fails) (omega (arith, rest))
      | inr miss ↦
          let later : find? (has_key key id) xs ≡ some row = ground arith in
          let rest = count_update-lt xs {row = row} later h was now in
          let before = count_cons x xs in
          let after = count_cons x (update_where (has_key key id) f xs) in rw miss (both (q x) rest)
    ]
      where
        both :
            (b : Bool) {m n : ℕ}
            → suc m ≤ n
            → suc (if b then suc m else m) ≤ (if b then suc n else n)
        both true le = omega arith
        both false le = le

    -- With unique keys the count changes by the one row.
    pub count_update_key :
        (n : ℕ) (xs : List A) {row : A}
        → Descending key n xs
        → find? (has_key key id) xs ≡ some row
        → count_where q (update_where (has_key key id) f xs) + one_if (q row)
          ≡ count_where q xs + one_if (q (f row))
    unfolding count_where
    count_update_key n [] keyed found = absurd (ground arith)
    count_update_key n (x ∷ xs) {row} (lt, keyed) found = elim (Bool-cases (has_key key id x)) [
      | inl hit ↦
          let at : x ≡ row = ground arith in
          let same = update_absent key f id (key x) xs keyed (ground arith) in
          subst
            (λ y.
              count_where q (update_where (has_key key id) f (x ∷ xs)) + one_if (q y)
              ≡ count_where q (x ∷ xs) + one_if (q (f y)))
            at (rw (hit, same) (swap (q (f x)) (q x)))
      | inr miss ↦
          let later : find? (has_key key id) xs ≡ some row = ground arith in
          let rest = count_update_key (key x) xs {row = row} keyed later in
          rw miss (
            both (q x) (count_where q (update_where (has_key key id) f xs)) (one_if (q row))
              (count_where q xs) (one_if (q (f row))) rest)
    ]
      where
        swap :
            (a b : Bool)
            → (if a then suc (count_where q xs) else count_where q xs) + one_if b
              ≡ (if b then suc (count_where q xs) else count_where q xs) + one_if a
        swap true true = refl
        swap true false = omega arith
        swap false true = omega arith
        swap false false = refl

        both :
            (b : Bool) (k l m n : ℕ)
            → k + l ≡ m + n
            → (if b then suc k else k) + l ≡ (if b then suc m else m) + n
        both true k l m n e = omega arith
        both false k l m n e = e
