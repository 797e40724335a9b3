-- ===== src/Common/Keys.antt =====
-- Tables with a primary key that is handed out in increasing order, newest row first: what a query
-- and an update by the key do.
use infraco_os.Common.{
  ℕ, ◌<◌, ◌≤◌, ◌≡◌, ◌≢◌, refl, sym, subst, inl, inr, arith, Bool, true, false, some, List, [], ◌∷◌,
  All, find?, update_where, ◌==◌, ==_refl, Bool-cases, if◌then◌else◌,
}

module _ {A : Type 0} (key : A → ℕ) where
  -- Every key is below `n` and below the key of the row before it.
  abbrev pub Descending : ℕ → List A → Type 0
  Descending n [] = Unit
  Descending n (x ∷ xs) = (key x < n) × Descending (key x) xs

  abbrev pub has_key : ℕ → A → Bool
  has_key id x = key x == id

  pub Descending-le : (m n : ℕ) (xs : List A) → m ≤ n → Descending m xs → Descending n xs
  Descending-le m n [] le h = tt
  Descending-le m n (x ∷ xs) le (h, hs) = (omega arith, hs)

  -- No row has a key that none can have.
  pub update_absent :
      (f : A → A) (id n : ℕ) (xs : List A)
      → Descending n xs
      → n ≤ id
      → update_where (has_key id) f xs ≡ xs
  update_absent f id n [] h le = refl
  update_absent f id n (x ∷ xs) (h, hs) le =
      let rest = update_absent f id (key x) xs hs (omega arith) in ground arith

  pub find?-below :
      (id n : ℕ) (xs : List A) {row : A}
      → Descending n xs
      → find? (has_key id) xs ≡ some row
      → id < n
  find?-below id n [] h e = absurd (ground arith)
  find?-below id n (x ∷ xs) {row} (h, hs) e =
      let rest = find?-below id (key x) xs {row = row} hs in ground arith

  -- A row that a query finds is the one with its key.
  pub find?-its_key :
      (p : A → Bool) (n : ℕ) (xs : List A) {row : A}
      → Descending n xs
      → find? p xs ≡ some row
      → find? (has_key (key row)) xs ≡ some row
  find?-its_key p n [] h e = absurd (ground arith)
  find?-its_key p n (x ∷ xs) {row} (h, hs) e = elim (Bool-cases (p x)) [
    | inl passes ↦ let at : row ≡ x = ground arith in let same = ==_refl (key x) in ground arith
    | inr fails ↦
        let rest = find?-its_key p (key x) xs {row = row} hs (ground arith) in
        let below = find?-below (key row) (key x) xs {row = row} hs rest in ground arith
  ]

  pub find?-key : (id : ℕ) (xs : List A) {row : A} → find? (has_key id) xs ≡ some row → key row ≡ id
  find?-key id [] e = absurd (ground arith)
  find?-key id (x ∷ xs) {row} e = let rest = find?-key id xs {row = row} in ground arith

  module _ (f : A → A) (id : ℕ) where
    pub Descending-update :
        (n : ℕ) (xs : List A)
        → ((x : A) → key (f x) ≡ key x)
        → Descending n xs
        → Descending n (update_where (has_key id) f xs)
    Descending-update n [] same h = tt
    Descending-update n (x ∷ xs) same (h, hs) = (
      rw (kept (has_key id x)) h,
      subst (λ k. Descending k (update_where (has_key id) f xs)) (sym (kept (has_key id x)))
          (Descending-update (key x) xs same hs),
    )
      where
        kept : (b : Bool) → key (if b then f x else x) ≡ key x
        kept true = same x
        kept false = refl

    pub find?-update_self :
        (xs : List A) {row : A}
        → ((y : A) → key (f y) ≡ key y)
        → find? (has_key id) xs ≡ some row
        → find? (has_key id) (update_where (has_key id) f xs) ≡ some (f row)
    find?-update_self [] same e = absurd (ground arith)
    find?-update_self (x ∷ xs) {row} same e =
        let rest = find?-update_self xs {row = row} same in let s = same x in ground arith

    pub find?-update_ne :
        (other : ℕ) (xs : List A)
        → ((y : A) → key (f y) ≡ key y)
        → other ≢ id
        → find? (has_key other) (update_where (has_key id) f xs) ≡ find? (has_key other) xs
    find?-update_ne other [] same ne = refl
    find?-update_ne other (x ∷ xs) same ne =
        let rest = find?-update_ne other xs same ne in let s = same x in ground arith

    -- An update of one row keeps what every row satisfies, if that row keeps it.
    pub All-update_key {κ} :
        (P : A → Type κ) (n : ℕ) (xs : List A) {row : A}
        → Descending n xs
        → find? (has_key id) xs ≡ some row
        → (P row → P (f row))
        → All P xs
        → All P (update_where (has_key id) f xs)
    All-update_key P n [] h e step all = tt
    All-update_key P n (x ∷ xs) {row} (h, hs) e step (p, ps) = elim (Bool-cases (has_key id x)) [
      | inl same ↦
          let e : row ≡ x = ground arith in
          let le : key x ≤ id = ground arith in
          (
            rw same (subst (λ y. P (f y)) e (step (subst P (sym e) p))),
            subst (All P) (sym (update_absent f id (key x) xs hs le)) ps,
          )
      | inr differs ↦
          let found : find? (has_key id) xs ≡ some row = ground arith in
          (rw differs p, All-update_key P (key x) xs hs found step ps)
    ]
