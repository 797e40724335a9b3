-- ===== src/Lease/Single.antt =====
-- At most one active lease for each premises: what uq_active_lease of db/infraco_os_schema.sql keeps
-- when `transitionLease` of src/modules/lease/lease.service.ts moves one lease.
use infraco_os.Common.{
  ℕ, suc, ◌≤◌, Bool, true, false, ◌&&◌, ◌≡◌, refl, sym, subst, inl, inr, arith, some, List, [], ◌∷◌,
  exists, find?, update_where, ◌==◌, Bool-cases, if◌then◌else◌,
}
use infraco_os.Common.Keys.{Descending, has_key, update_absent}
use infraco_os.Lease.{Lease, lease_key, is_active}
use infraco_os.Lease.Lifecycle.{holds_premises}

-- The active leases of one premises.
abbrev pub active_on : ℕ → Lease → Bool
active_on premises l = is_active l.status && (l.premises_id == premises)

unfoldable pub count_where : {A : Type 0} → (A → Bool) → List A → ℕ
count_where p [] = 0
count_where p (x ∷ xs) = if p x then suc (count_where p xs) else count_where p xs

-- An update of one row that is not active on the premises afterwards does not raise their count.
pub count_update_idle :
    (f : Lease → Lease) (id premises n : ℕ) (ls : List Lease) (row : Lease)
    → Descending lease_key n ls
    → find? (has_key lease_key id) ls ≡ some row
    → active_on premises (f row) ≡ false
    → count_where (active_on premises) (update_where (has_key lease_key id) f ls)
      ≤ count_where (active_on premises) ls
unfolding count_where
count_update_idle f id premises n [] row h found idle = omega arith
count_update_idle f id premises n (l ∷ ls) row (h, hs) found idle =
    elim (Bool-cases (has_key lease_key id l)) [
      | inl hit ↦
          let at : l ≡ row = ground arith in
          let now : active_on premises (f l) ≡ false =
            subst (λ x. active_on premises (f x) ≡ false) (sym at) idle in
          let same = update_absent lease_key f id (key_of l) ls hs (ground arith) in
          rw (hit, now, same) (below (active_on premises l))
      | inr miss ↦
          let at : find? (has_key lease_key id) ls ≡ some row = ground arith in
          let rest = count_update_idle f id premises (key_of l) ls row hs at idle in
          rw miss (both (active_on premises l) rest)
    ]
  where
    key_of : Lease → ℕ
    key_of x = x.lease_id

    below :
        (b : Bool)
        → count_where (active_on premises) ls ≤ (
            if b
            then suc (count_where (active_on premises) ls)
            else count_where (active_on premises) ls)
    below true = omega arith
    below false = omega arith

    both : (b : Bool) {m n : ℕ} → m ≤ n → (if b then suc m else m) ≤ (if b then suc n else n)
    both true le = omega arith
    both false le = le

not_held :
    (row l : Lease) (ls : List Lease)
    → has_key lease_key row.lease_id l ≡ false
    → exists (holds_premises row) (l ∷ ls) ≡ false
    → (active_on row.premises_id l ≡ false) × (exists (holds_premises row) ls ≡ false)
not_held row l ls miss e =
    let (this, others) = first (holds_premises row l) e in
    (idle (is_active l.status) (l.premises_id == row.premises_id) (rw miss at this), others)
  where
    first : (b : Bool) {c : Bool} → (if b then true else c) ≡ false → (b ≡ false) × (c ≡ false)
    first true h = absurd (ground arith)
    first false h = (refl, h)

    idle : (a b : Bool) → (a && (b && true)) ≡ false → (a && b) ≡ false
    idle true true h = h
    idle true false h = refl
    idle false b h = refl

-- Where no other row is active on the premises, no row without the key is.
count_others :
    (row : Lease) (n : ℕ) (ls : List Lease)
    → Descending lease_key n ls
    → n ≤ row.lease_id
    → exists (holds_premises row) ls ≡ false
    → count_where (active_on row.premises_id) ls ≡ 0
unfolding count_where
count_others row n [] h le e = refl
count_others row n (l ∷ ls) (h, hs) le e =
    let miss : has_key lease_key row.lease_id l ≡ false = ground arith in
    let (idle, others) = not_held row l ls miss e in
    rw idle (count_others row l.lease_id ls hs (omega arith) others)

pub count_update_only :
    (f : Lease → Lease) (row : Lease) (n : ℕ) (ls : List Lease)
    → Descending lease_key n ls
    → exists (holds_premises row) ls ≡ false
    → count_where (active_on row.premises_id) (update_where (has_key lease_key row.lease_id) f ls)
      ≤ 1
unfolding count_where
count_update_only f row n [] h e = omega arith
count_update_only f row n (l ∷ ls) (h, hs) e =
    elim (Bool-cases (has_key lease_key row.lease_id l)) [
      | inl hit ↦
          let le : l.lease_id ≤ row.lease_id = ground arith in
          let none_left = count_others row l.lease_id ls hs le (rest_of (holds_premises row l) e) in
          let same = update_absent lease_key f row.lease_id l.lease_id ls hs le in
          rw (hit, same, none_left) (at_most (active_on row.premises_id (f l)))
      | inr miss ↦
          let (idle, others) = not_held row l ls miss e in
          rw (miss, idle) (count_update_only f row l.lease_id ls hs others)
    ]
  where
    rest_of : (b : Bool) {c : Bool} → (if b then true else c) ≡ false → c ≡ false
    rest_of true h = absurd (ground arith)
    rest_of false h = h

    at_most : (b : Bool) → (if b then 1 else 0) ≤ 1
    at_most true = omega arith
    at_most false = omega arith
