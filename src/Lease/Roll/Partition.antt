-- ===== src/Lease/Roll/Partition.antt =====
-- Each premises has one row of the rent roll of src/modules/lease/lease.service.ts.
use infraco_os.Common.{
  ℕ, suc, ◌+◌, ◌≤◌, Bool, true, false, not, ◌&&◌, ◌≡◌, refl, ap, ◌∙◌, inl, inr, arith, List, [],
  ◌∷◌, ◌++◌, map, All, exists, where_rows, ◌==◌, Bool-cases, if◌then◌else◌,
}
use infraco_os.Office.{has_customer}
use infraco_os.Lease.{Premises, Lease, Estate, is_active}
use infraco_os.Lease.Roll.{
  Clock, RollRow, lease_row, vacant_row, has_premises_id, is_let, is_vacant, roll_rows,
}
use infraco_os.Lease.Single.{active_on, count_where}
use infraco_os.Lease.Sound.{IsSound}

-- The rows of one premises.
abbrev pub row_of : ℕ → RollRow → Bool
row_of id r = r.premises_id == id

-- What the foreign keys and the primary key of lease.premises say.
pub record IsLinked (e : Estate) : Type 0 where
  pub joined :
      All
        (λ l.
          (exists (has_premises_id l.premises_id) e.premises ≡ true)
          × (exists (has_customer l.tenant_id) e.office.customers ≡ true))
        e.leases
  pub unique : (id : ℕ) → count_where (has_premises_id id) e.premises ≤ 1

count-append :
    {A : Type 0} (p : A → Bool) (xs ys : List A)
    → count_where p (xs ++ ys) ≡ count_where p xs + count_where p ys
unfolding count_where
count-append p [] ys = omega arith
count-append p (x ∷ xs) ys = elim (Bool-cases (p x)) [
  | inl hit ↦ rw hit (omega (arith, count-append p xs ys))
  | inr miss ↦ rw miss (count-append p xs ys)
]

count_pos : {A : Type 0} (p : A → Bool) (xs : List A) → exists p xs ≡ true → 1 ≤ count_where p xs
unfolding count_where
count_pos p [] h = absurd (ground arith)
count_pos p (x ∷ xs) h = elim (Bool-cases (p x)) [
  | inl hit ↦ rw hit (omega arith)
  | inr miss ↦ rw miss (count_pos p xs (ground arith))
]

count_zero : {A : Type 0} (p : A → Bool) (xs : List A) → exists p xs ≡ false → count_where p xs ≡ 0
unfolding count_where
count_zero p [] h = refl
count_zero p (x ∷ xs) h = elim (Bool-cases (p x)) [
  | inl hit ↦ absurd (ground arith)
  | inr miss ↦ rw miss (count_zero p xs (ground arith))
]

-- The rows of leases for one premises are its active leases.
count_lease_rows :
    (clock : Clock) (today id : ℕ) (e : Estate) (ls : List Lease)
    → All
        (λ l.
          (exists (has_premises_id l.premises_id) e.premises ≡ true)
          × (exists (has_customer l.tenant_id) e.office.customers ≡ true))
        ls
    → count_where (row_of id) (map (lease_row clock today e.office.fin) (where_rows (is_let e) ls))
      ≡ count_where (active_on id) ls
unfolding count_where lease_row
count_lease_rows clock today id e [] h = refl
count_lease_rows clock today id e (l ∷ ls) ((known, tenant), hs) =
    let rest = count_lease_rows clock today id e ls hs in
    rw (known, tenant) (choose (is_active l.status) rest)
  where
    rows : List Lease → List RollRow
    rows xs = map (lease_row clock today e.office.fin) xs

    choose :
        (b : Bool)
        → count_where (row_of id) (rows (where_rows (is_let e) ls)) ≡ count_where (active_on id) ls
        → count_where
            (row_of id)
            (rows (if b && true then l ∷ where_rows (is_let e) ls else where_rows (is_let e) ls))
          ≡ (if b && (l.premises_id == id)
              then suc (count_where (active_on id) ls)
              else count_where (active_on id) ls)
    choose true same = ap (λ n. if l.premises_id == id then suc n else n) same
    choose false same = same

-- The rows of vacant premises.
count_vacant_rows :
    (id : ℕ) (e : Estate) (ps : List Premises)
    → count_where (row_of id) (map vacant_row (where_rows (is_vacant e) ps))
      ≡ (if exists (active_on id) e.leases then 0 else count_where (has_premises_id id) ps)
unfolding count_where
count_vacant_rows id e [] = choose (exists (active_on id) e.leases)
  where
    choose : (b : Bool) → ◌≡◌ {A = ℕ} 0 (if b then 0 else 0)
    choose true = refl
    choose false = refl
count_vacant_rows id e (p ∷ ps) = elim (Bool-cases (p.premises_id == id)) [
  | inl hit ↦
      let at : p.premises_id ≡ id = ground arith in
      rw (hit, ap (λ x. exists (active_on x) e.leases) at)
        (here hit (exists (active_on id) e.leases) (count_vacant_rows id e ps))
  | inr miss ↦
      rw miss
        (elsewhere miss (exists (active_on p.premises_id) e.leases) (count_vacant_rows id e ps))
]
  where
    rows : List Premises → ℕ
    rows xs = count_where (row_of id) (map vacant_row xs)

    here :
        (p.premises_id == id) ≡ true
        → (b : Bool)
        → rows (where_rows (is_vacant e) ps)
          ≡ (if b then 0 else count_where (has_premises_id id) ps)
        → rows (if not b then p ∷ where_rows (is_vacant e) ps else where_rows (is_vacant e) ps)
          ≡ (if b then 0 else suc (count_where (has_premises_id id) ps))
    here hit true same = same
    here hit false same = rw hit (ap suc same)

    elsewhere :
        (p.premises_id == id) ≡ false
        → (b : Bool) {n : ℕ} → rows (where_rows (is_vacant e) ps) ≡ n
        → rows (if not b then p ∷ where_rows (is_vacant e) ps else where_rows (is_vacant e) ps) ≡ n
    elsewhere other true same = same
    elsewhere other false same = rw other same

-- Where no premises has two active leases and the foreign keys hold, each premises has exactly one
-- row of the rent roll: that of its active lease, or a vacant one.
pub roll_rows-once :
    (clock : Clock) (today id : ℕ) (e : Estate)
    → IsSound e
    → IsLinked e
    → exists (has_premises_id id) e.premises ≡ true
    → count_where (row_of id) (roll_rows clock today e) ≡ 1
unfolding roll_rows
roll_rows-once clock today id e sound linked known =
    let rows_vacant = count_vacant_rows id e e.premises in
    count-append (row_of id)
      (map (lease_row clock today e.office.fin) (where_rows (is_let e) e.leases))
      (map vacant_row (where_rows (is_vacant e) e.premises))
    ∙ elim (Bool-cases (exists (active_on id) e.leases)) [
      | inl let_out ↦
          let one = count_pos (active_on id) e.leases let_out in
          let single = sound.single id in
          let vacant = rw let_out at rows_vacant in
          omega (arith, count_lease_rows clock today id e e.leases linked.joined)
      | inr unlet ↦
          let none_let = count_zero (active_on id) e.leases unlet in
          let one = count_pos (has_premises_id id) e.premises known in
          let unique = linked.unique id in
          let vacant = rw unlet at rows_vacant in
          omega (arith, count_lease_rows clock today id e e.leases linked.joined)
    ]
