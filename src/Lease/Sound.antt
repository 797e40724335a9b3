-- ===== src/Lease/Sound.antt =====
-- What every run of the lease service keeps: `createLease` and `transitionLease` of
-- src/modules/lease/lease.service.ts.
use infraco_os.Common.{
  ℕ, ◌+◌, ◌≤◌, Bool, true, false, ◌&&◌, ◌≡◌, ◌≢◌, refl, sym, ap, subst, inl, inr, arith, Option,
  some, List, [], ◌∷◌, All, find?, update_where, is_some, ◌==◌, Bool-cases, if◌then◌else◌,
}
use infraco_os.Common.Keys.{Descending, has_key, Descending-update, All-update_key, find?-key}
use infraco_os.Common.Result.{ok, err, Result-cases}
use infraco_os.Database.Enums.{
  Error, check_violation, foreign_key_violation, LeaseStatus, lease_draft,
}
use infraco_os.Database.Transaction.{lift, statement, with_actor}
use infraco_os.Database.Transaction.Laws.{>>=-cases, lift-eq-ok, with_actor-statement}
use infraco_os.Office.{Reference, rethrow}
use infraco_os.Lease.{Calendar, Lease, Estate, lease_key, is_active}
use infraco_os.Lease.Rows.{
  Checked, CreateLease, check_lease, cast_text, cast_option, cast_lease, store_lease, insert_lease,
}
use infraco_os.Lease.Lifecycle.{foreign_key_error, set_lease, create_lease, transition_lease}
use infraco_os.Lease.Single.{active_on, count_where, count_update_idle, count_update_only}
use infraco_os.Lease.Steps.{Effect, kept, moved, transition_lease-Effect}

-- An active lease has its account, and its anniversary where it has an escalation.
pub record IsReady (l : Lease) : Type 0 where
  pub accounted : is_active l.status ≡ true → is_some l.account_id ≡ true
  pub escalates :
      is_active l.status ≡ true
      → is_some l.escalation_pct ≡ true
      → is_some l.escalation_anniv ≡ true

pub record IsSound (e : Estate) : Type 0 where
  pub keyed : Descending lease_key e.next_lease_id e.leases
  pub ready : All IsReady e.leases
  pub single : (premises : ℕ) → count_where (active_on premises) e.leases ≤ 1

and_left : (a b : Bool) → (a && b) ≡ true → a ≡ true
and_left true b h = refl
and_left false b h = h

-- A transition keeps the table sound.
Effect-IsSound :
    (code : Reference → ℕ) (stamp : ℕ) (cal : Calendar) {e t : Estate}
    → IsSound e
    → Effect code stamp cal e t
    → IsSound t
Effect-IsSound code stamp cal {e} {t} s (kept same next) = record {
  keyed =
      subst (λ n. Descending lease_key n t.leases) (sym next)
        (subst (Descending lease_key e.next_lease_id) (sym same) s.keyed);
  ready = subst (All IsReady) (sym same) s.ready;
  single = λ p. rw same (s.single p);
}
Effect-IsSound code stamp cal {e} {t} s (moved id l to account anniv found step when same next) =
    record {
      keyed =
          subst (λ n. Descending lease_key n t.leases) (sym next)
            (subst (Descending lease_key e.next_lease_id) (sym same) (
              Descending-update lease_key (set_lease to account anniv) l.lease_id e.next_lease_id
                e.leases (λ x. refl) s.keyed));
      ready = subst (All IsReady) (sym same) (
          All-update_key lease_key (set_lease to account anniv) l.lease_id IsReady e.next_lease_id
            e.leases s.keyed its_own
            (λ r. record { accounted = λ a. (when a).1; escalates = λ a. (when a).2 }) s.ready);
      single = λ p. rw same (choose p);
    }
  where
    its_own : find? (has_key lease_key l.lease_id) e.leases ≡ some l
    its_own =
        subst (λ i. find? (has_key lease_key i) e.leases ≡ some l)
          (sym (find?-key lease_key id e.leases found)) found

    choose :
        (p : ℕ)
        → count_where
            (active_on p)
            (update_where (has_key lease_key l.lease_id) (set_lease to account anniv) e.leases)
          ≤ 1
    choose p = elim (Bool-cases (active_on p (set_lease to account anniv l))) [
      | inl active ↦
          let here : l.premises_id ≡ p = ground arith in
          subst
            (λ q.
              count_where (active_on q)
                (update_where (has_key lease_key l.lease_id) (set_lease to account anniv) e.leases)
              ≤ 1)
            here
            (count_update_only (set_lease to account anniv) l e.next_lease_id e.leases s.keyed
              (when (and_left (is_active to) (l.premises_id == p) active)).0)
      | inr idle ↦
          let le =
            count_update_idle (set_lease to account anniv) l.lease_id p e.next_lease_id e.leases l
              s.keyed its_own idle in
          let before = s.single p in omega arith
    ]

-- What `createLease` may do to the table of leases: nothing, or a new draft.
pub data Added (e t : Estate) : Type 0 where
  nothing : t.leases ≡ e.leases → t.next_lease_id ≡ e.next_lease_id → Added e t
  draft :
      (l : Lease)
      → l.lease_id ≡ e.next_lease_id
      → l.status ≡ lease_draft
      → t.leases ≡ l ∷ e.leases
      → t.next_lease_id ≡ e.next_lease_id + 1
      → Added e t

cast_lease_lem :
    (cal : Calendar) (id : ℕ) (c : Checked) (dto : CreateLease) {l : Lease}
    → cast_lease cal id c dto ≡ ok l
    → (l.lease_id ≡ id) × (l.status ≡ lease_draft)
unfolding cast_lease
cast_lease_lem cal id c dto h = elim (Result-cases (cast_text cal c.start)) [
  | inr (x, e) ↦ let at = rw e at h in absurd (ground arith)
  | inl (start, e) ↦
      let at = rw e at h in
      elim (Result-cases (cast_text cal c.end)) [
        | inr (x, f) ↦ let at' = rw f at at in absurd (ground arith)
        | inl (end, f) ↦
            let at' = rw f at at in
            elim (Result-cases (cast_option cal dto.escalation_anniv)) [
              | inr (x, g) ↦ let at'' = rw g at at' in absurd (ground arith)
              | inl (anniv, g) ↦ let at'' = rw g at at' in (ground arith, ground arith)
            ]
      ]
]

store_lease_lem :
    (l : Lease) (e : Estate) {id : ℕ} {t : Estate}
    → store_lease l e ≡ ok (id, t)
    → (t.leases ≡ l ∷ e.leases) × (t.next_lease_id ≡ e.next_lease_id + 1)
store_lease_lem l e h =
    let at = passed _ _ check_violation foreign_key_violation h in
    (ap (λ r. r.1.leases) (sym at), ap (λ r. r.1.next_lease_id) (sym at))
  where
    passed :
        (b c : Bool) (x y : Error) {v w : ℕ × Estate}
        → (if b then err x else if c then err y else ok v) ≡ ok w
        → v ≡ w
    passed true c x y k = absurd (ground arith)
    passed false true x y k = absurd (ground arith)
    passed false false x y k = ground arith

insert_lease-Added :
    (cal : Calendar) (c : Checked) (dto : CreateLease) (e t : Estate) {id : ℕ}
    → insert_lease cal c dto e ≡ ok (id, t)
    → Added e t
unfolding insert_lease
insert_lease-Added cal c dto e t h = elim (Result-cases (cast_lease cal e.next_lease_id c dto)) [
  | inr (x, f) ↦ let at = rw f at h in absurd (ground arith)
  | inl (l, f) ↦
      let at = rw f at h in
      let (id, status) = cast_lease_lem cal e.next_lease_id c dto f in
      let (leases, next) = store_lease_lem l e at in draft l id status leases next
]

pub create_lease-Added :
    (cal : Calendar) (dto : CreateLease) (e : Estate) → Added e (create_lease cal dto e).1
unfolding create_lease
create_lease-Added cal dto e =
    >>=-cases (Added e) (lift (check_lease dto))
      (λ c. rethrow foreign_key_error (with_actor (statement (insert_lease cal c dto)))) e
      (λ x t h. nothing (ap (λ r. r.1.leases) (sym h)) (ap (λ r. r.1.next_lease_id) (sym h)))
      (λ c t h.
        let (checked, at) = lift-eq-ok (check_lease dto) e h in
        subst
          (λ u.
            Added e
              (rethrow foreign_key_error (with_actor (statement (insert_lease cal c dto))) u).1)
          (sym at)
          (with_actor-statement (Added e) (insert_lease cal c dto) e (nothing refl refl)
            (λ id u k. insert_lease-Added cal c dto e u k)))

draft-IsReady : (l : Lease) → l.status ≡ lease_draft → IsReady l
draft-IsReady l e = record {
  accounted = λ a. absurd (not_active a);
  escalates = λ a p. absurd (not_active a);
}
  where
    not_active : is_active l.status ≢ true
    not_active a = let at = rw e at a in ground arith

Added-IsSound : {e t : Estate} → IsSound e → Added e t → IsSound t
unfolding count_where
Added-IsSound {e} {t} s (nothing same next) = record {
  keyed =
      subst (λ n. Descending lease_key n t.leases) (sym next)
        (subst (Descending lease_key e.next_lease_id) (sym same) s.keyed);
  ready = subst (All IsReady) (sym same) s.ready;
  single = λ p. rw same (s.single p);
}
Added-IsSound {e} {t} s (draft l id status same next) = record {
  keyed =
      subst (λ n. Descending lease_key n t.leases) (sym next)
        (subst (Descending lease_key (e.next_lease_id + 1)) (sym same)
          (omega (arith, id), subst (λ n. Descending lease_key n e.leases) (sym id) s.keyed));
  ready = subst (All IsReady) (sym same) (draft-IsReady l status, s.ready);
  single = λ p. rw (same, status) (s.single p);
}

-- The two operations that change a lease, with the parameters of a call.
pub data Op : Type 0 where
  creates : Calendar → CreateLease → Op
  transitions : (Reference → ℕ) → (stamp : ℕ) → Calendar → (lease : ℕ) → Option LeaseStatus → Op

unfoldable pub step : Op → Estate → Estate
unfolding create_lease transition_lease
step (creates cal dto) e = (create_lease cal dto e).1
step (transitions code stamp cal id to) e = (transition_lease code stamp cal id to e).1

unfoldable pub run_ops : List Op → Estate → Estate
unfolding step
run_ops [] e = e
run_ops (op ∷ ops) e = run_ops ops (step op e)

pub step-IsSound : (op : Op) (e : Estate) → IsSound e → IsSound (step op e)
unfolding step
step-IsSound (creates cal dto) e s = Added-IsSound s (create_lease-Added cal dto e)
step-IsSound (transitions code stamp cal id to) e s =
    Effect-IsSound code stamp cal s (transition_lease-Effect code stamp cal id to e)

-- However leases are created and moved, and whatever the calls return: no premises has two active
-- leases, an active lease has its account, and one with an escalation has its anniversary.
pub run_ops-IsSound : (ops : List Op) (e : Estate) → IsSound e → IsSound (run_ops ops e)
unfolding run_ops
run_ops-IsSound [] e s = s
run_ops-IsSound (op ∷ ops) e s = run_ops-IsSound ops (step op e) (step-IsSound op e s)
