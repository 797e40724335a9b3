-- ===== src/Lease/History.antt =====
-- What becomes of a lease along a run of the lease service: `createLease` and `transitionLease` of
-- src/modules/lease/lease.service.ts against the life cycle of LEASE-003.
use infraco_os.Common.{
  ℕ, true, false, ◌≡◌, refl, sym, ap, subst, ◌⊎◌, inl, inr, arith, Option, none, some, List, [],
  ◌∷◌, find?, update_where, ◌==◌, Bool-cases, Option-cases, if◌then◌else◌,
}
use infraco_os.Common.Keys.{has_key, find?-below, find?-key, find?-update_self, find?-update_ne}
use infraco_os.Database.Enums.{LeaseStatus, lease_draft, expired, terminated}
use infraco_os.Office.{Reference}
use infraco_os.Lease.{Calendar, Lease, Estate, lease_key}
use infraco_os.Lease.Lifecycle.{set_lease, create_lease, transition_lease}
use infraco_os.Lease.Sound.{
  Added, nothing, draft, create_lease-Added, IsSound, Op, creates, transitions, step, run_ops,
  step-IsSound,
}
use infraco_os.Lease.Cycle.{
  sign, activate, renew, renewed, expire, lapse, terminate, Step, Reaches, here, onwards,
}
use infraco_os.Lease.Steps.{Effect, kept, moved, transition_lease-Effect}

-- The abstract view of the table: the status of each lease.
abbrev pub status_of : Option Lease → Option LeaseStatus
status_of none = none
status_of (some l) = some l.status

unfoldable pub view : Estate → ℕ → Option LeaseStatus
view e id = status_of (find? (has_key lease_key id) e.leases)

-- What the life cycle lets become of one lease: a new one starts as a draft, and every one goes
-- along steps.
pub data Follows : Option LeaseStatus → Option LeaseStatus → Type 0 where
  absent : Follows none none
  born : {b : LeaseStatus} → Reaches lease_draft b → Follows none (some b)
  follows : {a b : LeaseStatus} → Reaches a b → Follows (some a) (some b)

Follows-refl : (o : Option LeaseStatus) → Follows o o
Follows-refl none = absent
Follows-refl (some a) = follows here

Reaches-trans : {a b c : LeaseStatus} → Reaches a b → Reaches b c → Reaches a c
Reaches-trans r here = r
Reaches-trans r (onwards q s) = onwards (Reaches-trans r q) s

Follows-trans : {a b c : Option LeaseStatus} → Follows a b → Follows b c → Follows a c
Follows-trans absent q = q
Follows-trans (born r) (follows q) = born (Reaches-trans r q)
Follows-trans (follows r) (follows q) = follows (Reaches-trans r q)

Effect-Follows :
    (code : Reference → ℕ) (stamp : ℕ) (cal : Calendar) (e t : Estate) (id : ℕ)
    → IsSound e
    → Effect code stamp cal e t
    → Follows (view e id) (view t id)
unfolding view
Effect-Follows code stamp cal e t id s (kept same next) = rw same (Follows-refl (view e id))
Effect-Follows code stamp cal e t id s (moved at l to account anniv found goes when same next) =
    rw same (choose (Bool-cases (id == l.lease_id)))
  where
    f : Lease → Lease
    f = set_lease to account anniv

    its_own : find? (has_key lease_key l.lease_id) e.leases ≡ some l
    its_own =
        subst (λ i. find? (has_key lease_key i) e.leases ≡ some l)
          (sym (find?-key lease_key at e.leases found)) found

    choose :
        ((id == l.lease_id) ≡ true) ⊎ ((id == l.lease_id) ≡ false)
        → Follows (status_of (find? (has_key lease_key id) e.leases)) (
            status_of (
              find?
                (has_key lease_key id)
                (update_where (has_key lease_key l.lease_id) f e.leases)))
    choose (inl same_id) =
        let at : id ≡ l.lease_id = ground arith in
        rw
          (
            at,
            its_own,
            find?-update_self lease_key f l.lease_id e.leases {row = l} (λ x. refl) its_own,
          )
          (follows (onwards here goes))
    choose (inr other) =
        rw (find?-update_ne lease_key f l.lease_id id e.leases (λ x. refl) (ground arith))
          (Follows-refl (status_of (find? (has_key lease_key id) e.leases)))

Added-Follows : (e t : Estate) (id : ℕ) → IsSound e → Added e t → Follows (view e id) (view t id)
unfolding view
Added-Follows e t id s (nothing same next) = rw same (Follows-refl (view e id))
Added-Follows e t id s (draft l new status same next) =
    rw same (choose (Bool-cases (has_key lease_key id l)))
  where
    choose :
        (has_key lease_key id l ≡ true) ⊎ (has_key lease_key id l ≡ false)
        → Follows (status_of (find? (has_key lease_key id) e.leases)) (
            status_of
              (if has_key lease_key id l then some l else find? (has_key lease_key id) e.leases))
    choose (inr other) = rw other (Follows-refl (status_of (find? (has_key lease_key id) e.leases)))
    choose (inl hit) = elim (Option-cases (find? (has_key lease_key id) e.leases)) [
      | inl free ↦ rw (hit, free, status) (born here)
      | inr (row, taken) ↦
          let below = find?-below lease_key id e.next_lease_id e.leases s.keyed taken in
          absurd (ground arith)
    ]

step-Follows :
    (op : Op) (e : Estate) (id : ℕ) → IsSound e → Follows (view e id) (view (step op e) id)
unfolding step
step-Follows (creates cal dto) e id s =
    Added-Follows e (create_lease cal dto e).1 id s (create_lease-Added cal dto e)
step-Follows (transitions code stamp cal at to) e id s =
    Effect-Follows code stamp cal e (transition_lease code stamp cal at to e).1 id s
      (transition_lease-Effect code stamp cal at to e)

-- Every run refines the life cycle: a lease that the run creates starts as a draft, and each lease
-- goes from its status before to its status after by steps of the life cycle; none is lost.
pub run_ops-Follows :
    (ops : List Op) (e : Estate) (id : ℕ)
    → IsSound e
    → Follows (view e id) (view (run_ops ops e) id)
unfolding run_ops
run_ops-Follows [] e id s = Follows-refl (view e id)
run_ops-Follows (op ∷ ops) e id s =
    Follows-trans (step-Follows op e id s)
      (run_ops-Follows ops (step op e) id (step-IsSound op e s))

-- A lease that has expired or was terminated.
pub data IsEnded : LeaseStatus → Type 0 where
  has_expired : IsEnded expired
  was_terminated : IsEnded terminated

Step-not_ended : {a b : LeaseStatus} → Step a b → IsEnded a → ⊥
Step-not_ended sign h = elim h [ ]
Step-not_ended activate h = elim h [ ]
Step-not_ended renew h = elim h [ ]
Step-not_ended renewed h = elim h [ ]
Step-not_ended expire h = elim h [ ]
Step-not_ended lapse h = elim h [ ]
Step-not_ended (terminate i) has_expired = elim i [ ]
Step-not_ended (terminate i) was_terminated = elim i [ ]

Reaches-ended : {a b : LeaseStatus} → IsEnded a → Reaches a b → a ≡ b
Reaches-ended h here = refl
Reaches-ended h (onwards r s) = absurd (Step-not_ended s (subst IsEnded (Reaches-ended h r) h))

Follows-ended :
    {s : LeaseStatus} {o : Option LeaseStatus} → IsEnded s → Follows (some s) o → o ≡ some s
Follows-ended h (follows r) = ap some (sym (Reaches-ended h r))

-- A lease that has ended stays as it is, whatever is asked for afterwards.
pub run_ops-ended :
    (ops : List Op) (e : Estate) (id : ℕ) {s : LeaseStatus}
    → IsSound e
    → view e id ≡ some s
    → IsEnded s
    → view (run_ops ops e) id ≡ some s
run_ops-ended ops e id sound before ended =
    Follows-ended ended
      (subst (λ o. Follows o (view (run_ops ops e) id)) before (run_ops-Follows ops e id sound))
