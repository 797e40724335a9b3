-- ===== src/Lease/Cycle.antt =====
-- The life cycle of a lease, as a relation between states: LEASE_TRANSITIONS of
-- src/modules/lease/lease.service.ts.
use infraco_os.Common.{true, ◌≡◌, refl, ◌↔◌, arith}
use infraco_os.Database.Enums.{
  LeaseStatus, lease_draft, signed, lease_active, renewal, expired, terminated,
}
use infraco_os.Lease.{may_move, lease_transitions}

-- A lease that has not ended.
pub data IsOpen : LeaseStatus → Type 0 where
  open_draft : IsOpen lease_draft
  open_signed : IsOpen signed
  open_active : IsOpen lease_active
  open_renewal : IsOpen renewal

-- Draft → Signed → Active → Renewal → Exit: a lease in renewal goes back to active or expires, and
-- one that has not ended may be terminated.
pub data Step : LeaseStatus → LeaseStatus → Type 0 where
  sign : Step lease_draft signed
  activate : Step signed lease_active
  renew : Step lease_active renewal
  renewed : Step renewal lease_active
  expire : Step lease_active expired
  lapse : Step renewal expired
  terminate : {s : LeaseStatus} → IsOpen s → Step s terminated

pub data Reaches (a : LeaseStatus) : LeaseStatus → Type 0 where
  here : Reaches a a
  onwards : {b c : LeaseStatus} → Reaches a b → Step b c → Reaches a c

pub may_move-Step : (a b : LeaseStatus) → may_move a b ≡ true → Step a b
unfolding may_move lease_transitions
may_move-Step lease_draft signed h = sign
may_move-Step lease_draft terminated h = terminate open_draft
may_move-Step signed lease_active h = activate
may_move-Step signed terminated h = terminate open_signed
may_move-Step lease_active renewal h = renew
may_move-Step lease_active expired h = expire
may_move-Step lease_active terminated h = terminate open_active
may_move-Step renewal lease_active h = renewed
may_move-Step renewal expired h = lapse
may_move-Step renewal terminated h = terminate open_renewal
may_move-Step _ _ h = absurd (ground arith)

pub Step-may_move : {a b : LeaseStatus} → Step a b → may_move a b ≡ true
unfolding may_move lease_transitions
Step-may_move sign = refl
Step-may_move activate = refl
Step-may_move renew = refl
Step-may_move renewed = refl
Step-may_move expire = refl
Step-may_move lapse = refl
Step-may_move (terminate open_draft) = refl
Step-may_move (terminate open_signed) = refl
Step-may_move (terminate open_active) = refl
Step-may_move (terminate open_renewal) = refl

-- The table of transitions allows exactly the steps of the life cycle.
pub may_move_iff : (a b : LeaseStatus) → (may_move a b ≡ true) ↔ Step a b
may_move_iff a b = (may_move-Step a b, Step-may_move)
