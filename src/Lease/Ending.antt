-- ===== src/Lease/Ending.antt =====
-- A lease can be terminated from every state that is not terminal: `transitionLease` of
-- src/modules/lease/lease.service.ts.
use infraco_os.Common.{
  ℕ, false, not, ◌≡◌, refl, sym, ap, ◌∙◌, subst, Option, none, some, find?, update_where,
  if◌then◌else◌,
}
use infraco_os.Common.Keys.{has_key, find?-key, find?-update_self}
use infraco_os.Database.Enums.{bad_request, not_found, LeaseStatus, terminated}
use infraco_os.Office.{Reference, rethrow}
use infraco_os.Lease.{Calendar, Lease, Estate, lease_key, eqb_status}
use infraco_os.Lease.Lifecycle.{
  unique_error, provision, store_transition, anniv_text, set_lease, transition_lease, default_anniv,
  move_lease,
}
use infraco_os.Database.Transaction.{
  Action, ◌>>=◌, ◌>>◌, pure, throw_if, or_throw, lift, statement, with_actor,
}
use infraco_os.Lease.Rows.{some_date, cast_option}
use infraco_os.Common.Result.{ok}
use infraco_os.Rent.{Text}
use infraco_os.Lease.Cycle.{
  IsOpen, open_draft, open_signed, open_active, open_renewal, Step-may_move, terminate,
}
use infraco_os.Lease.History.{view, status_of}

open_not_terminated : {s : LeaseStatus} → IsOpen s → eqb_status s terminated ≡ false
open_not_terminated open_draft = refl
open_not_terminated open_signed = refl
open_not_terminated open_active = refl
open_not_terminated open_renewal = refl

-- PostgreSQL reads a date that it has printed.
abbrev pub PrintsBack : Calendar → Type 0
PrintsBack cal = (d : ℕ) → cal.cast_date (cal.date_text d) ≡ some d

module _ (code : Reference → ℕ) (stamp : ℕ) (cal : Calendar) where
  anniv_kept :
      (start : ℕ) (o : Option ℕ)
      → PrintsBack cal
      → (text : Option Text) × (anniv_text cal false start o ≡ ok text)
        × (cast_option cal text ≡ ok o)
  unfolding anniv_text
  anniv_kept start none prints = (none, refl, refl)
  anniv_kept start (some d) prints = (some (cal.date_text d), refl, ap some_date (prints d))

  ends_in : Lease → Estate → Estate
  ends_in l e = record e {
    leases =
        update_where (has_key lease_key l.lease_id)
          (set_lease terminated l.account_id l.escalation_anniv) e.leases;
  }

  terminating :
      (l : Lease) (e : Estate)
      → PrintsBack cal
      → IsOpen l.status
      → move_lease code stamp cal l terminated e ≡ (ok (terminated, l.account_id), ends_in l e)
  unfolding move_lease ends_in provision default_anniv
  terminating l e prints is_open =
      let (text, read, back) = anniv_kept l.start_date l.escalation_anniv prints in
      let may = Step-may_move (terminate is_open) in
      ap
        (λ b.
          (throw_if {S = Estate} (not b) bad_request
              >> (lift {S = Estate} (anniv_text cal false l.start_date l.escalation_anniv)
                  >>= after l))
            e)
        may
      ∙ ap (λ r. (lift {S = Estate} r >>= after l) e) read
      ∙ ap
          (λ r.
            (rethrow unique_error
                  (with_actor (statement (store_transition l terminated l.account_id r)))
                >> pure (terminated, l.account_id))
              e)
          back
    where
      after : Lease → Option Text → Action Estate (LeaseStatus × Option ℕ)
      after l anniv =
          rethrow unique_error (
            with_actor
              (statement (store_transition l terminated l.account_id (cast_option cal anniv))))
          >> pure (terminated, l.account_id)

  -- A lease that has not ended can always be terminated: the call succeeds, and the lease is
  -- terminated.
  pub transition_lease_terminates :
      (id : ℕ) (l : Lease) (e : Estate)
      → PrintsBack cal
      → find? (has_key lease_key id) e.leases ≡ some l
      → IsOpen l.status
      → ((transition_lease code stamp cal id (some terminated) e).0 ≡ ok (terminated, l.account_id))
        × (view (transition_lease code stamp cal id (some terminated) e).1 id ≡ some terminated)
  unfolding transition_lease view ends_in
  transition_lease_terminates id l e prints found is_open =
      let other = open_not_terminated is_open in
      let runs : transition_lease code stamp cal id (some terminated) e
          ≡ (ok (terminated, l.account_id), ends_in l e) =
        ap (λ o. (or_throw {S = Estate} o not_found >>= rest) e) found
        ∙ ap
            (λ b.
              (if b then pure (l.status, l.account_id) else move_lease code stamp cal l terminated)
                e)
            other
        ∙ terminating l e prints is_open in
      (ap (λ r. r.0) runs, ap (λ r. view r.1 id) runs ∙ ended)
    where
      ended : view (ends_in l e) id ≡ some terminated
      ended =
          subst
            (λ i.
              status_of (
                find? (has_key lease_key id) (
                  update_where (has_key lease_key i)
                    (set_lease terminated l.account_id l.escalation_anniv) e.leases))
              ≡ some terminated)
            (sym (find?-key lease_key id e.leases found))
            (ap status_of (
              find?-update_self lease_key (set_lease terminated l.account_id l.escalation_anniv) id
                e.leases {row = l} (λ x. refl) found))

      rest : Lease → Action Estate (LeaseStatus × Option ℕ)
      rest l =
          if eqb_status l.status terminated
          then pure (l.status, l.account_id)
          else move_lease code stamp cal l terminated
