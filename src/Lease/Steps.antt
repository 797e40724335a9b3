-- ===== src/Lease/Steps.antt =====
-- What `transitionLease` of src/modules/lease/lease.service.ts does to the table of leases.
use infraco_os.Common.{
  ℕ, Bool, true, false, not, ◌&&◌, ◌≡◌, refl, sym, ap, ◌∙◌, subst, inl, inr, arith, Option, none,
  some, exists, find?, update_where, is_some, Bool-cases, if◌then◌else◌,
}
use infraco_os.Common.Keys.{has_key}
use infraco_os.Common.Result.{Result, ok, Result-cases}
use infraco_os.Database.Enums.{Error, bad_request, not_found, LeaseStatus}
use infraco_os.Database.Transaction.{
  Action, ◌>>=◌, ◌>>◌, pure, throw_if, or_throw, lift, statement, with_actor,
}
use infraco_os.Database.Transaction.Laws.{
  >>=-cases, >>=-keeps, >>=-eq-ok, with_actor-statement, throw_if-eq-ok, or_throw-eq-ok,
  or_throw-state, lift-eq-ok,
}
use infraco_os.Office.{Reference, rethrow}
use infraco_os.Office.Accounts.{create_account}
use infraco_os.Rent.{Text, add_years}
use infraco_os.Lease.{Calendar, Lease, Estate, lease_key, eqb_status, is_active, may_move}
use infraco_os.Lease.Rows.{some_date, cast_option}
use infraco_os.Lease.Lifecycle.{
  unique_error, in_office, rental_account, open_rental, provision, anniv_text, default_anniv,
  holds_premises, set_lease, store_transition, move_lease, transition_lease,
}
use infraco_os.Lease.Cycle.{Step, may_move-Step}

module _ (code : Reference → ℕ) (stamp : ℕ) (cal : Calendar) where
  -- What a transition may do to the table of leases.
  pub data Effect (e t : Estate) : Type 0 where
    kept : t.leases ≡ e.leases → t.next_lease_id ≡ e.next_lease_id → Effect e t
    moved :
        (id : ℕ) (l : Lease) (to : LeaseStatus) (account anniv : Option ℕ)
        → find? (has_key lease_key id) e.leases ≡ some l
        → Step l.status to
        → (is_active to ≡ true
            → (exists (holds_premises l) e.leases ≡ false)
              × (is_some account ≡ true)
              × (is_some l.escalation_pct ≡ true → is_some anniv ≡ true))
        → t.leases
          ≡ update_where (has_key lease_key l.lease_id) (set_lease to account anniv) e.leases
        → t.next_lease_id ≡ e.next_lease_id
        → Effect e t

  abbrev SameLeases : Estate → Estate → Type 0
  SameLeases e t = (t.leases ≡ e.leases) × (t.next_lease_id ≡ e.next_lease_id)

  open_rental_keeps : (l : Lease) (e : Estate) → SameLeases e (open_rental code stamp l e).1
  unfolding open_rental
  open_rental_keeps l e =
      >>=-keeps (SameLeases e) (in_office (create_account code stamp (rental_account l)))
        (λ id. pure (some id)) e (refl, refl) (λ a t p. p)

  provision_keeps :
      (to : LeaseStatus) (l : Lease) (e : Estate) → SameLeases e (provision code stamp to l e).1
  unfolding provision
  provision_keeps to l e = choose (is_active to && not (is_some l.account_id))
    where
      choose :
          (b : Bool)
          → SameLeases e ((if b then open_rental code stamp l else pure l.account_id) e).1
      choose true = open_rental_keeps l e
      choose false = (refl, refl)

  opened_some :
      (l : Lease) (e : Estate) {t : Estate} {account : Option ℕ}
      → open_rental code stamp l e ≡ (ok account, t)
      → is_some account ≡ true
  unfolding open_rental
  opened_some l e {t} {account} h =
      let (id, u, ran, rest) =
        >>=-eq-ok (in_office (create_account code stamp (rental_account l))) (λ id. pure (some id))
          e h in
      ground arith

  provision-some :
      (to : LeaseStatus) (l : Lease) (e : Estate) {account : Option ℕ} {t : Estate}
      → provision code stamp to l e ≡ (ok account, t)
      → is_active to ≡ true
      → is_some account ≡ true
  unfolding provision
  provision-some to l e {account} {t} h active = choose (is_some l.account_id) refl h
    where
      choose :
          (b : Bool)
          → is_some l.account_id ≡ b
          → (if is_active to && not b then open_rental code stamp l else pure l.account_id) e
            ≡ (ok account, t)
          → is_some account ≡ true
      choose true has k = let at = rw active at k in ground arith
      choose false has k =
          let at : open_rental code stamp l e ≡ (ok account, t) = rw active at k in
          opened_some l e at

  text_some :
      (start : ℕ) (o : Option ℕ) {text : Option Text}
      → anniv_text cal true start o ≡ ok text
      → is_some text ≡ true
  unfolding anniv_text
  text_some start (some d) h = ground arith
  text_some start none {text} h = elim (Result-cases (add_years (cal.date_text start) 1)) [
    | inl (t, e) ↦ let at = rw e at h in ground arith
    | inr (x, e) ↦ let at = rw e at h in absurd (ground arith)
  ]

  date_some : (o : Option ℕ) {anniv : Option ℕ} → some_date o ≡ ok anniv → is_some anniv ≡ true
  date_some none h = absurd (ground arith)
  date_some (some d) h = ground arith

  cast_some :
      (text : Option Text) {anniv : Option ℕ}
      → cast_option cal text ≡ ok anniv
      → is_some text ≡ true
      → is_some anniv ≡ true
  cast_some none h some_text = absurd (ground arith)
  cast_some (some t) h some_text = date_some (cal.cast_date t) h

  anniv-some :
      (to : LeaseStatus) (l : Lease) {text : Option Text} {anniv : Option ℕ}
      → default_anniv cal to l ≡ ok text
      → cast_option cal text ≡ ok anniv
      → is_active to ≡ true
      → is_some l.escalation_pct ≡ true
      → is_some anniv ≡ true
  unfolding default_anniv
  anniv-some to l {text} {anniv} h cast active pct =
      let at : anniv_text cal true l.start_date l.escalation_anniv ≡ ok text =
        rw (active, pct) at h in
      cast_some text cast (text_some l.start_date l.escalation_anniv at)

  -- What the one statement of a transition stores.
  stored :
      (id : ℕ) (l : Lease) (to : LeaseStatus) (account : Option ℕ) (text : Option Text)
      (e t u : Estate)
      → SameLeases e t
      → find? (has_key lease_key id) e.leases ≡ some l
      → may_move l.status to ≡ true
      → (is_active to ≡ true → is_some account ≡ true)
      → default_anniv cal to l ≡ ok text
      → store_transition l to account (cast_option cal text) t ≡ ok (tt, u)
      → Effect e u
  stored id l to account text e t u (same, next) found may has_account h written =
      elim (Result-cases (cast_option cal text)) [
        | inr (x, cast) ↦ let at = rw cast at written in absurd (ground arith)
        | inl (anniv, cast) ↦
            let at = rw cast at written in
            elim (Bool-cases (is_active to && exists (holds_premises l) t.leases)) [
              | inl taken ↦ let at' = rw taken at at in absurd (ground arith)
              | inr free ↦
                  let (leases, ids) = update_is anniv (rw free at at) in
                  moved id l to account anniv found (may_move-Step l.status to may)
                    (λ active. (
                      subst (λ ls. exists (holds_premises l) ls ≡ false) same (rw active at free),
                      has_account active,
                      anniv-some to l h cast active,
                    ))
                    (subst
                      (λ ls.
                        u.leases
                        ≡ update_where (has_key lease_key l.lease_id) (set_lease to account anniv)
                            ls)
                      same leases)
                    (ids ∙ next)
            ]
      ]
    where
      update_is :
          (anniv : Option ℕ)
          → ◌≡◌ {A = Result Error (Unit {0} × Estate)}
              (ok (
                tt,
                record t {
                  leases =
                      update_where
                        (has_key lease_key l.lease_id)
                        (set_lease to account anniv)
                        t.leases;
                },
              ))
              (ok (tt, u))
          → (u.leases
              ≡ update_where (has_key lease_key l.lease_id) (set_lease to account anniv) t.leases)
            × (u.next_lease_id ≡ t.next_lease_id)
      update_is anniv k = (ground arith, ground arith)

  pub move_lease-Effect :
      (id : ℕ) (l : Lease) (to : LeaseStatus) (e : Estate)
      → find? (has_key lease_key id) e.leases ≡ some l
      → Effect e (move_lease code stamp cal l to e).1
  unfolding move_lease
  move_lease-Effect id l to e found =
      >>=-cases (Effect e) (throw_if (not (may_move l.status to)) bad_request) (λ _. after_check) e
        (λ x t h. kept (ap (λ r. r.1.leases) (sym h)) (ap (λ r. r.1.next_lease_id) (sym h)))
        (λ a t h.
          let (may, same) = throw_if-eq-ok (not (may_move l.status to)) bad_request e h in
          subst (λ u. Effect e (after_check u).1) (sym same) (checked (ground arith)))
    where
      after_anniv : Option ℕ → Option Text → Action Estate (LeaseStatus × Option ℕ)
      after_anniv account anniv =
          rethrow unique_error
            (with_actor (statement (store_transition l to account (cast_option cal anniv))))
          >> pure (to, account)

      after_provision : Option ℕ → Action Estate (LeaseStatus × Option ℕ)
      after_provision account = lift (default_anniv cal to l) >>= after_anniv account

      after_check : Action Estate (LeaseStatus × Option ℕ)
      after_check = provision code stamp to l >>= after_provision

      written :
          (account : Option ℕ) (text : Option Text) (t : Estate)
          → may_move l.status to ≡ true
          → SameLeases e t
          → (is_active to ≡ true → is_some account ≡ true)
          → default_anniv cal to l ≡ ok text
          → Effect e (after_anniv account text t).1
      written account text t may (same, next) has_account h =
          >>=-keeps (Effect e)
            (rethrow unique_error
              (with_actor (statement (store_transition l to account (cast_option cal text)))))
            (λ _. pure (to, account)) t
            (with_actor-statement (Effect e) (store_transition l to account (cast_option cal text))
              t (kept same next)
              (λ a u k. stored id l to account text e t u (same, next) found may has_account h k))
            (λ a u k. k)

      same_after :
          {r : Result Error (Option ℕ)} {t : Estate}
          → provision code stamp to l e ≡ (r, t)
          → SameLeases e t
      same_after h =
          let (same, next) = provision_keeps to l e in
          (ap (λ r. r.1.leases) (sym h) ∙ same, ap (λ r. r.1.next_lease_id) (sym h) ∙ next)

      checked : may_move l.status to ≡ true → Effect e (after_check e).1
      checked may =
          >>=-cases (Effect e) (provision code stamp to l) after_provision e
            (λ x t h. let (same, next) = same_after h in kept same next)
            (λ account t h.
              let (same, next) = same_after h in
              >>=-cases (Effect e) (lift (default_anniv cal to l)) (after_anniv account) t
                (λ x u k.
                  kept (ap (λ r. r.1.leases) (sym k) ∙ same)
                    (ap (λ r. r.1.next_lease_id) (sym k) ∙ next))
                (λ text u k.
                  let (text_is, at) = lift-eq-ok (default_anniv cal to l) t k in
                  subst (λ v. Effect e (after_anniv account text v).1) (sym at)
                    (written account text t may (same_after h) (provision-some to l e h) text_is)))

  -- A transition of a lease, whatever becomes of it, leaves the table of leases as it is, or moves
  -- the one lease along one step.
  pub transition_lease-Effect :
      (id : ℕ) (to_status : Option LeaseStatus) (e : Estate)
      → Effect e (transition_lease code stamp cal id to_status e).1
  unfolding transition_lease
  transition_lease-Effect id none e = kept refl refl
  transition_lease-Effect id (some to) e =
      >>=-cases (Effect e) (or_throw (find? (has_key lease_key id) e.leases) not_found) rest e
        (λ x t h.
          let at = or_throw-state (find? (has_key lease_key id) e.leases) not_found e h in
          kept (ap (λ u. u.leases) at) (ap (λ u. u.next_lease_id) at))
        (λ l t h.
          let (found, at) = or_throw-eq-ok (find? (has_key lease_key id) e.leases) not_found e h in
          subst (λ u. Effect e (rest l u).1) (sym at) (choose l found (eqb_status l.status to)))
    where
      rest : Lease → Action Estate (LeaseStatus × Option ℕ)
      rest l =
          if eqb_status l.status to
          then pure (l.status, l.account_id)
          else move_lease code stamp cal l to

      choose :
          (l : Lease)
          → find? (has_key lease_key id) e.leases ≡ some l
          → (b : Bool)
          → Effect e
              ((if b then pure (l.status, l.account_id) else move_lease code stamp cal l to) e).1
      choose l found true = kept refl refl
      choose l found false = move_lease-Effect id l to e found
