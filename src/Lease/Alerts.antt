-- ===== src/Lease/Alerts.antt =====
-- Renewal alerts: `renewalAlerts` of src/modules/lease/lease.service.ts. The order of rows, by end
-- date, is left out, and so are a notice's channel and, of its payload, all but the lease.
pub mod Notices
use infraco_os.Common.{
  ℕ, ◌+◌, ◌-◌, ◌*◌, ◌≤◌, Bool, true, false, ◌&&◌, ◌≡◌, refl, ap, ◌∙◌, inl, inr, arith, max, List,
  [], ◌∷◌, ◌++◌, map, exists, where_rows, length, length-append, leb, Bool-cases,
}
use infraco_os.Common.Result.{ok}
use infraco_os.Database.Enums.{LeaseStatus, lease_active, renewal}
use infraco_os.Database.Transaction.{Action, Tx, ◌>>=◌, ◌>>◌, pure, lift, modify, with_actor, begin}
use infraco_os.Database.Transaction.Laws.{>>=-ok, with_actor-commits}
use infraco_os.Office.{Notice, to_customer, to_user, lease_renewal, lease_renewal_ops, read}
use infraco_os.Rent.{Text}
use infraco_os.Lease.{Calendar, Lease, Estate}
use infraco_os.Lease.Rows.{cast_text}

-- `dto.noticeDays?.length ? dto.noticeDays : [90, 30]`
abbrev pub notice_days : List ℕ → List ℕ
notice_days [] = 90 ∷ 30 ∷ []
notice_days (n ∷ ns) = n ∷ ns

-- Math.max(...noticeDays)
abbrev pub horizon : List ℕ → ℕ
horizon [] = 0
horizon (n ∷ ns) = max n (horizon ns)

-- status IN ('active','renewal')
abbrev pub may_renew : LeaseStatus → Bool
may_renew lease_active = true
may_renew renewal = true
may_renew _ = false

-- The WHERE of the query.
abbrev pub is_due : ℕ → ℕ → Lease → Bool
is_due as_of days l = may_renew l.status && (leb as_of l.end_date && leb l.end_date (as_of + days))

-- noticeDays.some((n) => daysToExpiry <= n)
abbrev pub in_window : ℕ → List ℕ → Lease → Bool
in_window as_of days l = exists (λ n. leb (l.end_date - as_of) n) days

unfoldable pub alerted : ℕ → List ℕ → List Lease → List Lease
alerted as_of days ls =
    where_rows (in_window as_of days) (where_rows (is_due as_of (horizon days)) ls)

-- The tenant's notice, and one for each operations user.
abbrev pub notices_of : List ℕ → Lease → List Notice
notices_of users l =
    map (λ u. record { recipient = to_user u; template = lease_renewal_ops; about = l.lease_id })
      users
    ++ record { recipient = to_customer l.tenant_id; template = lease_renewal; about = l.lease_id }
      ∷ []

abbrev pub notify : Lease → Estate → Estate
notify l e = record e {
  office = record e.office { notices = notices_of e.operations_users l ++ e.office.notices };
}

unfoldable pub notify_all : List Lease → Tx Estate (Unit {0})
notify_all [] = pure tt
notify_all (l ∷ ls) = do modify (notify l); notify_all ls

-- `renewalAlerts(dto)`, at the date that the request gives or else today's.
unfoldable pub renewal_alerts : Calendar → Text → List ℕ → Action Estate (List Lease)
unfolding alerted notify_all
renewal_alerts cal as_of days = do
  today ← lift (cast_text cal as_of)
  leases ← read (λ e. alerted today (notice_days days) e.leases)
  with_actor (notify_all leases)
  pure leases

-- Each window is within the horizon, so a lease that is due is in the widest window.
horizon-window :
    (d : ℕ) (n : ℕ) (ns : List ℕ) → d ≤ horizon (n ∷ ns) → exists (λ m. leb d m) (n ∷ ns) ≡ true
horizon-window d n [] le = elim (Bool-cases (leb d n)) [
  | inl near ↦ rw near refl
  | inr far ↦ absurd (ground arith)
]
horizon-window d n (m ∷ ns) le = elim (Bool-cases (leb d n)) [
  | inl near ↦ rw near refl
  | inr far ↦ rw far (horizon-window d m ns (ground arith))
]

where_rows-implied :
    {A : Type 0} (p q : A → Bool) (xs : List A)
    → ((x : A) → p x ≡ true → q x ≡ true)
    → where_rows q (where_rows p xs) ≡ where_rows p xs
where_rows-implied p q [] implies = refl
where_rows-implied p q (x ∷ xs) implies = elim (Bool-cases (p x)) [
  | inl yes_p ↦ rw (yes_p, implies x yes_p) (ap (λ ys. x ∷ ys) (where_rows-implied p q xs implies))
  | inr no_p ↦ rw no_p (where_rows-implied p q xs implies)
]

due_in_window :
    (today n : ℕ) (ns : List ℕ) (l : Lease)
    → is_due today (horizon (n ∷ ns)) l ≡ true
    → in_window today (n ∷ ns) l ≡ true
due_in_window today n ns l h =
    horizon-window (l.end_date - today) n ns
      (let near = within_days (may_renew l.status) (leb today l.end_date) h in ground arith)
  where
    within_days : (a b : Bool) {c : Bool} → (a && (b && c)) ≡ true → (b ≡ true) × (c ≡ true)
    within_days true true k = (refl, k)
    within_days true false k = absurd (ground arith)
    within_days false b k = absurd (ground arith)

pub alerted-due :
    (today : ℕ) (days : List ℕ) (ls : List Lease)
    → alerted today (notice_days days) ls
      ≡ where_rows (is_due today (horizon (notice_days days))) ls
unfolding alerted
alerted-due today [] ls =
    where_rows-implied (is_due today 90) (in_window today (90 ∷ 30 ∷ [])) ls
      (due_in_window today 90 (30 ∷ []))
alerted-due today (n ∷ ns) ls =
    where_rows-implied (is_due today (horizon (n ∷ ns))) (in_window today (n ∷ ns)) ls
      (due_in_window today n ns)
