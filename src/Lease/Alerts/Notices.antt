-- ===== src/Lease/Alerts/Notices.antt =====
-- The notices that the renewal alerts of src/modules/lease/lease.service.ts send.
use infraco_os.Common.{ℕ, ◌+◌, ◌==◌, ◌*◌, Bool, true, false, ◌&&◌, ◌≡◌, List, [], ◌∷◌, length}
use infraco_os.Office.{
  Recipient, Template, Notice, to_customer, to_user, lease_renewal, lease_renewal_ops,
}
use infraco_os.Lease.{Lease, Estate}
use infraco_os.Lease.Single.{count_where}
use infraco_os.Lease.Alerts.{notify}

notified : List Lease → Estate → Estate
notified [] e = e
notified (l ∷ ls) e = notified ls (notify l e)

abbrev is_customer : ℕ → Recipient → Bool
is_customer customer (to_customer id) = id == customer
is_customer customer _ = false

abbrev is_user : ℕ → Recipient → Bool
is_user user (to_user id) = id == user
is_user user _ = false

abbrev is_tenant_template : Template → Bool
is_tenant_template lease_renewal = true
is_tenant_template _ = false

abbrev is_user_template : Template → Bool
is_user_template lease_renewal_ops = true
is_user_template _ = false

-- A notice of renewal to a customer, as the tenant of a lease.
abbrev pub tells_tenant : ℕ → ℕ → Notice → Bool
tells_tenant customer lease n =
    is_customer customer n.recipient && (is_tenant_template n.template && (n.about == lease))

-- A notice of renewal to a user, about a lease.
abbrev pub tells_user : ℕ → ℕ → Notice → Bool
tells_user user lease n =
    is_user user n.recipient && (is_user_template n.template && (n.about == lease))

-- The leases of one tenant under one id, and those under one id.
abbrev pub let_to : ℕ → ℕ → Lease → Bool
let_to customer lease l = (l.tenant_id == customer) && (l.lease_id == lease)

-- What the alerts for some leases add to the notices: of each lease one notice to its tenant and one
-- to each operations user, and nothing else.
pub record IsNotified (due : List Lease) (e t : Estate) : Type 0 where
  pub tenants :
      (customer lease : ℕ)
      → count_where (tells_tenant customer lease) t.office.notices
        ≡ count_where (let_to customer lease) due
          + count_where (tells_tenant customer lease) e.office.notices
  pub users :
      (user lease : ℕ)
      → count_where (tells_user user lease) t.office.notices
        ≡ count_where (λ l. l.lease_id == lease) due
            * count_where (λ u. u == user) e.operations_users
          + count_where (tells_user user lease) e.office.notices
  pub in_all :
      length t.office.notices
      ≡ length due * (length e.operations_users + 1) + length e.office.notices
  pub rest : t ≡ record e { office = record e.office { notices = t.office.notices } }
