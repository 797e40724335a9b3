-- ===== src/Lease/Lifecycle.antt =====
-- Premises, new leases and their transitions: `createPremises`, `createLease`, `transitionLease` of
-- src/modules/lease/lease.service.ts.
use infraco_os.Common.{
  ℕ, ◌+◌, Bool, true, false, not, ◌&&◌, Option, none, some, ◌∷◌, exists, find?, update_where,
  is_some, ◌==◌, if◌then◌else◌,
}
use infraco_os.Common.Keys.{has_key}
use infraco_os.Common.Result.{Result, ok, err}
use infraco_os.Database.Enums.{
  Error, bad_request, not_found, conflict, foreign_key_violation, unique_violation, rental, omitted,
  LeaseStatus,
}
use infraco_os.Database.Transaction.{
  Action, Tx, ◌>>=◌, ◌>>◌, pure, throw_if, or_throw, lift, statement, with_actor,
}
use infraco_os.Office.{Reference, Office, read, rethrow, within}
use infraco_os.Office.Accounts.{no_status, CreateAccount, create_account}
use infraco_os.Rent.{Text, add_years}
use infraco_os.Lease.Rows.{refers, CreateLease, cast_option, check_lease, insert_lease}
use infraco_os.Lease.{Calendar, Lease, Estate, lease_key, eqb_status, is_active, may_move}

abbrev pub in_office : {A : Type 0} → Action Office A → Action Estate A
in_office = within (λ e. e.office) (λ o e. record e { office = o })

abbrev pub foreign_key_error : Error → Error
foreign_key_error foreign_key_violation = not_found
foreign_key_error e = e

-- `CreatePremisesDto`: the name is trimmed, and a blank one is none.
pub record CreatePremises : Type 0 where
  pub name : Option ℕ
  pub development_id : Option ℕ

unfoldable pub insert_premises : ℕ → Option ℕ → Tx Estate ℕ
insert_premises name development = statement (λ e.
    if refers (λ id. exists (λ d. d == id) e.developments) development
    then ok (
      e.next_premises_id,
      record e {
        premises =
            record { premises_id = e.next_premises_id; development_id = development; name = name }
            ∷ e.premises;
        next_premises_id = e.next_premises_id + 1;
      },
    )
    else err foreign_key_violation)

-- `createPremises(dto)`
unfoldable pub create_premises : CreatePremises → Action Estate ℕ
unfolding insert_premises
create_premises dto = do
  name ← or_throw dto.name bad_request
  rethrow foreign_key_error (with_actor (insert_premises name dto.development_id))

-- `createLease(dto)`
unfoldable pub create_lease : Calendar → CreateLease → Action Estate ℕ
unfolding check_lease insert_lease
create_lease cal dto = do
  checked ← lift (check_lease dto)
  rethrow foreign_key_error (with_actor (statement (insert_lease cal checked dto)))

abbrev pub rental_account : Lease → CreateAccount
rental_account l = record {
  customer_id = some l.tenant_id;
  account_type = some rental;
  reference = none;
  status = no_status;
  currency = omitted;
}

unfoldable pub open_rental : (Reference → ℕ) → ℕ → Lease → Action Estate (Option ℕ)
unfolding create_account
open_rental code stamp l = do
  id ← in_office (create_account code stamp (rental_account l))
  pure (some id)

-- On activation, a rental account where the lease has none.
unfoldable pub provision : (Reference → ℕ) → ℕ → LeaseStatus → Lease → Action Estate (Option ℕ)
unfolding open_rental
provision code stamp to l =
    if is_active to && not (is_some l.account_id)
    then open_rental code stamp l
    else pure l.account_id

abbrev pub option_ok : Result Error Text → Result Error (Option Text)
option_ok (ok t) = ok (some t)
option_ok (err e) = err e

-- The stored anniversary as its text; where there is none and one is due, start + 1 year.
unfoldable pub anniv_text : Calendar → Bool → ℕ → Option ℕ → Result Error (Option Text)
unfolding add_years
anniv_text cal due start (some d) = ok (some (cal.date_text d))
anniv_text cal true start none = option_ok (add_years (cal.date_text start) 1)
anniv_text cal false start none = ok none

-- On activation, an escalation without an anniversary is due one.
unfoldable pub default_anniv : Calendar → LeaseStatus → Lease → Result Error (Option Text)
unfolding anniv_text
default_anniv cal to l =
    anniv_text cal (is_active to && is_some l.escalation_pct) l.start_date l.escalation_anniv

abbrev pub holds_premises : Lease → Lease → Bool
holds_premises l other =
    is_active other.status
    && ((other.premises_id == l.premises_id) && not (other.lease_id == l.lease_id))

abbrev pub set_lease : LeaseStatus → Option ℕ → Option ℕ → Lease → Lease
set_lease to account anniv l = record l {
  status = to;
  account_id = account;
  escalation_anniv = anniv;
}

-- UPDATE lease.lease, with uq_active_lease.
abbrev pub store_transition :
    Lease
    → LeaseStatus
    → Option ℕ
    → Result Error (Option ℕ)
    → Estate
    → Result Error (Unit {0} × Estate)
store_transition l to account (err x) e = err x
store_transition l to account (ok anniv) e =
    if is_active to && exists (holds_premises l) e.leases
    then err unique_violation
    else ok (
      tt,
      record e {
        leases = update_where (has_key lease_key l.lease_id) (set_lease to account anniv) e.leases;
      },
    )

abbrev pub unique_error : Error → Error
unique_error unique_violation = conflict
unique_error e = e

unfoldable pub move_lease :
    (Reference → ℕ) → ℕ → Calendar → Lease → LeaseStatus → Action Estate (LeaseStatus × Option ℕ)
unfolding may_move provision default_anniv
move_lease code stamp cal l to = do
  throw_if (not (may_move l.status to)) bad_request
  account ← provision code stamp to l
  anniv ← lift (default_anniv cal to l)
  rethrow unique_error
      (with_actor (statement (store_transition l to account (cast_option cal anniv))))
  pure (to, account)

-- `transitionLease(leaseId, dto)`, at the clock's `stamp`; no status is a text that names none.
unfoldable pub transition_lease :
    (Reference → ℕ) → ℕ → Calendar → ℕ → Option LeaseStatus → Action Estate (LeaseStatus × Option ℕ)
unfolding move_lease
transition_lease code stamp cal id to_status = do
  to ← or_throw to_status bad_request
  found ← read (λ e. find? (has_key lease_key id) e.leases)
  l ← or_throw found not_found
  if eqb_status l.status to then pure (l.status, l.account_id) else move_lease code stamp cal l to
