-- ===== src/Lease.antt =====
-- Leases and their life cycle: src/modules/lease/lease.service.ts. A date column is a day number;
-- how PostgreSQL reads a text as a date and prints a date are parameters.
pub mod Rows
pub mod Lifecycle
pub mod Cycle
pub mod Steps
pub mod Single
pub mod Sound
pub mod History
pub mod Ending
pub mod Billing
pub mod Charges
pub mod Alerts
pub mod Roll
pub mod Samples
mod Tests
use infraco_os.Common.{
  ℕ, zero, suc, ◌+◌, Bool, true, false, not, ◌&&◌, Option, none, some, List, [], ◌∷◌, exists, find?,
  ltb, ◌==◌, if◌then◌else◌,
}
use infraco_os.Common.Int.{ℤ}
use infraco_os.Common.Result.{Result, ok, err}
use infraco_os.Database.Enums.{
  Error, bad_request, CurrencyCode, LeaseStatus, lease_draft, signed, lease_active, renewal,
  expired, terminated,
}
use infraco_os.Office.{Office}
use infraco_os.Rent.{Text, is_digit, all_digits, dash}

-- `$1::date` and `::text` of PostgreSQL, and `new Date(…)` of a text, where that is a date.
pub record Calendar : Type 0 where
  pub cast_date : Text → Option ℕ
  pub date_text : ℕ → Text
  pub js_date : Text → Option ℕ

-- lease.premises
pub record Premises : Type 0 where
  pub premises_id : ℕ
  pub development_id : Option ℕ
  pub name : ℕ

-- lease.lease
pub record Lease : Type 0 where
  pub lease_id : ℕ
  pub premises_id : ℕ
  pub tenant_id : ℕ
  pub account_id : Option ℕ
  pub start_date : ℕ
  pub end_date : ℕ
  pub rent_amount : ℤ
  pub currency : CurrencyCode
  pub escalation_pct : Option ℤ
  pub escalation_anniv : Option ℕ
  pub deposit : ℤ
  pub market_rate : Option ℤ
  pub status : LeaseStatus

-- The tables of the lease service, with those it shares. The operations users are those whose role
-- has the code 'operations'.
pub record Estate : Type 0 where
  pub office : Office
  pub developments : List ℕ
  pub operations_users : List ℕ
  pub premises : List Premises
  pub leases : List Lease
  pub next_premises_id : ℕ
  pub next_lease_id : ℕ

abbrev pub lease_key : Lease → ℕ
lease_key l = l.lease_id

abbrev status_code : LeaseStatus → ℕ
status_code lease_draft = 0
status_code signed = 1
status_code lease_active = 2
status_code renewal = 3
status_code expired = 4
status_code terminated = 5

-- `===` on statuses
abbrev pub eqb_status : LeaseStatus → LeaseStatus → Bool
eqb_status a b = status_code a == status_code b

abbrev pub is_active : LeaseStatus → Bool
is_active s = eqb_status s lease_active

-- LEASE_TRANSITIONS
pub lease_transitions : LeaseStatus → List LeaseStatus
lease_transitions lease_draft = signed ∷ terminated ∷ []
lease_transitions signed = lease_active ∷ terminated ∷ []
lease_transitions lease_active = renewal ∷ expired ∷ terminated ∷ []
lease_transitions renewal = lease_active ∷ expired ∷ terminated ∷ []
lease_transitions expired = []
lease_transitions terminated = []

-- `LEASE_TRANSITIONS[from].includes(to)`
unfoldable pub may_move : LeaseStatus → LeaseStatus → Bool
unfolding lease_transitions
may_move from to = exists (eqb_status to) (lease_transitions from)

-- `<=` on texts: by the first character in which they differ.
pub leb_text : Text → Text → Bool
leb_text [] ys = true
leb_text (x ∷ xs) [] = false
leb_text (x ∷ xs) (y ∷ ys) =
    let rest = leb_text xs ys in if ltb x y then true else if ltb y x then false else rest

-- `asDate(iso, field)`; a missing date is the empty text.
unfoldable pub as_date : Text → Result Error Text
unfolding all_digits
as_date (a ∷ b ∷ c ∷ e ∷ s ∷ f ∷ g ∷ t ∷ h ∷ k ∷ rest) =
    if all_digits (a ∷ b ∷ c ∷ e ∷ f ∷ g ∷ h ∷ k ∷ []) && ((s == dash) && (t == dash))
    then ok (a ∷ b ∷ c ∷ e ∷ s ∷ f ∷ g ∷ t ∷ h ∷ k ∷ [])
    else err bad_request
as_date _ = err bad_request
