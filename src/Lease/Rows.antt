-- ===== src/Lease/Rows.antt =====
-- The row that `createLease` of src/modules/lease/lease.service.ts inserts.
use infraco_os.Common.{
  ℕ, ◌+◌, Bool, true, not, ◌&&◌, Option, none, some, ◌∷◌, exists, or_else, ltb, ◌==◌, if◌then◌else◌,
}
use infraco_os.Common.Int.{ℤ, pos, ltb_ℤ}
use infraco_os.Common.Result.{Result, ok, err, ◌>>=◌, ◌>>◌, throw_if, or_throw}
use infraco_os.Database.Enums.{
  Error, bad_request, invalid_text, check_violation, foreign_key_violation, CurrencyCode,
  CurrencyInput, resolve_currency, lease_draft,
}
use infraco_os.Office.{has_customer}
use infraco_os.Office.Bills.{has_account_id}
use infraco_os.Rent.{Text}
use infraco_os.Lease.{Calendar, Premises, Lease, Estate, leb_text, as_date}

-- Whether an optional foreign key is null or names a row.
abbrev pub refers : (ℕ → Bool) → Option ℕ → Bool
refers known none = true
refers known (some id) = known id

-- `CreateLeaseDto`: no rent amount is a value that is no number.
pub record CreateLease : Type 0 where
  pub premises_id : ℕ
  pub tenant_id : ℕ
  pub account_id : Option ℕ
  pub start_date : Text
  pub end_date : Text
  pub rent_amount : Option ℤ
  pub currency : CurrencyInput
  pub escalation_pct : Option ℤ
  pub escalation_anniv : Option Text
  pub deposit : Option ℤ
  pub market_rate : Option ℤ

abbrev pub found_date : Option ℕ → Result Error ℕ
found_date none = err invalid_text
found_date (some d) = ok d

-- $n::date
abbrev pub cast_text : Calendar → Text → Result Error ℕ
cast_text cal t = found_date (cal.cast_date t)

abbrev pub some_date : Option ℕ → Result Error (Option ℕ)
some_date none = err invalid_text
some_date (some d) = ok (some d)

-- $n::date of a text that may be null.
abbrev pub cast_option : Calendar → Option Text → Result Error (Option ℕ)
cast_option cal none = ok none
cast_option cal (some t) = some_date (cal.cast_date t)

-- What the checks of `createLease` settle.
pub record Checked : Type 0 where
  pub currency : CurrencyCode
  pub rent : ℤ
  pub deposit : ℤ
  pub start : Text
  pub end : Text

-- The checks before the transaction.
unfoldable pub check_lease : CreateLease → Result Error Checked
unfolding as_date leb_text
check_lease dto = do
  currency ← resolve_currency dto.currency
  rent ← or_throw dto.rent_amount bad_request
  throw_if (ltb_ℤ rent (pos 0)) bad_request
  throw_if (ltb_ℤ (or_else dto.deposit (pos 0)) (pos 0)) bad_request
  start ← as_date dto.start_date
  end ← as_date dto.end_date
  throw_if (leb_text end start) bad_request
  ok (record {
    currency = currency;
    rent = rent;
    deposit = or_else dto.deposit (pos 0);
    start = start;
    end = end;
  })

-- The casts of the VALUES list.
unfoldable pub cast_lease : Calendar → ℕ → Checked → CreateLease → Result Error Lease
cast_lease cal id c dto = do
  start_date ← cast_text cal c.start
  end_date ← cast_text cal c.end
  anniv ← cast_option cal dto.escalation_anniv
  ok (record {
    lease_id = id;
    premises_id = dto.premises_id;
    tenant_id = dto.tenant_id;
    account_id = dto.account_id;
    start_date = start_date;
    end_date = end_date;
    rent_amount = c.rent;
    currency = c.currency;
    escalation_pct = dto.escalation_pct;
    escalation_anniv = anniv;
    deposit = c.deposit;
    market_rate = dto.market_rate;
    status = lease_draft;
  })

abbrev pub has_premises : ℕ → Premises → Bool
has_premises id p = p.premises_id == id

-- lease_check, then the three foreign keys.
abbrev pub store_lease : Lease → Estate → Result Error (ℕ × Estate)
store_lease l e =
    if not (ltb l.start_date l.end_date)
    then err check_violation
    else if not (
        exists (has_premises l.premises_id) e.premises
        && exists (has_customer l.tenant_id) e.office.customers
        && refers (λ id. exists (has_account_id id) e.office.account_rows) l.account_id)
    then err foreign_key_violation
    else ok (l.lease_id, record e { leases = l ∷ e.leases; next_lease_id = e.next_lease_id + 1 })

-- INSERT INTO lease.lease
unfoldable pub insert_lease : Calendar → Checked → CreateLease → Estate → Result Error (ℕ × Estate)
unfolding cast_lease
insert_lease cal c dto e = cast_lease cal e.next_lease_id c dto >>= λ l. store_lease l e
