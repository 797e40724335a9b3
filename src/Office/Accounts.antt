-- ===== src/Office/Accounts.antt =====
-- The account registry: src/modules/account/account.service.ts.
use infraco_os.Common.{ℕ, ◌+◌, Bool, not, Option, none, some, ◌∷◌, exists, ◌==◌, if◌then◌else◌}
use infraco_os.Common.Int.{pos}
use infraco_os.Common.Result.{Result, ok, err}
use infraco_os.Database.Enums.{
  Error, bad_request, not_found, conflict, unique_violation, foreign_key_violation, AccountStatus,
  account_active, AccountType, CurrencyCode, CurrencyInput, resolve_currency,
}
use infraco_os.Database.Transaction.{Action, Tx, ◌>>=◌, or_throw, lift, statement, with_actor}
use infraco_os.Office.{Reference, account_ref, uuid_head, AccountRow, Office, has_customer, rethrow}

-- A status as a request gives it: left out (also the empty text), a known one, or any other text.
pub data StatusInput : Type 0 where
  no_status other_status : StatusInput
  known_status : AccountStatus → StatusInput

-- `CreateAccountDto`: no account type is a text that names none.
pub record CreateAccount : Type 0 where
  pub customer_id : Option ℕ
  pub account_type : Option AccountType
  pub reference : Option ℕ
  pub status : StatusInput
  pub currency : CurrencyInput

abbrev resolve_status : StatusInput → Result Error AccountStatus
resolve_status no_status = ok account_active
resolve_status other_status = err bad_request
resolve_status (known_status s) = ok s

-- `generateReference(type, customerId)` where none is given; `stamp` is the clock's.
abbrev reference_of : (Reference → ℕ) → ℕ → AccountType → ℕ → Option ℕ → ℕ
reference_of code stamp type customer none = code (account_ref type (uuid_head customer) stamp)
reference_of code stamp type customer (some given) = given

abbrev pub uses_reference : ℕ → AccountRow → Bool
uses_reference reference a = a.reference == reference

abbrev pub add_account : AccountRow → Office → Office
add_account row o = record o {
  account_rows = row ∷ o.account_rows;
  fin = record o.fin {
    accounts =
        record { account_id = row.account_id; account_type = row.account_type; balance = pos 0 }
        ∷ o.fin.accounts;
  };
  next_account_id = o.next_account_id + 1;
}

abbrev pub new_account : ℕ → AccountType → ℕ → AccountStatus → CurrencyCode → Office → AccountRow
new_account customer type reference status currency o = record {
  account_id = o.next_account_id;
  customer_id = customer;
  account_type = type;
  reference = reference;
  status = status;
  currency = currency;
}

-- INSERT INTO fin.account … RETURNING account_id: account_reference_key, then the foreign key.
abbrev pub store_account :
    ℕ → AccountType → ℕ → AccountStatus → CurrencyCode → Office → Result Error (ℕ × Office)
store_account customer type reference status currency o =
    if exists (uses_reference reference) o.account_rows
    then err unique_violation
    else if not (exists (has_customer customer) o.customers)
    then err foreign_key_violation
    else ok
        (o.next_account_id, add_account (new_account customer type reference status currency o) o)

unfoldable pub insert_account : ℕ → AccountType → ℕ → AccountStatus → CurrencyCode → Tx Office ℕ
insert_account customer type reference status currency =
    statement (store_account customer type reference status currency)

abbrev account_error : Error → Error
account_error foreign_key_violation = not_found
account_error unique_violation = conflict
account_error e = e

-- `createAccount(dto)`, at the clock's `stamp`.
unfoldable pub create_account : (Reference → ℕ) → ℕ → CreateAccount → Action Office ℕ
unfolding insert_account
create_account code stamp dto = do
  type ← or_throw dto.account_type bad_request
  status ← lift (resolve_status dto.status)
  currency ← lift (resolve_currency dto.currency)
  customer ← or_throw dto.customer_id bad_request
  rethrow account_error (
      with_actor (
        insert_account customer type (reference_of code stamp type customer dto.reference) status
          currency))
