-- ===== src/Sales/Convert.antt =====
-- `convertReservationToSale` of src/modules/sales/sales.service.ts: an agreement that is read from the
-- tables, and the writes of its one transaction.
use infraco_os.Common.{
  ℕ, ◌+◌, Bool, true, false, not, ◌&&◌, Option, none, some, ◌∷◌, exists, find?, update_where,
  or_else, ◌==◌, if◌then◌else◌,
}
use infraco_os.Common.Int.{ℤ, pos, ltb_ℤ}
use infraco_os.Common.Keys.{has_key}
use infraco_os.Common.Result.{Result, ok, err}
use infraco_os.Database.Enums.{
  Error, bad_request, not_found, conflict, type_error, uq_active_sale, AccountType, stand_purchase,
  agro_purchase, account_active, CurrencyCode, known,
}
use infraco_os.Database.Transaction.{
  Action, Tx, ◌>>=◌, ◌>>◌, pure, lift, statement, query, modify, with_actor, zoom,
}
use infraco_os.Instalment.{InstalmentStructure}
use infraco_os.Office.{Reference, account_ref, uuid_head, rethrow}
use infraco_os.Office.Accounts.{insert_account}
use infraco_os.Rent.{Ymd}
use infraco_os.Schedule.{Frequency, GenerateSchedule, Desk}
use infraco_os.Schedule.Generate.{on_office, Schedule, generate_schedule_tx}
use infraco_os.Sales.{
  PlotType, agro_plot, converted, SaleStatus, pending_approval, sale_cancelled, Plot, Reservation,
  Sale, Market, reservation_key, is_reserved, is_held, find_plot,
}

-- `ConvertReservationParams`, with the defaults of what is left out; the start is none if it is.
pub record ConvertReservation : Type 0 where
  pub num_instalments : ℤ
  pub deposit : ℤ
  pub frequency : Frequency
  pub structure : InstalmentStructure
  pub balloon_amount : Option ℤ
  pub start_date : Option Ymd
  pub price_override : Option ℤ

-- What is sold, to whom and for how much.
pub record Agreement : Type 0 where
  pub reservation : Reservation
  pub customer : ℕ
  pub plot : Plot
  pub price : ℤ

abbrev pub first_some : Option ℤ → Option ℤ → Option ℤ
first_some none b = b
first_some (some a) b = some a

abbrev pub agree_price : Reservation → ℕ → Plot → Option ℤ → Result Error Agreement
agree_price r customer p none = err bad_request
agree_price r customer p (some price) =
    if ltb_ℤ price (pos 0)
    then err bad_request
    else ok (record { reservation = r; customer = customer; plot = p; price = price })

-- The plot's row is there by the reservation's foreign key.
abbrev pub agree_plot : Option ℤ → Reservation → ℕ → Option Plot → Result Error Agreement
agree_plot override r customer none = err type_error
agree_plot override r customer (some p) =
    if not (is_reserved p.status)
    then err conflict
    else agree_price r customer p (first_some override p.price)

abbrev pub agree_customer : Option ℤ → Market → Reservation → Option ℕ → Result Error Agreement
agree_customer override m r none = err bad_request
agree_customer override m r (some customer) = agree_plot override r customer (find_plot r.plot_id m)

abbrev pub agree_found : Option ℤ → Market → Option Reservation → Result Error Agreement
agree_found override m none = err not_found
agree_found override m (some r) =
    if not (is_held r.status) then err conflict else agree_customer override m r r.customer_id

-- What the transaction reads before it writes.
unfoldable pub agree : ℕ → Option ℤ → Market → Result Error Agreement
agree id override m = agree_found override m (find? (has_key reservation_key id) m.reservations)

abbrev pub account_type_of : PlotType → AccountType
account_type_of agro_plot = agro_purchase
account_type_of _ = stand_purchase

-- `generateAccountReference(type, customerId)`
unfoldable pub sale_reference : (Reference → ℕ) → ℕ → Agreement → ℕ
sale_reference code stamp a =
    code (account_ref (account_type_of a.plot.plot_type) (uuid_head a.customer) stamp)

abbrev pub on_desk : {A : Type 0} → Tx Desk A → Tx Market A
on_desk = zoom (λ m. m.desk) (λ d m. record m { desk = d })

unfoldable pub open_account : (Reference → ℕ) → ℕ → Agreement → Tx Market ℕ
unfolding sale_reference insert_account
open_account code stamp a = on_desk (
    on_office (
      insert_account a.customer (account_type_of a.plot.plot_type) (sale_reference code stamp a)
        account_active a.plot.currency))

abbrev is_live : SaleStatus → Bool
is_live sale_cancelled = false
is_live _ = true

-- The sales of which uq_active_sale admits one for each plot.
abbrev pub takes_plot : ℕ → Sale → Bool
takes_plot plot s = is_live s.status && (s.plot_id == plot)

abbrev pub new_sale : Agreement → ℕ → ℕ → Sale
new_sale a account id = record {
  sale_id = id;
  plot_id = a.reservation.plot_id;
  customer_id = a.customer;
  agent_id = a.reservation.agent_id;
  account_id = some account;
  price = a.price;
  currency = a.plot.currency;
  status = pending_approval;
}

-- INSERT INTO sales.sale; the rows that its foreign keys name were read or written before.
abbrev pub store_sale : Agreement → ℕ → Market → Result Error (ℕ × Market)
store_sale a account m =
    if exists (takes_plot a.reservation.plot_id) m.sales
    then err uq_active_sale
    else ok (
      m.next_sale_id,
      record m {
        sales = new_sale a account m.next_sale_id ∷ m.sales;
        next_sale_id = m.next_sale_id + 1;
      },
    )

-- `SET status = 'converted' … AND status = 'active'`
abbrev pub convert_row : Reservation → Reservation
convert_row r = record r { status = if is_held r.status then converted else r.status }

unfoldable pub record_sale : ℕ → Agreement → ℕ → Tx Market ℕ
record_sale id a account = do
  sale ← statement (store_sale a account)
  modify (λ m. record m {
    reservations = update_where (has_key reservation_key id) convert_row m.reservations;
  })
  pure sale

-- The schedule starts today where the request gives no date.
abbrev pub schedule_request : Ymd → ConvertReservation → Agreement → GenerateSchedule
schedule_request today p a = record {
  total_price = a.price;
  deposit = p.deposit;
  num_instalments = p.num_instalments;
  frequency = p.frequency;
  structure = p.structure;
  balloon_amount = p.balloon_amount;
  start_date = or_else p.start_date today;
  currency = known a.plot.currency;
}

pub record Converted : Type 0 where
  pub sale_id : ℕ
  pub account_id : ℕ
  pub price : ℤ
  pub currency : CurrencyCode
  pub schedule : Schedule

-- The schedule of the account, and the agreement's document.
unfoldable pub paper_sale :
    (Reference → ℕ) → Ymd → ConvertReservation → Agreement → ℕ → ℕ → Tx Market Converted
unfolding generate_schedule_tx
paper_sale code today p a account sale = do
  schedule ← on_desk (generate_schedule_tx code account (schedule_request today p a))
  modify (λ m. record m { documents = sale ∷ m.documents })
  pure (record {
    sale_id = sale;
    account_id = account;
    price = a.price;
    currency = a.plot.currency;
    schedule = schedule;
  })

unfoldable pub sell :
    (Reference → ℕ) → ℕ → Ymd → ℕ → ConvertReservation → Agreement → Tx Market Converted
unfolding open_account record_sale paper_sale
sell code stamp today id p a = do
  account ← open_account code stamp a
  sale ← record_sale id a account
  paper_sale code today p a account sale

unfoldable pub convert_tx : (Reference → ℕ) → ℕ → Ymd → ℕ → ConvertReservation → Tx Market Converted
unfolding agree sell
convert_tx code stamp today id p = do
  agreed ← query (agree id p.price_override)
  a ← lift agreed
  sell code stamp today id p a

abbrev pub sale_error : Error → Error
sale_error uq_active_sale = conflict
sale_error e = e

-- `convertReservationToSale(params)`, at the clock's `stamp` and date.
unfoldable pub convert_reservation :
    (Reference → ℕ) → ℕ → Ymd → ℕ → ConvertReservation → Action Market Converted
unfolding convert_tx
convert_reservation code stamp today id p =
    rethrow sale_error (with_actor (convert_tx code stamp today id p))
