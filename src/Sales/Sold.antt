-- ===== src/Sales/Sold.antt =====
-- What `convertReservationToSale` of src/modules/sales/sales.service.ts has done when it returns.
use infraco_os.Common.{
  ℕ, ◌+◌, ◌≡◌, refl, sym, ap, ◌∙◌, subst, inl, inr, arith, ◌∷◌, ◌++◌, update_where, if◌then◌else◌,
}
use infraco_os.Common.Keys.{has_key}
use infraco_os.Common.Result.{Result, ok, err, Result-cases}
use infraco_os.Database.Enums.{Error}
use infraco_os.Database.Transaction.{Action, TxState, begin, ◌>>=◌, lift, with_actor}
use infraco_os.Database.Transaction.Laws.{>>=-eq-ok, with_actor_keeps, with_actor-eq-ok}
use infraco_os.Office.{Reference, Office, map_error, rethrow}
use infraco_os.Rent.{Ymd}
use infraco_os.Schedule.{GenerateSchedule}
use infraco_os.Schedule.Totals.{IsInserted, IsScheduled}
use infraco_os.Sales.Agreed.{IsAgreed, agree-IsAgreed}
use infraco_os.Sales.{Market, reservation_key}
use infraco_os.Sales.Convert.{
  ConvertReservation, Agreement, agree, open_account, new_sale, convert_row, record_sale,
  schedule_request, Converted, paper_sale, sell, convert_tx, convert_reservation, sale_error,
}
use infraco_os.Sales.Sound.{IsSound, IsSound-same, with_sale, with_sale_lem}
use infraco_os.Sales.Opening.{opened_account, Opens, Opens-then, open_account_lem}
use infraco_os.Sales.Selling.{record_sale_lem, paper_sale_lem}

-- A schedule of an account, seen from the tables before the account was opened.
IsScheduled-from :
    (code : Reference → ℕ) (account : ℕ) (p : GenerateSchedule) (o o' t : Office)
    → o.fin.invoices ≡ o'.fin.invoices
    → o.customers ≡ o'.customers
    → IsInserted code account p o t
    → IsScheduled account p o' t
IsScheduled-from code account p o o' t invoices customers inserted =
    let (adds, _) = inserted.dates in
    (
      inserted.instalments,
      inserted.asked,
      record {
        rows = adds.rows;
        table = adds.table ∙ ap (λ is. adds.rows ++ is) invoices;
        drafts = adds.drafts;
        amounts = adds.amounts;
        count = adds.count;
        customers = adds.customers ∙ customers;
      },
    )

-- A reservation that was converted: its sale is pending and has a new account, which is active and has
-- the customer, the plot's currency and the type and reference of the plot's kind; the account's
-- drafts add up to the price less the deposit.
pub record IsSold (code : Reference → ℕ) (stamp : ℕ) (today : Ymd) (id : ℕ) (p : ConvertReservation)
    (m t : Market) (c : Converted) : Type 0 where
  pub agreement : Agreement
  pub agreed : IsAgreed id p.price_override m agreement
  pub sale_id : c.sale_id ≡ m.next_sale_id
  pub account_id : c.account_id ≡ m.desk.office.next_account_id
  pub account : Opens (opened_account code stamp agreement c.account_id) m.desk.office t.desk.office
  pub price : c.price ≡ agreement.price
  pub documents : t.documents ≡ c.sale_id ∷ m.documents
  pub sales : t.sales ≡ new_sale agreement c.account_id m.next_sale_id ∷ m.sales
  pub next_sale_id : t.next_sale_id ≡ m.next_sale_id + 1
  pub reservations :
      t.reservations ≡ update_where (has_key reservation_key id) convert_row m.reservations
  pub plots : t.plots ≡ m.plots
  pub schedule :
      IsScheduled c.account_id (schedule_request today p agreement) m.desk.office t.desk.office

pub convert_tx-IsSold :
    (code : Reference → ℕ) (stamp : ℕ) (today : Ymd) (id : ℕ) (p : ConvertReservation) (m : Market)
    {c : Converted} {u : TxState Market}
    → convert_tx code stamp today id p (begin m) ≡ (ok c, u)
    → (t : Market) × (u ≡ begin t) × IsSold code stamp today id p m t c
unfolding convert_tx sell
convert_tx-IsSold code stamp today id p m {c} {u} h =
    elim (Result-cases (agree id p.price_override m)) [
      | inr (x, e) ↦
          let stopped = ap (λ r. (lift r >>= sell code stamp today id p) (begin m)) (sym e) ∙ h in
          absurd (ground arith)
      | inl (a, e) ↦
          sold a (agree-IsAgreed id p.price_override m e)
            (ap (λ r. (lift r >>= sell code stamp today id p) (begin m)) (sym e) ∙ h)
    ]
  where
    sold :
        (a : Agreement)
        → IsAgreed id p.price_override m a
        → sell code stamp today id p a (begin m) ≡ (ok c, u)
        → (t : Market) × (u ≡ begin t) × IsSold code stamp today id p m t c
    sold a agreed k =
        let (account, v, opened, after) =
          >>=-eq-ok (open_account code stamp a)
            (λ account. record_sale id a account >>= paper_sale code today p a account) (begin m)
            k in
        let (o, invoices, customers, opens, is_new, at) = open_account_lem code stamp a m opened in
        let (sale, w, recorded, last) =
          >>=-eq-ok (record_sale id a account) (paper_sale code today p a account) v after in
        let (is_sale, at') =
          record_sale_lem id a account (record m { desk = record m.desk { office = o } })
            (subst (λ n. record_sale id a account n ≡ (ok sale, w)) at recorded) in
        let (d, is_u, inserted, is_id, is_account, is_price) =
          paper_sale_lem code today p a account sale
            (with_sale id a account (record m { desk = record m.desk { office = o } }))
            (subst (λ n. paper_sale code today p a account sale n ≡ (ok c, u)) at' last) in
        (
          record (with_sale id a account m) { desk = d; documents = sale ∷ m.documents },
          is_u,
          record {
            agreement = a;
            agreed = agreed;
            sale_id = is_id ∙ is_sale;
            account_id = is_account ∙ is_new;
            account =
                subst (λ n. Opens (opened_account code stamp a n) m.desk.office d.office)
                  (sym is_account)
                  (Opens-then (opened_account code stamp a account) m.desk.office o d.office opens
                    inserted.dates.1.1);
            price = is_price;
            documents = ap (λ n. n ∷ m.documents) (sym is_id);
            sales = ap (λ n. new_sale a n m.next_sale_id ∷ m.sales) (sym is_account);
            next_sale_id = refl;
            reservations = refl;
            plots = refl;
            schedule =
                subst (λ n. IsScheduled n (schedule_request today p a) m.desk.office d.office)
                  (sym is_account)
                  (IsScheduled-from code account (schedule_request today p a) o m.desk.office
                    d.office invoices customers inserted);
          },
        )

-- A conversion keeps every plot's allocation.
pub convert_reservation-IsSound :
    (code : Reference → ℕ) (stamp : ℕ) (today : Ymd) (id : ℕ) (p : ConvertReservation) (m : Market)
    → IsSound m
    → IsSound (convert_reservation code stamp today id p m).1
unfolding convert_reservation
convert_reservation-IsSound code stamp today id p m s =
    with_actor_keeps IsSound (convert_tx code stamp today id p) m s (λ c u h.
      let (t, at, sold) = convert_tx-IsSold code stamp today id p m h in
      let sound =
        with_sale_lem id c.account_id sold.agreement m s sold.agreed.found sold.agreed.held in
      subst (λ x. IsSound x.db) (sym at)
        (IsSound-same sound sold.plots sold.reservations sold.sales sold.next_sale_id))

pub rethrow-eq-ok :
    {S A : Type 0} (f : Error → Error) (m : Action S A) (d : S) {a : A} {t : S}
    → rethrow f m d ≡ (ok a, t)
    → m d ≡ (ok a, t)
rethrow-eq-ok {S} {A} f m d {a} {t} h = go (m d) refl h
  where
    mapped : Result Error A × S → Result Error A × S
    mapped (r, u) = (map_error f r, u)

    go : (r : Result Error A × S) → m d ≡ r → mapped r ≡ (ok a, t) → m d ≡ (ok a, t)
    go (ok x, u) e k = e ∙ k
    go (err x, u) e k = absurd (ground arith)

-- A conversion that succeeds was of an active reservation of a reserved plot. It opens one account,
-- under the next id and of balance 0: it is active, of the reservation's customer and the plot's
-- currency, for a stand or an agricultural purchase as the plot is, with the reference of these. It
-- adds one sale, which is pending and has this account, the sale's document, and draft instalments of
-- this account, as many as were asked for; they add up to the agreed price less the deposit.
pub convert_reservation_sells :
    (code : Reference → ℕ) (stamp : ℕ) (today : Ymd) (id : ℕ) (p : ConvertReservation)
    (m t : Market) {c : Converted}
    → convert_reservation code stamp today id p m ≡ (ok c, t)
    → IsSold code stamp today id p m t c
unfolding convert_reservation
convert_reservation_sells code stamp today id p m t {c} h =
    let ran = rethrow-eq-ok sale_error (with_actor (convert_tx code stamp today id p)) m h in
    let (u, done, left) = with_actor-eq-ok (convert_tx code stamp today id p) m ran in
    let (t', at, sold) = convert_tx-IsSold code stamp today id p m done in
    subst (λ x. IsSold code stamp today id p m x c)
      (sym (left ∙ ap (λ x. if x.aborted then m else x.db) at)) sold
