-- ===== src/Sales/Opening.antt =====
-- The account that `convertReservationToSale` of src/modules/sales/sales.service.ts opens.
use infraco_os.Common.{
  ℕ, ◌+◌, Bool, true, false, not, ◌≡◌, refl, sym, ap, ◌∙◌, subst, arith, ◌∷◌, exists, if◌then◌else◌,
}
use infraco_os.Common.Result.{Result, ok, err, ok-inj}
use infraco_os.Database.Enums.{
  Error, unique_violation, foreign_key_violation, account_active, AccountType, stand_purchase,
  agro_purchase,
}
use infraco_os.Database.Transaction.{Tx, TxState, begin, statement}
use infraco_os.Database.Transaction.Laws.{statement-eq-ok, zoom-eq-ok}
use infraco_os.Office.{Reference, account_ref, uuid_head, AccountRow, Office, has_customer}
use infraco_os.Common.Int.{pos}
use infraco_os.Office.Accounts.{
  uses_reference, add_account, new_account, store_account, insert_account,
}
use infraco_os.Schedule.Generate.{on_office}
use infraco_os.Sales.{PlotType, residential_plot, hospitality, business, agro_plot, Market}
use infraco_os.Sales.Convert.{Agreement, account_type_of, sale_reference, open_account}
use infraco_os.Schedule.Dates.{KeepsAccounts}

-- The type of a sale's account: an agricultural plot is bought on one type, any other on the other.
abbrev pub purchase_of : PlotType → AccountType
purchase_of agro_plot = agro_purchase
purchase_of residential_plot = stand_purchase
purchase_of hospitality = stand_purchase
purchase_of business = stand_purchase

type-purchase : (t : PlotType) → account_type_of t ≡ purchase_of t
type-purchase agro_plot = refl
type-purchase residential_plot = refl
type-purchase hospitality = refl
type-purchase business = refl

-- The account that a sale opens.
abbrev pub opened_account : (Reference → ℕ) → ℕ → Agreement → ℕ → AccountRow
opened_account code stamp a id = record {
  account_id = id;
  customer_id = a.customer;
  account_type = purchase_of a.plot.plot_type;
  reference = code (account_ref (purchase_of a.plot.plot_type) (uuid_head a.customer) stamp);
  status = account_active;
  currency = a.plot.currency;
}

-- Tables with one more account, of balance 0.
pub record Opens (row : AccountRow) (o t : Office) : Type 0 where
  pub account_rows : t.account_rows ≡ row ∷ o.account_rows
  pub accounts :
      t.fin.accounts
      ≡ record { account_id = row.account_id; account_type = row.account_type; balance = pos 0 }
        ∷ o.fin.accounts
  pub next_account_id : t.next_account_id ≡ o.next_account_id + 1

pub open_account_lem :
    (code : Reference → ℕ) (stamp : ℕ) (a : Agreement) (m : Market) {account : ℕ}
    {u : TxState Market}
    → open_account code stamp a (begin m) ≡ (ok account, u)
    → (o : Office) × (o.fin.invoices ≡ m.desk.office.fin.invoices)
      × (o.customers ≡ m.desk.office.customers)
      × Opens (opened_account code stamp a account) m.desk.office o
      × (account ≡ m.desk.office.next_account_id)
      × (u ≡ begin (record m { desk = record m.desk { office = o } }))
unfolding open_account insert_account
open_account_lem code stamp a m {account} {u} h =
    let (v, opened, at) =
      zoom-eq-ok (λ n. n.desk) (λ d n. record n { desk = d }) (on_office inserted) m h in
    let (w, ran, at') =
      zoom-eq-ok (λ d. d.office) (λ o d. record d { office = o }) inserted m.desk opened in
    let (o, stored, at'') = statement-eq-ok store m.desk.office ran in
    let (is_account, is_o) =
      passed (exists (uses_reference (sale_reference code stamp a)) m.desk.office.account_rows)
        (not (exists (has_customer a.customer) m.desk.office.customers)) stored in
    (
      o,
      ap (λ x. x.fin.invoices) (sym is_o),
      ap (λ x. x.customers) (sym is_o),
      subst (λ x. Opens (opened_account code stamp a account) m.desk.office x) is_o
          (subst (λ n. Opens (opened_account code stamp a n) m.desk.office added) is_account opens),
      sym is_account,
      at
          ∙ (ap (λ x. record { db = record m { desk = x.db }; aborted = x.aborted }) at'
              ∙ ap
                  (λ x. record {
                    db = record m { desk = record m.desk { office = x.db } };
                    aborted = x.aborted;
                  })
                  at''),
    )
  where
    store : Office → Result Error (ℕ × Office)
    store =
        store_account a.customer (account_type_of a.plot.plot_type) (sale_reference code stamp a)
          account_active a.plot.currency

    inserted : Tx Office ℕ
    inserted = statement store

    added : Office
    added =
        add_account
          (new_account a.customer (account_type_of a.plot.plot_type) (sale_reference code stamp a)
            account_active a.plot.currency m.desk.office)
          m.desk.office

    opened : AccountType → AccountRow
    opened type = record {
      account_id = m.desk.office.next_account_id;
      customer_id = a.customer;
      account_type = type;
      reference = code (account_ref type (uuid_head a.customer) stamp);
      status = account_active;
      currency = a.plot.currency;
    }

    opens : Opens (opened_account code stamp a m.desk.office.next_account_id) m.desk.office added
    opens =
        subst (λ type. Opens (opened type) m.desk.office added) (type-purchase a.plot.plot_type)
          (record { account_rows = refl; accounts = refl; next_account_id = refl })

    stored_row : ℕ × Office
    stored_row = (m.desk.office.next_account_id, added)

    passed :
        (b c : Bool) {o : Office}
        → (if b
            then err unique_violation
            else if c
            then err foreign_key_violation
            else ok stored_row)
          ≡ ok (account, o)
        → (m.desk.office.next_account_id ≡ account) × (added ≡ o)
    passed true c k = absurd (ground arith)
    passed false true k = absurd (ground arith)
    passed false false k = (ap (λ r. r.0) (ok-inj k), ap (λ r. r.1) (ok-inj k))

pub Opens-then :
    (row : AccountRow) (o t u : Office) → Opens row o t → KeepsAccounts t u → Opens row o u
Opens-then row o t u opens kept = record {
  account_rows = kept.account_rows ∙ opens.account_rows;
  accounts = kept.accounts ∙ opens.accounts;
  next_account_id = kept.next_account_id ∙ opens.next_account_id;
}
