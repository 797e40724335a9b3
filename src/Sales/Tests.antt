-- ===== src/Sales/Tests.antt =====
-- Runs of the sales service of src/modules/sales/sales.service.ts.
use infraco_os.Common.{◌||◌, ◌≡◌, refl, none, some, List, [], ◌∷◌, arith, find?, true}
use infraco_os.Common.Int.{pos, ◌-ℤ◌}
use infraco_os.Common.Keys.{has_key}
use infraco_os.Common.Result.{ok}
use infraco_os.Database.Enums.{available, usd}
use infraco_os.Instalment.{equal, compute_instalment_amounts}
use infraco_os.Lease.Samples.{code, office}
use infraco_os.Lease.Single.{count_where}
use infraco_os.Rent.{Ymd}
use infraco_os.Schedule.{monthly}
use infraco_os.Sales.{
  agro_plot, Sale, Market, is_pending, is_approved, knows_parties, pending_approval, sale_key,
  reserve_plot, with_reservation,
}
use infraco_os.Sales.Convert.{ConvertReservation, Converted, convert_reservation}
use infraco_os.Sales.Cancel.{Cancellation, cancel_sale}
use infraco_os.Sales.Sound.{IsSound}
use infraco_os.Sales.Steps.{reserve_plot-IsSound}
use infraco_os.Sales.Sold.{IsSold, convert_reservation-IsSound, convert_reservation_sells}
use infraco_os.Sales.History.{
  Op, reserves, converts, approves, cancels, run_sales, run_sales-IsSound, cancel_sale-reserve_plot,
}

abbrev today : Ymd
today = record { y = 2026; m = 6; d = 10 }

abbrev market : Market
market = record {
  desk = record { office = office; plans = [] };
  users = 7 ∷ [];
  plots =
      record {
        plot_id = 3;
        plot_type = agro_plot;
        price = some (pos 50_000);
        currency = usd;
        status = available;
      }
      ∷ [];
  reservations = [];
  sales = [];
  documents = [];
  next_reservation_id = 1;
  next_sale_id = 1;
}

abbrev terms : ConvertReservation
terms = record {
  num_instalments = pos 3;
  deposit = pos 20_000;
  frequency = monthly;
  structure = equal;
  balloon_amount = none;
  start_date = none;
  price_override = none;
}

market-IsSound : IsSound market
unfolding count_where
market-IsSound = record { keyed = tt; allocated = λ plot. (omega arith, omega arith) }

-- Two reservations of a plot, the second of which is refused, a sale, its approval and its end.
abbrev ops : List Op
ops =
    reserves 3 (some 4) (some 7)
    ∷ reserves 3 none none
    ∷ converts code 1 today 1 terms
    ∷ approves 1
    ∷ cancels 1 (some 5)
    ∷ []

run_sales-IsSound_example : IsSound (run_sales ops market)
run_sales-IsSound_example = run_sales-IsSound ops market market-IsSound

reserved_market : Market
unfolding reserve_plot
reserved_market = (reserve_plot 3 (some 4) (some 7) market).1

reserved_run : reserve_plot 3 (some 4) (some 7) market ≡ (ok 1, reserved_market)
unfolding reserve_plot reserved_market
reserved_run = refl

sold_market : Market
unfolding convert_reservation
sold_market = (convert_reservation code 1 today 1 terms reserved_market).1

converted : Converted
converted = record {
  sale_id = 1;
  account_id = 10;
  price = pos 50_000;
  currency = usd;
  schedule = record {
    invoice_ids = 4 ∷ 5 ∷ 6 ∷ [];
    amounts = pos 10_000 ∷ pos 10_000 ∷ pos 10_000 ∷ [];
    currency = usd;
  };
}

sold_run : convert_reservation code 1 today 1 terms reserved_market ≡ (ok converted, sold_market)
unfolding convert_reservation reserved_market sold_market converted reserve_plot
    compute_instalment_amounts ◌-ℤ◌
sold_run = refl

convert_reservation_sells_example :
    IsSold code 1 today 1 terms reserved_market sold_market converted
convert_reservation_sells_example =
    convert_reservation_sells code 1 today 1 terms reserved_market sold_market sold_run

reserved-IsSound : IsSound reserved_market
unfolding reserved_market
reserved-IsSound = reserve_plot-IsSound 3 (some 4) (some 7) market market-IsSound

sold-IsSound : IsSound sold_market
unfolding sold_market
sold-IsSound = convert_reservation-IsSound code 1 today 1 terms reserved_market reserved-IsSound

sale : Sale
sale = record {
  sale_id = 1;
  plot_id = 3;
  customer_id = 4;
  agent_id = some 7;
  account_id = some 10;
  price = pos 50_000;
  currency = usd;
  status = pending_approval;
}

sale_found : find? (has_key sale_key 1) sold_market.sales ≡ some sale
unfolding convert_reservation reserved_market sold_market reserve_plot sale
    compute_instalment_amounts ◌-ℤ◌
sale_found = refl

sale_pending : (is_pending sale.status || is_approved sale.status) ≡ true
unfolding sale
sale_pending = refl

agent_known : knows_parties (some 4) (some 7) sold_market ≡ true
unfolding convert_reservation reserved_market sold_market reserve_plot compute_instalment_amounts
    ◌-ℤ◌
agent_known = refl

cancel_sale-reserve_plot_example :
    (c : Cancellation) × (t : Market) × (cancel_sale 1 (some 5) sold_market ≡ (ok c, t))
    × (reserve_plot sale.plot_id (some 4) (some 7) t
        ≡ (ok t.next_reservation_id, with_reservation sale.plot_id (some 4) (some 7) t))
cancel_sale-reserve_plot_example =
    cancel_sale-reserve_plot 1 5 (some 4) (some 7) sold_market sale sold-IsSound sale_found
      sale_pending agent_known
