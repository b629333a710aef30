-- ===== src/Ibkr/Connector/Tests.antt =====
-- The figures of days, over natural amounts.
use zero_knowledge_aggregato.Base.{ℕ, ◌+◌, ◌-◌, ◌*◌, ◌≡◌, refl, String, List, [], ◌∷◌, keep, ltb}
use zero_knowledge_aggregato.Aggregator.Data.{Numbers}
use zero_knowledge_aggregato.Ibkr.Reports.{FlexTrade}
use zero_knowledge_aggregato.Ibkr.Connector.{
  Category, futures_commodities, tally_of, group_trades_by_date,
}
use zero_knowledge_aggregato.Ibkr.Connector.Days.{
  is_of, is_on, figures, tally_all, counts_of, group_trades_by_date-tally_all,
}

abbrev amounts : Numbers
amounts = record {
  Num = ℕ;
  nought = 0;
  plus = λ a b. a + b;
  minus = λ a b. a - b;
  times = λ a b. a * b;
  truthy = λ a. ltb 0 a;
  positive = λ a. ltb 0 a;
}

abbrev same : ℕ → ℕ
same n = n

abbrev as_is : String → String
as_is s = s

abbrev trade : String → String → ℕ → FlexTrade ℕ
trade date category quantity = record {
  symbol = "AAPL";
  trade_id = "1";
  ib_order_id = "2";
  trade_date = date;
  trade_time = "10:00:00";
  buy_sell = "BUY";
  quantity = quantity;
  trade_price = 10;
  ib_commission = 1;
  ib_commission_currency = "USD";
  net_cash = 0;
  close_price = 0;
  fifo_pnl_realized = 0;
  asset_category = category;
}

abbrev trades : List (FlexTrade ℕ)
trades = trade "d1" "STK" 2 ∷ trade "d2" "FUT" 3 ∷ trade "d1" "CMDTY" 4 ∷ trade "d1" "FOP" 5 ∷ []

merged :
    tally_of futures_commodities
      (figures amounts same as_is "d1" (group_trades_by_date amounts same as_is trades))
    ≡ record { volume = 90; count = 2; fees = 2 }
unfolding group_trades_by_date
merged = refl

group_trades_by_date-tally_all_example :
    let m = figures amounts same as_is "d1" (group_trades_by_date amounts same as_is trades) in
    ((c : Category)
      → tally_of c m ≡ tally_all amounts same as_is (keep (is_of amounts same as_is "d1" c) trades))
    × (m.total ≡ tally_all amounts same as_is (keep (is_on amounts same as_is "d1") trades))
    × (counts_of amounts same as_is m ≡ m.total.count)
group_trades_by_date-tally_all_example =
    group_trades_by_date-tally_all amounts same as_is "d1" trades
