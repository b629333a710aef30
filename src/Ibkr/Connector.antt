-- ===== src/Ibkr/Connector.antt =====
-- src/connectors/IbkrFlexConnector.ts: the account's figures from the reports, with the trades of each
-- day by category. `upper` is `toUpperCase`, and `precedes` is `localeCompare` being negative.
pub mod Days
pub mod Tests
use zero_knowledge_aggregato.Base.{
  ℕ, ◌+◌, String, Bool, true, false, ◌||◌, Option, none, some, List, [], ◌∷◌, map, str_eq,
  if◌then◌else◌, Result, ok, err, Error, message, because, Act, pure, throw, lift, ◌>>=◌, ◌>>◌,
  catch,
}
use zero_knowledge_aggregato.Aggregator.Data.{Numbers, Market, no_market, Object, lookup}
use zero_knowledge_aggregato.Ibkr.Flex.{
  Client, FlexState, get_flex_data_cached, live_report, find_report, cache_key, serve_or_fetch,
  fetch_report,
}
use zero_knowledge_aggregato.Ibkr.Reports.{
  FlexTrade, FlexPosition, FlexAccountSummary, parse_trades, parse_positions, parse_account_summary,
}

-- The categories of a day's figures; `total` is no category.
pub data Category : Type 0 where
  stocks : Category
  options : Category
  futures_commodities : Category
  cfd : Category
  forex : Category

pub record Tally (Num : Type 0) : Type 0 where
  pub volume : Num
  pub count : ℕ
  pub fees : Num

pub record DayMetrics (Num : Type 0) : Type 0 where
  pub stocks_tally : Tally Num
  pub options_tally : Tally Num
  pub futures_commodities_tally : Tally Num
  pub cfd_tally : Tally Num
  pub forex_tally : Tally Num
  pub total : Tally Num

pub record BalanceData (Num : Type 0) : Type 0 where
  pub balance : Num
  pub equity : Num
  pub unrealized_pnl : Num
  pub currency : String

pub record PositionData (Num : Type 0) : Type 0 where
  pub symbol : String
  pub side : String
  pub size : Num
  pub entry_price : Num
  pub mark_price : Num
  pub unrealized_pnl : Num

-- `asset_category?.toUpperCase() || 'STK'` and the switch on it.
abbrev pub category_of : (String → String) → String → Category
category_of upper name =
    let c = upper name in
    if str_eq c "OPT"
    then options
    else if str_eq c "FUT" || str_eq c "FOP" || str_eq c "CMDTY"
    then futures_commodities
    else if str_eq c "CFD"
    then cfd
    else if str_eq c "CASH"
    then forex
    else stocks

module _ {Num : Type 0} where
  abbrev pub tally_of : Category → DayMetrics Num → Tally Num
  tally_of stocks m = m.stocks_tally
  tally_of options m = m.options_tally
  tally_of futures_commodities m = m.futures_commodities_tally
  tally_of cfd m = m.cfd_tally
  tally_of forex m = m.forex_tally

  abbrev pub change_tally : (Tally Num → Tally Num) → Category → DayMetrics Num → DayMetrics Num
  change_tally f stocks m = record m { stocks_tally = f m.stocks_tally }
  change_tally f options m = record m { options_tally = f m.options_tally }
  change_tally f futures_commodities m = record m {
    futures_commodities_tally = f m.futures_commodities_tally;
  }
  change_tally f cfd m = record m { cfd_tally = f m.cfd_tally }
  change_tally f forex m = record m { forex_tally = f m.forex_tally }

  -- Sorting by date, equal dates in their order; the connector reads the last.
  abbrev pub insert_by_date :
      (String → String → Bool)
      → FlexAccountSummary Num
      → List (FlexAccountSummary Num)
      → List (FlexAccountSummary Num)
  insert_by_date precedes x [] = x ∷ []
  insert_by_date precedes x (y ∷ ys) =
      if precedes y.date x.date then y ∷ insert_by_date precedes x ys else x ∷ y ∷ ys

  abbrev pub sort_by_date :
      (String → String → Bool) → List (FlexAccountSummary Num) → List (FlexAccountSummary Num)
  sort_by_date precedes [] = []
  sort_by_date precedes (x ∷ xs) = insert_by_date precedes x (sort_by_date precedes xs)

  abbrev pub last_of :
      FlexAccountSummary Num → List (FlexAccountSummary Num) → FlexAccountSummary Num
  last_of x [] = x
  last_of x (y ∷ ys) = last_of y ys

module _ (numbers : Numbers) (abs : (numbers.Num) → numbers.Num) (upper : String → String) where
  open numbers use {Num, nought, plus, minus, times, truthy, positive}

  abbrev pub empty_tally : Tally Num
  empty_tally = record { volume = nought; count = 0; fees = nought }

  abbrev pub create_empty_metrics : DayMetrics Num
  create_empty_metrics = record {
    stocks_tally = empty_tally;
    options_tally = empty_tally;
    futures_commodities_tally = empty_tally;
    cfd_tally = empty_tally;
    forex_tally = empty_tally;
    total = empty_tally;
  }

  -- `Math.abs(trade.ibCommission || 0)`
  abbrev pub fees_of : FlexTrade Num → Num
  fees_of t = abs (if truthy t.ib_commission then t.ib_commission else nought)

  abbrev pub add_to_tally : FlexTrade Num → Tally Num → Tally Num
  add_to_tally t a = record {
    volume = plus a.volume (abs (times t.quantity t.trade_price));
    count = a.count + 1;
    fees = plus a.fees (fees_of t);
  }

  abbrev pub add_trade : FlexTrade Num → DayMetrics Num → DayMetrics Num
  add_trade t m =
      let n = change_tally (add_to_tally t) (category_of upper t.asset_category) m in
      record n { total = add_to_tally t n.total }

  -- A day that is not there yet begins empty, at the end of the map.
  abbrev pub add_to_day : FlexTrade Num → Object (DayMetrics Num) → Object (DayMetrics Num)
  add_to_day t [] = (t.trade_date, add_trade t create_empty_metrics) ∷ []
  add_to_day t ((d, m) ∷ rest) =
      if str_eq d t.trade_date then (d, add_trade t m) ∷ rest else (d, m) ∷ add_to_day t rest

  abbrev pub add_trades : List (FlexTrade Num) → Object (DayMetrics Num) → Object (DayMetrics Num)
  add_trades [] days = days
  add_trades (t ∷ ts) days = add_trades ts (add_to_day t days)

  unfoldable pub group_trades_by_date : List (FlexTrade Num) → Object (DayMetrics Num)
  group_trades_by_date ts = add_trades ts []

  abbrev pub metrics_or_empty : Option (DayMetrics Num) → DayMetrics Num
  metrics_or_empty none = create_empty_metrics
  metrics_or_empty (some m) = m

  abbrev pub market_of : Num → Num → Tally Num → Market Num
  market_of equity margin t = record no_market {
    equity = some equity;
    available_margin = some margin;
    volume = some t.volume;
    trades = some t.count;
    trading_fees = some t.fees;
    funding_fees = some nought;
  }

  unfoldable pub map_summary_to_breakdown :
      FlexAccountSummary Num → Option (DayMetrics Num) → Object (Market Num)
  map_summary_to_breakdown s o =
      let m = metrics_or_empty o in
      ("global", market_of s.net_liquidation_value s.cash m.total)
      ∷ ("stocks", market_of s.stock_value nought m.stocks_tally)
      ∷ ("options", market_of s.option_value nought m.options_tally)
      ∷ ("futures_commodities", market_of s.commodity_value nought m.futures_commodities_tally)
      ∷ ("cfd", market_of nought nought m.cfd_tally)
      ∷ ("forex", market_of nought nought m.forex_tally)
      ∷ []

  module _ (precedes : String → String → Bool) (parse_float : String → Num) (client : Client)
      (token query : String) where
    open client use {Net}

    abbrev pub Job : Type 0 → Type 0
    Job = Act (FlexState Net)

    abbrev pub fetch_flex_data : {A : Type 0} → ℕ → (String → Result A) → Job A
    fetch_flex_data now parser =
        get_flex_data_cached client now token query >>= λ xml. lift (parser xml)

    abbrev pub no_account : Error
    no_account = message "No account data found in Flex report"

    abbrev pub latest_of : List (FlexAccountSummary Num) → Job (FlexAccountSummary Num)
    latest_of [] = throw no_account
    latest_of (s ∷ ss) = pure (last_of s (sort_by_date precedes (s ∷ ss)))

    abbrev pub create_balance_data : Num → Num → String → BalanceData Num
    create_balance_data balance equity currency = record {
      balance = balance;
      equity = equity;
      unrealized_pnl = minus equity balance;
      currency = currency;
    }

    abbrev pub with_error_handling : {A : Type 0} → String → Job A → Job A
    with_error_handling context job = catch job (λ e. throw (because context e))

    unfoldable pub get_balance : ℕ → Job (BalanceData Num)
    get_balance now = with_error_handling "getBalance" (do
      summaries ← fetch_flex_data now (parse_account_summary parse_float client)
      latest ← latest_of summaries
      pure (create_balance_data latest.cash latest.net_liquidation_value "USD"))

    -- Two fetches that are awaited together both look at the cache before either fills it. Of the
    -- orders of their requests this is one after the other; where the first throws, what the second
    -- still does is left out.
    abbrev pub fetch_both : ℕ → Job (List (FlexAccountSummary Num) × List (FlexTrade Num))
    fetch_both now s =
        let cached = live_report now (find_report (cache_key token query) s.flex_cache) in
        (serve_or_fetch client cached (fetch_report client now token query) >>= λ xml.
        serve_or_fetch client cached (fetch_report client now token query) >>= λ xml'.
        lift (parse_account_summary parse_float client xml) >>= λ summaries.
        lift (parse_trades parse_float client xml') >>= λ trades. pure (summaries, trades))
          s

    -- The breakdown of a summary by the trades of its day.
    abbrev pub breakdown_of : List (FlexTrade Num) → FlexAccountSummary Num → Object (Market Num)
    breakdown_of ts s = map_summary_to_breakdown s (lookup s.date (group_trades_by_date ts))

    unfoldable pub get_historical_summaries : ℕ → Job (List (String × Object (Market Num)))
    get_historical_summaries now = with_error_handling "getHistoricalSummaries" (do
      reports ← fetch_both now
      pure (map (λ s. (s.date, breakdown_of reports.1 s)) reports.0))

    unfoldable pub get_balance_breakdown : ℕ → Job (Object (Market Num))
    get_balance_breakdown now = with_error_handling "getBalanceBreakdown" (do
      reports ← fetch_both now
      latest ← latest_of reports.0
      pure (breakdown_of reports.1 latest))

    -- The realised profit is 0 and the leverage 1.
    abbrev pub position_data_of : FlexPosition Num → PositionData Num
    position_data_of p = record {
      symbol = p.symbol;
      side = if positive p.position then "long" else "short";
      size = abs p.position;
      entry_price = p.cost_basis_price;
      mark_price = p.mark_price;
      unrealized_pnl = p.fifo_pnl_unrealized;
    }

    unfoldable pub get_current_positions : ℕ → Job (List (PositionData Num))
    get_current_positions now = with_error_handling "getCurrentPositions" (do
      positions ← fetch_flex_data now (parse_positions parse_float client)
      pure (map position_data_of positions))
