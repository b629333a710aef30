-- ===== src/Ibkr/Reports.antt =====
-- src/external/ibkr-flex-service.ts: reading a report. `parse_float` is JavaScript's; an attribute that
-- is missing or empty has its default.
use zero_knowledge_aggregato.Base.{
  String, Option, none, some, List, [], ◌∷◌, map, str_eq, if◌then◌else◌, Result, ok, err, because,
}
use zero_knowledge_aggregato.Aggregator.Data.{Object, lookup}
use zero_knowledge_aggregato.Ibkr.Flex.{Statement, Document, Client}

pub record FlexTrade (Num : Type 0) : Type 0 where
  pub symbol : String
  pub trade_id : String
  pub ib_order_id : String
  pub trade_date : String
  pub trade_time : String
  pub buy_sell : String
  pub quantity : Num
  pub trade_price : Num
  pub ib_commission : Num
  pub ib_commission_currency : String
  pub net_cash : Num
  pub close_price : Num
  pub fifo_pnl_realized : Num
  pub asset_category : String

pub record FlexPosition (Num : Type 0) : Type 0 where
  pub symbol : String
  pub position : Num
  pub mark_price : Num
  pub position_value : Num
  pub open_price : Num
  pub cost_basis_price : Num
  pub fifo_pnl_unrealized : Num

pub record FlexCashTransaction (Num : Type 0) : Type 0 where
  pub symbol : String
  pub date : String
  pub type_name : String
  pub amount : Num
  pub currency : String
  pub description : String

pub record FlexAccountSummary (Num : Type 0) : Type 0 where
  pub date : String
  pub cash : Num
  pub stock_value : Num
  pub option_value : Num
  pub commodity_value : Num
  pub net_liquidation_value : Num
  pub unrealized_pnl : Num
  pub realized_pnl : Num

-- `attrs.key || default`
abbrev pub text_or : String → Option String → String
text_or default none = default
text_or default (some s) = if str_eq s "" then default else s

abbrev pub attribute : String → String → Object String → String
attribute key default attrs = text_or default (lookup key attrs)

-- The first of several attributes that is not empty.
abbrev pub first_attribute : List String → String → Object String → String
first_attribute [] default attrs = default
first_attribute (k ∷ ks) default attrs = attribute k (first_attribute ks default attrs) attrs

abbrev pub entries : {A : Type 0} → (Object String → A) → Option (List (Object String)) → List A
entries f none = []
entries f (some es) = map f es

-- `a || b` on lists that may be missing; an empty list counts as there.
abbrev pub list_or : {A : Type 0} → Option A → Option A → Option A
list_or none b = b
list_or (some a) b = some a

abbrev pub of_statement : {A : Type 0} → (Statement → List A) → Option Statement → List A
of_statement f none = []
of_statement f (some s) = f s

abbrev pub parsed : {A : Type 0} → (Statement → List A) → String → Result Document → Result (List A)
parsed f failed (ok d) = ok (of_statement f d.statement)
parsed f failed (err e) = err (because failed e)

abbrev pub side_of : String → String
side_of s = if str_eq s "BUY" then "BUY" else "SELL"

module _ {Num : Type 0} (parse_float : String → Num) where
  abbrev pub number : String → Object String → Num
  number key attrs = parse_float (attribute key "0" attrs)

  abbrev pub trade_of : Object String → FlexTrade Num
  trade_of attrs = record {
    symbol = attribute "symbol" "" attrs;
    trade_id = attribute "tradeID" "" attrs;
    ib_order_id = attribute "ibOrderID" "" attrs;
    trade_date = attribute "tradeDate" "" attrs;
    trade_time = attribute "tradeTime" "" attrs;
    buy_sell = side_of (attribute "buySell" "" attrs);
    quantity = number "quantity" attrs;
    trade_price = number "tradePrice" attrs;
    ib_commission = number "ibCommission" attrs;
    ib_commission_currency = attribute "ibCommissionCurrency" "USD" attrs;
    net_cash = number "netCash" attrs;
    close_price = number "closePrice" attrs;
    fifo_pnl_realized = number "fifoPnlRealized" attrs;
    asset_category = attribute "assetCategory" "STK" attrs;
  }

  abbrev pub position_of : Object String → FlexPosition Num
  position_of attrs = record {
    symbol = attribute "symbol" "" attrs;
    position = number "position" attrs;
    mark_price = number "markPrice" attrs;
    position_value = number "positionValue" attrs;
    open_price = number "openPrice" attrs;
    cost_basis_price = number "costBasisPrice" attrs;
    fifo_pnl_unrealized = number "fifoPnlUnrealized" attrs;
  }

  abbrev pub cash_of : Object String → FlexCashTransaction Num
  cash_of attrs = record {
    symbol = attribute "symbol" "" attrs;
    date = first_attribute ("dateTime" ∷ "reportDate" ∷ []) "" attrs;
    type_name = attribute "type" "" attrs;
    amount = number "amount" attrs;
    currency = attribute "currency" "USD" attrs;
    description = attribute "description" "" attrs;
  }

  abbrev pub first_number : List String → Object String → Num
  first_number keys attrs = parse_float (first_attribute keys "0" attrs)

  abbrev pub summary_of : Object String → FlexAccountSummary Num
  summary_of attrs = record {
    date = first_attribute ("reportDate" ∷ "toDate" ∷ []) "" attrs;
    cash = number "cash" attrs;
    stock_value = first_number ("stock" ∷ "stockMarketValue" ∷ []) attrs;
    option_value = first_number ("options" ∷ "optionMarketValue" ∷ []) attrs;
    commodity_value =
        first_number ("commodities" ∷ "commodityOptions" ∷ "commodityMarketValue" ∷ []) attrs;
    net_liquidation_value =
        first_number
          ("total" ∷ "netLiquidation" ∷ "netLiquidationValue" ∷ "equityWithLoanValue" ∷ "equity"
            ∷ [])
          attrs;
    unrealized_pnl = first_number ("forexCfdUnrealizedPl" ∷ "unrealizedPnL" ∷ []) attrs;
    realized_pnl = number "realizedPnL" attrs;
  }

  module _ (client : Client) where
    unfoldable pub parse_trades : String → Result (List (FlexTrade Num))
    parse_trades xml =
        parsed (λ s. entries trade_of s.trades) "Trade parsing failed" (client.parse_string xml)

    unfoldable pub parse_positions : String → Result (List (FlexPosition Num))
    parse_positions xml =
        parsed (λ s. entries position_of s.open_positions) "Position parsing failed"
          (client.parse_string xml)

    unfoldable pub parse_cash_transactions : String → Result (List (FlexCashTransaction Num))
    parse_cash_transactions xml =
        parsed (λ s. entries cash_of s.cash_transactions) "Cash transaction parsing failed"
          (client.parse_string xml)

    unfoldable pub parse_account_summary : String → Result (List (FlexAccountSummary Num))
    parse_account_summary xml =
        parsed
          (λ s.
            entries summary_of
              (list_or (list_or s.equity_by_date s.account_information) s.equity_in_base))
          "Account summary parsing failed" (client.parse_string xml)
