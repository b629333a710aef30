-- ===== src/Ccxt/Trades.antt =====
-- src/connectors/CcxtExchangeConnector.ts, `getTrades` and `getCurrentPositions`.
use zero_knowledge_aggregato.Base.{
  ℕ, String, Bool, ◌&&◌, Option, none, some, List, [], ◌∷◌, map, keep, leb, if◌then◌else◌, pure,
  ◌>>=◌,
}
use zero_knowledge_aggregato.Aggregator.Data.{Numbers, get_filtered_market_types}
use zero_knowledge_aggregato.Aggregator.Breakdown.{or_nought}
use zero_knowledge_aggregato.Ccxt.Data.{CcxtTrade, CcxtPosition, PositionData, TradeData, Exchange}
use zero_knowledge_aggregato.Ccxt.{
  on_net, set_default_type, text_or, or_zero, with_error_handling, Job, detect_market_types,
  get_active_symbols, fetch_trades, is_positive,
}

module _ (lower : String → String) (pair_of : String → String) (numbers : Numbers)
    (exchange : Exchange (numbers.Num)) (exchange_name : String) where
  open numbers use {Num, nought, plus, positive, truthy}
  open exchange use {Net}

  abbrev pub fee_cost : Option (Option Num × String) → Num
  fee_cost none = nought
  fee_cost (some (cost, currency)) = or_nought numbers cost

  abbrev pub fee_currency : Option (Option Num × String) → String
  fee_currency none = "USDT"
  fee_currency (some (cost, currency)) = text_or "USDT" currency

  abbrev pub trade_data_of : CcxtTrade Num → TradeData Num
  trade_data_of t = record {
    trade_id = text_or (exchange.show_time t.timestamp) t.id;
    symbol = t.symbol;
    side = t.side;
    quantity = or_nought numbers t.amount;
    price = or_nought numbers t.price;
    fee = fee_cost t.fee;
    fee_currency = fee_currency t.fee;
    timestamp = or_zero t.timestamp;
    order_id = t.order;
    realized_pnl = or_nought numbers t.realized_pnl;
  }

  abbrev pub is_in_date_range : ℕ → ℕ → ℕ → Bool
  is_in_date_range date start_date end_date = leb start_date date && leb date end_date

  -- The trades of a market, with the option set to it for their calls.
  abbrev pub fetch_market :
      ℕ
      → String
      → List (CcxtTrade Num)
      → Job lower pair_of numbers exchange exchange_name (List (CcxtTrade Num))
  fetch_market since market all s =
      (set_default_type market >>= λ u.
      get_active_symbols lower pair_of numbers exchange exchange_name market (some since)
      >>= λ symbols.
          fetch_trades lower pair_of numbers exchange exchange_name since symbols all >>= λ more.
          set_default_type s.default_type >>= λ v. pure more)
        s

  abbrev pub fetch_markets :
      ℕ
      → List String
      → List (CcxtTrade Num)
      → Job lower pair_of numbers exchange exchange_name (List (CcxtTrade Num))
  fetch_markets since [] all = pure all
  fetch_markets since (market ∷ markets) all =
      fetch_market since market all >>= λ more. fetch_markets since markets more

  unfoldable pub get_trades :
      ℕ → ℕ → Job lower pair_of numbers exchange exchange_name (List (TradeData Num))
  get_trades start_date end_date =
      with_error_handling lower pair_of numbers exchange exchange_name "getTrades" (do
        types ← detect_market_types lower pair_of numbers exchange exchange_name
        trades ← fetch_markets start_date (get_filtered_market_types lower exchange_name types) []
        pure (
            map trade_data_of (
              keep
                (λ (t : CcxtTrade Num). is_in_date_range (or_zero t.timestamp) start_date end_date)
                trades)))

  -- `abs` is `Math.abs`, and `one` the number 1.
  module _ (abs : Num → Num) (one : Num) where
    abbrev pub or_one : Option Num → Num
    or_one none = one
    or_one (some x) = if truthy x then x else one

    abbrev pub position_data_of : CcxtPosition Num → PositionData Num
    position_data_of p = record {
      symbol = p.symbol;
      side = p.side;
      size = abs (or_nought numbers p.contracts);
      entry_price = or_nought numbers p.entry_price;
      mark_price = or_nought numbers p.mark_price;
      unrealized_pnl = or_nought numbers p.unrealized_pnl;
      realized_pnl = nought;
      leverage = or_one p.leverage;
      liquidation_price = p.liquidation_price;
      margin_type = p.margin_mode;
    }

    unfoldable pub get_current_positions :
        Job lower pair_of numbers exchange exchange_name (List (PositionData Num))
    get_current_positions =
        with_error_handling lower pair_of numbers exchange exchange_name "getCurrentPositions" (do
          positions ← on_net exchange.fetch_positions
          pure (
              map position_data_of (
                keep
                  (λ (p : CcxtPosition Num).
                    is_positive lower pair_of numbers exchange exchange_name p.contracts)
                  positions)))
