-- ===== src/Aggregator/Breakdown.antt =====
-- src/services/equity-snapshot-aggregator.ts, `buildMarketBreakdown`: the figures of a snapshot by
-- market and in total.
pub mod Counting
use zero_knowledge_aggregato.Base.{
  ℕ, ◌+◌, String, Bool, true, false, ◌&&◌, Option, none, some, List, [], ◌∷◌, ◌++◌, keep, length,
  str_eq, if◌then◌else◌,
}
use zero_knowledge_aggregato.Aggregator.Data.{
  Numbers, Trade, Market, no_market, Object, lookup, set_key,
}
use zero_knowledge_aggregato.Aggregator.Symbols.{matches_market_type}

abbrev pub standard_markets : List String
standard_markets = "spot" ∷ "swap" ∷ "earn" ∷ "options" ∷ []

abbrev pub all_trades : {Num : Type 0} → Object (List (Trade Num)) → List (Trade Num)
all_trades [] = []
all_trades ((market, trades) ∷ rest) = trades ++ all_trades rest

abbrev pub trades_of : {Num : Type 0} → String → List (Trade Num) → List (Trade Num)
trades_of market = keep (λ t. matches_market_type t.symbol_name market)

module _ (numbers : Numbers) where
  open numbers use {Num, nought, plus, times, truthy}

  -- `x || 0`, and `x || y`.
  abbrev pub or_nought : Option Num → Num
  or_nought none = nought
  or_nought (some x) = if truthy x then x else nought

  abbrev pub or_else : Option Num → Option Num → Option Num
  or_else none y = y
  or_else (some x) y = if truthy x then some x else y

  -- The cost, or price times amount where no cost is set.
  abbrev pub trade_cost : Trade Num → Num
  trade_cost t =
      if truthy t.cost
      then t.cost
      else if truthy t.price && truthy t.amount
      then times t.price t.amount
      else nought

  abbrev pub volume_from : Num → List (Trade Num) → Num
  volume_from sum [] = sum
  volume_from sum (t ∷ ts) = volume_from (plus sum (trade_cost t)) ts

  abbrev pub fees_from : Num → List (Trade Num) → Num
  fees_from sum [] = sum
  fees_from sum (t ∷ ts) = fees_from (plus sum (or_nought t.fee_cost)) ts

  -- `balance?.field`
  abbrev pub field : (Market Num → Option Num) → Option (Market Num) → Option Num
  field f none = none
  field f (some m) = f m

  abbrev pub market_data : String → Option (Market Num) → List (Trade Num) → Num → Market Num
  market_data market balance trades funding = record {
    total_equity_usd = some (or_nought (field (λ m. m.total_equity_usd) balance));
    unrealized_pnl = some (or_nought (field (λ m. m.unrealized_pnl) balance));
    realized_pnl = field (λ m. m.realized_pnl) balance;
    available_balance = field (λ m. m.available_balance) balance;
    used_margin = field (λ m. m.used_margin) balance;
    positions = field (λ m. m.positions) balance;
    volume = some (volume_from nought trades);
    trades = some (length trades);
    trading_fees = some (fees_from nought trades);
    funding_fees = some (if str_eq market "swap" then funding else nought);
    equity = some (
        or_nought
          (or_else (field (λ m. m.total_equity_usd) balance) (field (λ m. m.equity) balance)));
    available_margin = some (
        or_nought (
          or_else (field (λ m. m.available_balance) balance)
            (field (λ m. m.available_margin) balance)));
  }

  -- The variables of the loop over the standard markets.
  pub record Totals : Type 0 where
    pub markets : Object (Market Num)
    pub total_volume : Num
    pub total_trades : ℕ
    pub total_trading_fees : Num

  abbrev pub add_market : Object (Market Num) → List (Trade Num) → Num → String → Totals → Totals
  add_market balances trades funding market acc =
      let own = trades_of market trades in
      record {
        markets =
            set_key market (market_data market (lookup market balances) own funding) acc.markets;
        total_volume = plus acc.total_volume (volume_from nought own);
        total_trades = acc.total_trades + length own;
        total_trading_fees = plus acc.total_trading_fees (fees_from nought own);
      }

  abbrev pub add_markets :
      Object (Market Num) → List (Trade Num) → Num → List String → Totals → Totals
  add_markets balances trades funding [] acc = acc
  add_markets balances trades funding (m ∷ ms) acc =
      add_markets balances trades funding ms (add_market balances trades funding m acc)

  abbrev pub no_totals : Totals
  no_totals = record {
    markets = [];
    total_volume = nought;
    total_trades = 0;
    total_trading_fees = nought;
  }

  abbrev pub global_market : Totals → Num → Num → Num → Market Num
  global_market t funding equity margin = record no_market {
    total_equity_usd = some equity;
    available_balance = some margin;
    unrealized_pnl = some nought;
    equity = some equity;
    available_margin = some margin;
    volume = some t.total_volume;
    trades = some t.total_trades;
    trading_fees = some t.total_trading_fees;
    funding_fees = some funding;
  }

  unfoldable pub build_market_breakdown :
      Object (Market Num) → Object (List (Trade Num)) → Num → Num → Num → Object (Market Num)
  build_market_breakdown balances trades_by_market funding equity margin =
      let t =
        add_markets balances (all_trades trades_by_market) funding standard_markets no_totals in
      set_key "global" (global_market t funding equity margin) t.markets
