-- ===== src/Aggregator/Balances.antt =====
-- src/services/equity-snapshot-aggregator.ts: what the aggregator asks of a connector, the balances,
-- the trades, the funding fees and the unrealized profit of one exchange.
pub mod Equity
use zero_knowledge_aggregato.Base.{
  ℕ, String, Bool, true, false, ◌&&◌, not, Option, none, some, List, [], ◌∷◌, ◌++◌, map, str_eq,
  if◌then◌else◌,
}
use zero_knowledge_aggregato.Aggregator.Data.{
  Numbers, Symbol, Trade, Market, no_market, Object, lookup, set_key, get_filtered_market_types,
}
use zero_knowledge_aggregato.Aggregator.Breakdown.{or_nought, or_else, field}
use zero_knowledge_aggregato.Aggregator.Symbols.{same_symbol}

-- An answer of an exchange: `none` where the call is rejected.
abbrev pub Reply : Type 0 → Type 0
Reply A = Option A

pub record Balance (Num : Type 0) : Type 0 where
  pub equity : Num
  pub available_margin : Option Num

-- `size` is zero where it is missing, `pnl` where `Number` gives NaN or no value.
pub record Position (Num : Type 0) : Type 0 where
  pub size : Num
  pub pnl : Num

-- The answers of a connector during one snapshot. A method that a connector may lack is an Option:
-- `detect_market_types` and `balance_by_market` are those of a CCXT connector.
pub record Answers (Num : Type 0) : Type 0 where
  pub detect_market_types : Option (Reply (List String))
  pub balance_by_market : String → Reply (Balance Num)
  pub earn_balance : Option (Reply (Balance Num))
  pub balance_breakdown : Option (Reply (Object (Market Num)))
  pub balance : Option (Reply (Num × Option Num))
  pub executed_orders : Option (String → ℕ → Reply (List (Trade Num)))
  pub funding_fees : Option (List Symbol → ℕ → Reply (List Num))
  pub current_positions : Reply (List (Position Num))

module _ (numbers : Numbers) where
  open numbers use {Num, nought, plus, times, truthy, positive}

  -- The variables of `fetchBalancesByMarket`.
  pub record Balances : Type 0 where
    pub by_market : Object (Market Num)
    pub global_equity : Num
    pub global_margin : Num
    pub filtered_types : List String

  abbrev pub no_balances : List String → Balances
  no_balances types = record {
    by_market = [];
    global_equity = nought;
    global_margin = nought;
    filtered_types = types;
  }

  abbrev pub flat_market : Num → Num → Market Num
  flat_market equity pnl = record no_market {
    total_equity_usd = some equity;
    unrealized_pnl = some pnl;
  }

  -- One fulfilled balance of a market; a rejected one is passed over.
  abbrev pub add_balance : String → Reply (Balance Num) → Balances → Balances
  add_balance market none acc = acc
  add_balance market (some b) acc =
      if positive b.equity
      then record acc {
        by_market = set_key market (flat_market b.equity nought) acc.by_market;
        global_equity = plus acc.global_equity b.equity;
        global_margin = plus acc.global_margin (or_nought numbers b.available_margin);
      }
      else acc

  abbrev pub add_balances : Answers Num → List String → Balances → Balances
  add_balances answers [] acc = acc
  add_balances answers (t ∷ ts) acc =
      add_balances answers ts (add_balance t (answers.balance_by_market t) acc)

  -- The balance in staking, which brings no margin.
  abbrev pub add_earn : Option (Reply (Balance Num)) → Balances → Balances
  add_earn none acc = acc
  add_earn (some none) acc = acc
  add_earn (some (some b)) acc =
      if positive b.equity
      then record acc {
        by_market = set_key "earn" (flat_market b.equity nought) acc.by_market;
        global_equity = plus acc.global_equity b.equity;
      }
      else acc

  -- `x ?? y`
  abbrev pub coalesce : Option Num → Option Num → Option Num
  coalesce none y = y
  coalesce (some x) y = some x

  -- The entries of a breakdown that state an equity, in the format of the snapshots.
  abbrev pub copy_markets : Object (Market Num) → Object (Market Num) → Object (Market Num)
  copy_markets [] acc = acc
  copy_markets ((market, m) ∷ rest) acc =
      copy_markets rest (elim (coalesce m.equity m.total_equity_usd) [
        | none ↦ acc
        | some e ↦
            set_key market
              (record no_market {
                total_equity_usd = some e;
                unrealized_pnl = m.unrealized_pnl;
                realized_pnl = m.realized_pnl;
                available_balance = or_else numbers m.available_margin m.available_balance;
                used_margin = m.used_margin;
                positions = m.positions;
              })
              acc
      ])

  abbrev pub keys_of : Object (Market Num) → List String
  keys_of [] = []
  keys_of ((k, m) ∷ rest) = k ∷ keys_of rest

  abbrev pub from_breakdown : Object (Market Num) → Balances
  from_breakdown breakdown =
      let markets = copy_markets breakdown [] in
      let total = lookup "global" breakdown in
      record {
        by_market = markets;
        global_equity = or_nought numbers (
            or_else numbers (field numbers (λ m. m.equity) total)
              (field numbers (λ m. m.total_equity_usd) total));
        global_margin = or_nought numbers (
            or_else numbers (field numbers (λ m. m.available_margin) total)
              (field numbers (λ m. m.available_balance) total));
        filtered_types = keys_of markets;
      }

  abbrev pub from_balance : Num × Option Num → Balances
  from_balance (equity, pnl) = record {
    by_market = ("global", flat_market equity (or_nought numbers pnl)) ∷ [];
    global_equity = equity;
    global_margin = nought;
    filtered_types = "global" ∷ [];
  }

  -- `none` where the exchange rejects a call whose failure is not caught.
  unfoldable pub fetch_balances_by_market :
      (String → String) → String → Answers Num → Option Balances
  fetch_balances_by_market lower exchange answers = elim answers.detect_market_types [
    | some none ↦ none
    | some (some types) ↦
        let filtered = get_filtered_market_types lower exchange types in
        some (add_earn answers.earn_balance (add_balances answers filtered (no_balances filtered)))
    | none ↦ elim answers.balance_breakdown [
      | some none ↦ none
      | some (some breakdown) ↦ some (from_breakdown breakdown)
      | none ↦ elim answers.balance [
        | some none ↦ none
        | some (some b) ↦ some (from_balance b)
        | none ↦ some (no_balances [])
      ]
    ]
  ]

  -- `Set.add`, in the order of insertion.
  abbrev pub add_symbol : Symbol → List Symbol → List Symbol
  add_symbol s [] = s ∷ []
  add_symbol s (r ∷ rs) = if same_symbol r s then r ∷ rs else r ∷ add_symbol s rs

  abbrev pub add_symbols : List (Trade Num) → List Symbol → List Symbol
  add_symbols [] symbols = symbols
  add_symbols (t ∷ ts) symbols = add_symbols ts (add_symbol t.symbol_name symbols)

  -- The variables of `fetchTradesByMarket`.
  pub record Trades : Type 0 where
    pub trades_by_market : Object (List (Trade Num))
    pub swap_symbols : List Symbol

  -- A rejected call leaves a market with no trades.
  abbrev pub add_trades : String → Reply (List (Trade Num)) → Trades → Trades
  add_trades market none acc = record acc {
    trades_by_market = set_key market [] acc.trades_by_market;
  }
  add_trades market (some ts) acc = record {
    trades_by_market = set_key market ts acc.trades_by_market;
    swap_symbols =
        if str_eq market "swap" then add_symbols ts acc.swap_symbols else acc.swap_symbols;
  }

  abbrev pub fetch_from : (String → Reply (List (Trade Num))) → List String → Trades → Trades
  fetch_from orders [] acc = acc
  fetch_from orders (m ∷ ms) acc = fetch_from orders ms (add_trades m (orders m) acc)

  unfoldable pub fetch_trades_by_market : ℕ → List String → Answers Num → Trades
  fetch_trades_by_market since types answers =
      let nothing : Trades = record { trades_by_market = []; swap_symbols = [] } in
      elim answers.detect_market_types [
        | none ↦ fetch_from (λ m. some []) types nothing
        | some r ↦ elim answers.executed_orders [
          | none ↦ fetch_from (λ m. some []) types nothing
          | some orders ↦ fetch_from (λ m. orders m since) types nothing
        ]
      ]

  abbrev pub sum_from : Num → List Num → Num
  sum_from total [] = total
  sum_from total (x ∷ xs) = sum_from (plus total x) xs

  unfoldable pub calculate_funding_fees : Answers Num → List Symbol → ℕ → Num
  calculate_funding_fees answers [] since = nought
  calculate_funding_fees answers (s ∷ ss) since = elim answers.funding_fees [
    | none ↦ nought
    | some fees ↦ elim (fees (s ∷ ss) since) [
      | none ↦ nought
      | some amounts ↦ sum_from nought amounts
    ]
  ]

  abbrev pub pnl_from : Num → List (Position Num) → Num
  pnl_from total [] = total
  pnl_from total (p ∷ ps) = pnl_from (if truthy p.size then plus total p.pnl else total) ps

  abbrev pub market_pnl_from : Num → Object (Market Num) → Num
  market_pnl_from total [] = total
  market_pnl_from total ((k, m) ∷ rest) =
      market_pnl_from (plus total (or_nought numbers m.unrealized_pnl)) rest

  -- Where the positions cannot be read, the sum over the markets.
  unfoldable pub calculate_unrealized_pnl : Answers Num → Object (Market Num) → Num
  calculate_unrealized_pnl answers markets = elim answers.current_positions [
    | none ↦ market_pnl_from nought markets
    | some positions ↦ pnl_from nought positions
  ]
