-- ===== src/Ccxt.antt =====
-- src/connectors/CcxtExchangeConnector.ts: balances, symbols and orders of an exchange over the CCXT
-- library, which is an interface: each call reads the exchange's option `defaultType` and may throw.
-- The logger's calls are left out.
pub mod Data
pub mod Discovery
pub mod Earnings
pub mod Restoring
pub mod Trades
pub mod Tests
use zero_knowledge_aggregato.Base.{
  ℕ, String, Bool, true, false, ◌&&◌, ◌||◌, not, Option, none, some, List, [], ◌∷◌, ◌++◌, map, keep,
  str_eq, if◌then◌else◌, Result, ok, err, Error, because, Act, pure, throw, ◌>>=◌, ◌>>◌, catch,
}
use zero_knowledge_aggregato.Aggregator.Data.{Numbers, Object, lookup, is_unified_account_exchange}
use zero_knowledge_aggregato.Aggregator.Breakdown.{or_nought}
use zero_knowledge_aggregato.Aggregator.Balances.{Balance}
use zero_knowledge_aggregato.Factory.{includes}
use zero_knowledge_aggregato.Ibkr.Connector.{BalanceData}
use zero_knowledge_aggregato.Ccxt.Data.{
  Holding, Fetched, MarketFlags, CcxtTrade, CcxtPosition, PositionData, TradeData, ExecutedOrder,
  FundingFee, Exchange, Connector,
}

module _ {Net A : Type 0} where
  abbrev pub on_net : (String → Act Net A) → Act (Connector Net) A
  on_net m s = ((m s.default_type s.net).0, record s { net = (m s.default_type s.net).1 })

abbrev pub set_default_type : {Net : Type 0} → String → Act (Connector Net) (Unit {0})
set_default_type t s = (ok tt, record s { default_type = t })

-- A Set of texts in insertion order.
abbrev pub add_once : String → List String → List String
add_once s set = if includes set s then set else set ++ (s ∷ [])

abbrev pub add_all : List String → List String → List String
add_all [] set = set
add_all (s ∷ ss) set = add_all ss (if str_eq s "" then set else add_once s set)

abbrev pub add_if : Bool → String → List String → List String
add_if b s set = if b then add_once s set else set

abbrev pub types_of : Object MarketFlags → List String → List String
types_of [] set = set
types_of ((id, m) ∷ rest) set = types_of rest (
    add_if m.margin "margin" (
      add_if m.option "options"
        (add_if m.future "future" (add_if m.swap "swap" (add_if m.spot "spot" set)))))

abbrev pub skipped_entries : List String
skipped_entries = "info" ∷ "free" ∷ "used" ∷ "total" ∷ "debt" ∷ "timestamp" ∷ "datetime" ∷ []

abbrev pub stablecoins : List String
stablecoins = "USDT" ∷ "USDC" ∷ "USD" ∷ "BUSD" ∷ "DAI" ∷ []

abbrev pub text_or : String → String → String
text_or default s = if str_eq s "" then default else s

abbrev pub or_zero : Option ℕ → ℕ
or_zero none = 0
or_zero (some n) = n

abbrev pub first_of : {A : Type 0} → Option A → Option A → Option A
first_of none b = b
first_of (some a) b = some a

abbrev pub is_there : {A : Type 0} → Option A → Bool
is_there none = false
is_there (some a) = true

-- `pair_of` makes the name of an asset's market against USDT.
module _ (lower : String → String) (pair_of : String → String) (numbers : Numbers)
    (exchange : Exchange (numbers.Num)) (exchange_name : String) where
  open numbers use {Num, nought, plus, minus, times, truthy, positive}
  open exchange use {Net}

  abbrev pub Job : Type 0 → Type 0
  Job = Act (Connector Net)

  abbrev pub with_error_handling : {A : Type 0} → String → Job A → Job A
  with_error_handling context job = catch job (λ e. throw (because context e))

  abbrev pub no_balance : Balance Num
  no_balance = record { equity = nought; available_margin = some nought }

  abbrev pub balance_of : Option (Holding Num) → Balance Num
  balance_of none = no_balance
  balance_of (some h) = record {
    equity = or_nought numbers h.total;
    available_margin = some (or_nought numbers h.free);
  }

  -- `balance['USDT'] || balance['USD']`
  abbrev pub dollars : Fetched Num → Option (Holding Num)
  dollars b = first_of (lookup "USDT" b.entries) (lookup "USD" b.entries)

  -- The object of totals, which stands third, has no figures of its own: it counts as nothing.
  abbrev pub create_balance_data : Num → Num → BalanceData Num
  create_balance_data balance equity = record {
    balance = balance;
    equity = equity;
    unrealized_pnl = minus equity balance;
    currency = "USDT";
  }

  abbrev pub balance_data_of : Option (Holding Num) → BalanceData Num
  balance_data_of none = create_balance_data nought nought
  balance_data_of (some h) =
      create_balance_data (or_nought numbers h.free) (or_nought numbers h.total)

  unfoldable pub get_balance : Job (BalanceData Num)
  get_balance = with_error_handling "getBalance" (do
    balance ← on_net (λ t. exchange.fetch_balance t none)
    pure (balance_data_of (dollars balance)))

  unfoldable pub test_connection : Job Bool
  test_connection =
      catch (on_net (λ t. exchange.fetch_balance t none) >>= λ b. pure true) (λ e. pure false)

  unfoldable pub detect_market_types : Job (List String)
  detect_market_types =
      with_error_handling "detectMarketTypes"
        (do markets ← on_net (λ t. exchange.load_markets); pure (types_of markets []))

  abbrev pub is_positive : Option Num → Bool
  is_positive none = false
  is_positive (some n) = positive n

  -- All currencies are added as they are.
  abbrev pub add_holdings : (String → Bool) → Object (Holding Num) → Num → Num
  add_holdings counted [] sum = sum
  add_holdings counted ((c, h) ∷ rest) sum = add_holdings counted rest (
      if not (includes skipped_entries c) && is_positive h.total && counted c
      then plus sum (or_nought numbers h.total)
      else sum)

  abbrev pub dollars_or_usdc : Fetched Num → Option (Holding Num)
  dollars_or_usdc b = first_of (dollars b) (lookup "USDC" b.entries)

  abbrev pub fetch_dollars : Job (Balance Num)
  fetch_dollars = do
    balance ← on_net (λ t. exchange.fetch_balance t none)
    pure (balance_of (dollars_or_usdc balance))

  unfoldable pub get_balance_for_unified_account : String → Job (Balance Num)
  get_balance_for_unified_account market =
      if str_eq market "spot"
      then (set_default_type "spot" >>= λ u.
          on_net (λ t. exchange.fetch_balance t (some "spot")) >>= λ b. pure (record {
            equity = add_holdings (λ c. true) b.entries nought;
            available_margin = some nought;
          }))
      else if str_eq market "swap" || str_eq market "future"
      then (set_default_type "swap" >>= λ u. fetch_dollars)
      else pure no_balance

  unfoldable pub get_balance_by_market : String → Job (Balance Num)
  get_balance_by_market market = with_error_handling "getBalanceByMarket" (
      if is_unified_account_exchange lower exchange_name
      then get_balance_for_unified_account market
      else (set_default_type market >>= λ u. fetch_dollars))

  -- What is thrown leaves the set as it is.
  abbrev pub discover : Bool → Job (List String) → List String → Job (List String)
  discover false job set = pure set
  discover true job set = catch (job >>= λ found. pure (add_all found set)) (λ e. pure set)

  abbrev pub is_held : String × Num → Bool
  is_held (asset, n) = positive n && not (includes ("USDT" ∷ "USD" ∷ "USDC" ∷ []) asset)

  abbrev pub pairs_of : Object MarketFlags → Object Num → List String
  pairs_of markets [] = []
  pairs_of markets ((asset, n) ∷ rest) =
      let more = pairs_of markets rest in
      if is_held (asset, n) && is_there (lookup (pair_of asset) markets)
      then pair_of asset ∷ more
      else more

  abbrev pub totals_of : Option (Object Num) → Object Num
  totals_of none = []
  totals_of (some o) = o

  abbrev pub held_pairs : Job (List String)
  held_pairs = on_net (λ t. exchange.fetch_balance t none) >>= λ b.
      on_net (λ t. exchange.load_markets) >>= λ markets. pure (pairs_of markets (totals_of b.total))

  abbrev pub position_symbols : Job (List String)
  position_symbols =
      on_net exchange.fetch_positions >>= λ ps. pure (map (λ (p : CcxtPosition Num). p.symbol) ps)

  unfoldable pub get_active_symbols : String → Option ℕ → Job (List String)
  get_active_symbols market since =
      discover exchange.has_closed_orders (on_net (λ t. exchange.fetch_closed_orders t since)) []
      >>= λ a.
          discover ((str_eq market "swap" || str_eq market "future") && exchange.has_positions)
            position_symbols a
          >>= λ b. discover (str_eq market "spot") held_pairs b

  abbrev pub order_fee : Option (Option Num × String) → Option (Num × String)
  order_fee none = none
  order_fee (some (cost, currency)) = some (or_nought numbers cost, text_or "USDT" currency)

  abbrev pub cost_or : Num → Option Num → Num
  cost_or product none = product
  cost_or product (some c) = if truthy c then c else product

  -- The cost, or the amount times the price where none is set.
  abbrev pub cost_of : CcxtTrade Num → Num
  cost_of t = cost_or (times (or_nought numbers t.amount) (or_nought numbers t.price)) t.cost

  abbrev pub order_of : CcxtTrade Num → ExecutedOrder Num
  order_of t = record {
    id = text_or (exchange.show_time t.timestamp) t.id;
    timestamp = or_zero t.timestamp;
    symbol = t.symbol;
    side = t.side;
    price = or_nought numbers t.price;
    amount = or_nought numbers t.amount;
    cost = cost_of t;
    fee = order_fee t.fee;
  }

  abbrev pub map_trades_to_executed_orders : List (CcxtTrade Num) → List (ExecutedOrder Num)
  map_trades_to_executed_orders = map order_of

  -- A symbol whose call throws has no trades.
  abbrev pub fetch_trades : ℕ → List String → List (CcxtTrade Num) → Job (List (CcxtTrade Num))
  fetch_trades since [] all = pure all
  fetch_trades since (s ∷ ss) all =
      catch (on_net (λ t. exchange.fetch_my_trades t s since)) (λ e. pure []) >>= λ own.
      fetch_trades since ss (all ++ own)

  unfoldable pub get_executed_orders : String → ℕ → Job (List (ExecutedOrder Num))
  get_executed_orders market since = with_error_handling "getExecutedOrders" (
      set_default_type market >>= λ u.
      if exchange.has_my_trades
      then (get_active_symbols market (some since) >>= λ symbols.
          fetch_trades since symbols [] >>= λ trades. pure (map_trades_to_executed_orders trades))
      else pure [])
