-- ===== src/Ccxt/Tests.antt =====
-- An exchange whose orders, positions and balances name the same markets.
use zero_knowledge_aggregato.Base.{
  ℕ, ◌+◌, ◌*◌, ◌-◌, ◌≡◌, refl, String, true, false, not, none, some, List, [], ◌∷◌, ok, err,
  message, ◌==◌, Result, length, sym, subst, ok-injective, All, ◌||◌,
}
use zero_knowledge_aggregato.Factory.{includes}
use zero_knowledge_aggregato.Aggregator.Data.{Numbers, get_filtered_market_types}
use zero_knowledge_aggregato.Connections.Unique.{NoRepeats}
use zero_knowledge_aggregato.Ccxt.Data.{Exchange, Connector, Fetched, CcxtTrade, TradeData}
use zero_knowledge_aggregato.Ccxt.Earnings.{get_earn_balance}
use zero_knowledge_aggregato.Ccxt.Trades.{get_trades}
use zero_knowledge_aggregato.Ccxt.{get_active_symbols, detect_market_types, get_balance}
use zero_knowledge_aggregato.Ccxt.Restoring.{Keeps, IsMarket, get_trades-default_type}
use zero_knowledge_aggregato.Ccxt.Discovery.{found_by, get_active_symbols-NoRepeats}

abbrev amounts : Numbers
amounts = record {
  Num = ℕ;
  nought = 0;
  plus = λ a b. a + b;
  minus = λ a b. a - b;
  times = λ a b. a * b;
  truthy = λ a. not (a == 0);
  positive = λ a. not (a == 0);
}

abbrev fetched : Fetched ℕ
fetched = record {
  entries =
      ("info", record { free = none; total = none })
      ∷ ("BTC", record { free = some 1; total = some 2 })
      ∷ ("USDT", record { free = some 30; total = some 50 })
      ∷ [];
  total = some (("BTC", 2) ∷ ("USDT", 50) ∷ []);
}

abbrev bought : CcxtTrade ℕ
bought = record {
  id = "";
  timestamp = some 5;
  symbol = "BTC/USDT";
  side = "buy";
  price = some 100;
  amount = some 2;
  cost = none;
  fee = none;
  order = "";
  realized_pnl = none;
}

abbrev exchange : Exchange ℕ
exchange = record {
  Net = Unit {0};
  has_my_trades = true;
  has_closed_orders = true;
  has_positions = true;
  has_funding_history = false;
  load_markets = λ s. (
    ok (
        (
          "BTC/USDT",
          record { spot = true; swap = true; future = false; option = false; margin = true },
        )
        ∷ []),
    s,
  );
  fetch_balance = λ t kind s. (ok fetched, s);
  fetch_my_trades = λ t symbol since s. (ok (bought ∷ []), s);
  fetch_closed_orders = λ t since s. (ok ("BTC/USDT" ∷ "" ∷ "ETH/USDT" ∷ "ETH/USDT" ∷ []), s);
  fetch_positions = λ t s. (err (message "not available"), s);
  fetch_funding_history = λ symbol since s. (ok [], s);
  simple_earn_positions = λ s. (ok none, s);
  show_time = λ t. "5";
}

abbrev at_start : Connector (Unit {0})
at_start = record { default_type = "future"; net = tt }

abbrev pair : String → String
pair asset = "BTC/USDT"

abbrev same : String → String
same s = s

market_types :
    (detect_market_types same pair amounts exchange "kraken" at_start).0
    ≡ ok ("spot" ∷ "swap" ∷ "margin" ∷ [])
unfolding detect_market_types
market_types = refl

balance :
    (get_balance same pair amounts exchange "kraken" at_start).0
    ≡ ok (record { balance = 30; equity = 50; unrealized_pnl = 20; currency = "USDT" })
unfolding get_balance
balance = refl

earn :
    (get_earn_balance same pair amounts exchange "kraken" at_start).0
    ≡ ok (record { equity = 50; available_margin = some 0 })
unfolding get_earn_balance
earn = refl

spot_symbols :
    (get_active_symbols same pair amounts exchange "kraken" "spot" none at_start).0
    ≡ ok ("BTC/USDT" ∷ "ETH/USDT" ∷ [])
unfolding get_active_symbols
spot_symbols = refl

get_active_symbols-NoRepeats_example :
    (set : List String) × ((get_active_symbols same pair amounts exchange "kraken" "spot" none
        at_start).0
      ≡ ok set)
    × NoRepeats set
    × (includes set "ETH/USDT" ≡ (
        found_by true (ok ("BTC/USDT" ∷ "" ∷ "ETH/USDT" ∷ "ETH/USDT" ∷ [])) "ETH/USDT"
        || found_by false (err (message "not available")) "ETH/USDT"
        || found_by true (ok ("BTC/USDT" ∷ [])) "ETH/USDT"))
get_active_symbols-NoRepeats_example =
    get_active_symbols-NoRepeats same pair amounts exchange "kraken" "spot" none at_start "ETH/USDT"

abbrev count_trades : Result (List (TradeData ℕ)) → ℕ
count_trades (ok ts) = length ts
count_trades (err e) = 0

-- The trades of two symbols on each of three markets.
trades : count_trades (get_trades same pair amounts exchange "kraken" 0 5 at_start).0 ≡ 6
unfolding get_trades detect_market_types get_active_symbols get_filtered_market_types
trades = refl

-- An exchange that logs the default type of each call.
abbrev logging : Exchange ℕ
logging = record {
  Net = List String;
  has_my_trades = true;
  has_closed_orders = true;
  has_positions = true;
  has_funding_history = false;
  load_markets = λ log. (
    ok (
        (
          "BTC/USDT",
          record { spot = true; swap = true; future = false; option = false; margin = false },
        )
        ∷ []),
    log,
  );
  fetch_balance = λ t kind log. (ok fetched, t ∷ log);
  fetch_my_trades = λ t symbol since log. (ok (bought ∷ []), t ∷ log);
  fetch_closed_orders = λ t since log. (ok ("BTC/USDT" ∷ []), t ∷ log);
  fetch_positions = λ t log. (err (message "not available"), t ∷ log);
  fetch_funding_history = λ symbol since log. (ok [], log);
  simple_earn_positions = λ log. (ok none, log);
  show_time = λ t. "5";
}

abbrev of_future : Connector (List String)
of_future = record { default_type = "future"; net = [] }

abbrev markets : List String
markets = get_filtered_market_types same "kraken" ("spot" ∷ "swap" ∷ [])

abbrev LogsMarkets : List String → Type 0
LogsMarkets log = All (λ t. includes markets t ≡ true) log

logging-Keeps :
    (t : String)
    → IsMarket same pair amounts logging "kraken" LogsMarkets (λ n p. p) of_future t
    → Keeps logging LogsMarkets t
unfolding detect_market_types
logging-Keeps t (types, e, h) =
    let same_types : types ≡ "spot" ∷ "swap" ∷ [] = sym (ok-injective e) in
    let here : includes markets t ≡ true =
      subst (λ l. includes (get_filtered_market_types same "kraken" l) t ≡ true) same_types h in
    record {
      orders = λ since n p. (here, p);
      positions = λ n p. (here, p);
      balance = λ kind n p. (here, p);
      trades = λ symbol since n p. (here, p);
    }

get_trades-default_type_example :
    let after = (get_trades same pair amounts logging "kraken" 0 5 of_future).1 in
    (after.default_type ≡ "future") × LogsMarkets after.net
get_trades-default_type_example =
    get_trades-default_type same pair amounts logging "kraken" LogsMarkets (λ n p. p) 0 5 of_future
      logging-Keeps tt
