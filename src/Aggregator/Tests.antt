-- ===== src/Aggregator/Tests.antt =====
-- Runs of the aggregator on amounts that are natural numbers, and its theorems at concrete inputs.
use zero_knowledge_aggregato.Base.{
  ℕ, ◌+◌, ◌-◌, ◌*◌, ◌≡◌, ◌≢◌, refl, String, Option, none, some, List, [], ◌∷◌, if◌then◌else◌, find,
  length, ltb, str_eq, eq_iff, ap, arith,
}
use zero_knowledge_aggregato.Prisma.ListTable.{list_table}
use zero_knowledge_aggregato.Aggregator.Data.{
  Numbers, Trade, no_market, symbol, get_filtered_market_types,
}
use zero_knowledge_aggregato.Aggregator.Symbols.{matches_market_type, is_spot, is_swap, is_option}
use zero_knowledge_aggregato.Aggregator.Breakdown.{build_market_breakdown}
use zero_knowledge_aggregato.Aggregator.Breakdown.Counting.{
  count_symbols, stated_trades, global_trades,
}
use zero_knowledge_aggregato.Aggregator.Rounding.{
  day_ms, hour_ms, round_to_interval, get_start_of_day_utc, truncate_to_hour,
}
use zero_knowledge_aggregato.Aggregator.Balances.{
  Answers, Balance, Balances, fetch_balances_by_market, fetch_trades_by_market,
  calculate_funding_fees, calculate_unrealized_pnl,
}
use zero_knowledge_aggregato.Aggregator.Snapshots.{
  SnapshotRow, SnapshotKey, same_key, row_key, figures,
}
use zero_knowledge_aggregato.Aggregator.Snapshots.Daily.{
  after_update, RowsUnique, update-find, update-twice,
}

abbrev naturals : Numbers
naturals = record {
  Num = ℕ;
  nought = 0;
  plus = λ a b. a + b;
  minus = λ a b. a - b;
  times = λ a b. a * b;
  truthy = λ a. ltb 0 a;
  positive = λ a. ltb 0 a;
}

abbrev trade : String → ℕ → Trade ℕ
trade name cost = record {
  id = name;
  timestamp = 0;
  symbol_name = symbol name;
  side = "buy";
  price = 2;
  amount = 3;
  cost = cost;
  fee_cost = some 1;
}

abbrev two_trades : List (Trade ℕ)
two_trades = trade "BTC/USDT" 5 ∷ trade "ETH/USDT:USDT" 0 ∷ []

abbrev balance_of : String → Option (Balance ℕ)
balance_of market =
    if str_eq market "spot"
    then some (record { equity = 100; available_margin = none })
    else if str_eq market "swap"
    then some (record { equity = 50; available_margin = some 20 })
    else none

-- A CCXT connector with a spot and a swap account, whose margin account cannot be read.
abbrev answers : Answers ℕ
answers = record {
  detect_market_types = some (some ("spot" ∷ "swap" ∷ "margin" ∷ []));
  balance_by_market = balance_of;
  earn_balance = some (some (record { equity = 7; available_margin = none }));
  balance_breakdown = none;
  balance = none;
  executed_orders = some (λ market since. if str_eq market "spot" then some two_trades else none);
  funding_fees = some (λ symbols since. some (3 ∷ []));
  current_positions = some (record { size = 1; pnl = 4 } ∷ record { size = 0; pnl = 9 } ∷ []);
}

abbrev same_text : String → String
same_text s = s

aggregator : Unit {0}
unfolding matches_market_type build_market_breakdown fetch_balances_by_market
    get_filtered_market_types fetch_trades_by_market calculate_funding_fees calculate_unrealized_pnl
    get_start_of_day_utc truncate_to_hour round_to_interval
aggregator = tt

abbrev read_balances : Balances naturals
read_balances = record {
  by_market =
      ("spot", record no_market { total_equity_usd = some 100; unrealized_pnl = some 0 })
      ∷ ("swap", record no_market { total_equity_usd = some 50; unrealized_pnl = some 0 })
      ∷ ("earn", record no_market { total_equity_usd = some 7; unrealized_pnl = some 0 })
      ∷ [];
  global_equity = 157;
  global_margin = 20;
  filtered_types = "spot" ∷ "swap" ∷ "margin" ∷ [];
}

balances_read : fetch_balances_by_market naturals same_text "kraken" answers ≡ some read_balances
unfolding aggregator
balances_read = refl

-- Two trades count four times: for "earn" both, and each for its own market.
four_trades :
    stated_trades "global" (build_market_breakdown naturals [] (("spot", two_trades) ∷ []) 0 157 20)
    ≡ some 4
unfolding aggregator
four_trades = refl

global_trades_example :
    stated_trades "global" (build_market_breakdown naturals [] (("spot", two_trades) ∷ []) 0 157 20)
    ≡ some (
        length two_trades
        + count_symbols is_spot two_trades
        + count_symbols is_swap two_trades
        + count_symbols is_option two_trades)
global_trades_example = global_trades naturals [] (("spot", two_trades) ∷ []) 0 157 20

-- 2025-01-15, 14:23:45 UTC.
abbrev afternoon : ℕ
afternoon = 20103 * day_ms + 14 * hour_ms + 23 * 60000 + 45000

filtered :
    get_filtered_market_types same_text "kraken" ("spot" ∷ "swap" ∷ "margin" ∷ [])
    ≡ "spot" ∷ "swap" ∷ "margin" ∷ []
unfolding aggregator
filtered = refl

abbrev key_at : String → SnapshotKey
key_at user = (user, afternoon, "kraken")

update-find_example :
    let table = list_table (SnapshotRow ℕ) in
    let after =
      after_update naturals table same_text afternoon "ann" "kraken" afternoon answers [] in
    (r : SnapshotRow ℕ) × (find (λ q. same_key (row_key q) (key_at "ann")) after ≡ some r)
    × (r.snapshot ≡ figures naturals table "ann" "kraken" afternoon answers read_balances)
    × (r.updated_at ≡ afternoon)
    × (r.created_at ≡ afternoon)
    × RowsUnique naturals table after
update-find_example =
    update-find naturals (list_table (SnapshotRow ℕ)) same_text afternoon "ann" "kraken" afternoon
      answers [] read_balances balances_read tt

bob_is_other : ◌≢◌ {A = SnapshotKey} (key_at "bob") (key_at "ann")
bob_is_other e = ground (arith, eq_iff "bob" "ann", ap (λ p. p.0) e)

update-twice_example :
    let table = list_table (SnapshotRow ℕ) in
    let time = round_to_interval 0 1440 afternoon in
    let time' = round_to_interval 0 1440 (afternoon + 1000) in
    let d1 = after_update naturals table same_text afternoon "ann" "kraken" time answers [] in
    let d2 =
      after_update naturals table same_text (afternoon + 1000) "ann" "kraken" time' answers d1 in
    (r : SnapshotRow ℕ) × (find (λ q. same_key (row_key q) ("ann", time, "kraken")) d2 ≡ some r)
    × (r.snapshot ≡ figures naturals table "ann" "kraken" time answers read_balances)
    × (length d2 ≡ length d1)
update-twice_example =
    update-twice naturals (list_table (SnapshotRow ℕ)) same_text "ann" "kraken" 0 1440 afternoon
      (afternoon + 1000) answers answers [] read_balances read_balances balances_read balances_read
      tt (omega arith) (omega arith)
