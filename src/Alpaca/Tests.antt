-- ===== src/Alpaca/Tests.antt =====
-- Runs of the Alpaca connector.
use zero_knowledge_aggregato.Base.{
  ℕ, ◌+◌, ◌*◌, ◌-◌, ◌≡◌, refl, String, true, not, Option, none, some, [], ◌∷◌, ok, err, message,
  ◌==◌, str_eq, if◌then◌else◌,
}
use zero_knowledge_aggregato.Aggregator.Data.{Numbers}
use zero_knowledge_aggregato.Alpaca.{
  AlpacaClient, get_balance, get_current_positions, get_positions, get_trades, get_trade_history,
  get_account_info, test_connection,
}

abbrev amounts : Numbers
amounts = record {
  Num = ℕ;
  nought = 0;
  plus = λ a b. a + b;
  minus = λ a b. a - b;
  times = λ a b. a * b;
  truthy = λ a. not (a == 0);
  positive = λ a. not (a == 0);
}

abbrev parse_ten : String → Option ℕ
parse_ten text = if str_eq text "10" then some 10 else if str_eq text "0" then some 0 else none

abbrev days : ℕ → ℕ → ℕ
days start end = 1

abbrev five : String → ℕ
five text = 5

-- An account with a position; asking for activities throws.
abbrev client : AlpacaClient
client = record {
  Net = Unit {0};
  get_account = λ s. (ok (record { cash = "0"; portfolio_value = "10"; currency = "" }), s);
  get_positions = λ s. (
    ok (
        record {
          symbol = "AAPL";
          qty = "10";
          side = "long";
          unrealized_pl = "";
          current_price = "10";
          avg_entry_price = "10";
          asset_class = "us_equity";
        }
        ∷ []),
    s,
  );
  get_account_activities = λ n s. (err (message "no answer"), s);
}

balance :
    (get_balance amounts 1 parse_ten five days client tt).0
    ≡ ok (record { balance = 0; equity = 10; unrealized_pnl = 10; currency = "USD" })
unfolding get_balance get_account_info
balance = refl

-- The entry price of the position, 10, is lost between the service and the connector.
positions :
    (get_current_positions amounts 1 parse_ten five days client tt).0
    ≡ ok (
        record {
          symbol = "AAPL";
          side = "long";
          size = 10;
          entry_price = 0;
          mark_price = 10;
          unrealized_pnl = 0;
          realized_pnl = 0;
          leverage = 1;
          asset_class = "";
        }
        ∷ [])
unfolding get_current_positions get_positions
positions = refl

-- The failed call looks like a day without trades.
no_trades : (get_trades amounts 1 parse_ten five days client 0 9 tt).0 ≡ ok []
unfolding get_trades get_trade_history
no_trades = refl

connected : (test_connection client tt).0 ≡ ok true
unfolding test_connection
connected = refl
