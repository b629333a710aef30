-- ===== src/Alpaca.antt =====
-- src/connectors/AlpacaConnector.ts over src/external/alpaca-api-service.ts: an account's figures,
-- positions and trades. The Alpaca library is an interface, whose calls may throw. A missing text is
-- empty; the logger's calls are left out, and fields that the connector does not read.
pub mod Tests
use zero_knowledge_aggregato.Base.{
  ℕ, String, Bool, true, false, ◌&&◌, leb, Option, none, some, List, [], ◌∷◌, map, keep, str_eq,
  if◌then◌else◌, Result, ok, err, Error, message, because, Act, pure, throw, ◌>>=◌, catch,
}
use zero_knowledge_aggregato.Aggregator.Data.{Numbers}
use zero_knowledge_aggregato.Ibkr.Connector.{BalanceData}
use zero_knowledge_aggregato.Ccxt.{text_or}
use zero_knowledge_aggregato.Ccxt.Data.{TradeData}

pub record SdkPosition : Type 0 where
  pub symbol : String
  pub qty : String
  pub side : String
  pub unrealized_pl : String
  pub current_price : String
  pub avg_entry_price : String
  pub asset_class : String

pub record AlpacaPosition : Type 0 where
  pub symbol : String
  pub qty : String
  pub side : String
  pub unrealized_pl : String
  pub current_price : String
  pub avg_entry_price : String
  pub asset_class : String

pub record SdkActivity : Type 0 where
  pub transaction_time : String
  pub price : String
  pub qty : String
  pub side : String
  pub symbol : String
  pub net_amount : String

pub record AlpacaActivity : Type 0 where
  pub transaction_time : String
  pub price : String
  pub qty : String
  pub side : String
  pub symbol : String
  pub net_amount : String

pub record AlpacaAccount : Type 0 where
  pub cash : String
  pub portfolio_value : String
  pub currency : String

pub record PositionData (Num : Type 0) : Type 0 where
  pub symbol : String
  pub side : String
  pub size : Num
  pub entry_price : Num
  pub mark_price : Num
  pub unrealized_pnl : Num
  pub realized_pnl : Num
  pub leverage : Num
  pub asset_class : String

-- The library's client. The activities are asked for from a number of days ago.
pub record AlpacaClient : Type 1 where
  pub Net : Type 0
  pub get_account : Act Net AlpacaAccount
  pub get_positions : Act Net (List SdkPosition)
  pub get_account_activities : ℕ → Act Net (List SdkActivity)

-- The service.
module _ (client : AlpacaClient) where
  open client use {Net}

  unfoldable pub test_connection : Act Net Bool
  test_connection = catch (client.get_account >>= λ a. pure true) (λ e. pure false)

  -- The entry price and the class of the library's position are not passed on.
  abbrev pub position_of : SdkPosition → AlpacaPosition
  position_of p = record {
    symbol = p.symbol;
    qty = p.qty;
    side = p.side;
    unrealized_pl = p.unrealized_pl;
    current_price = p.current_price;
    avg_entry_price = "";
    asset_class = "";
  }

  unfoldable pub get_positions : Act Net (List AlpacaPosition)
  get_positions = catch (client.get_positions >>= λ ps. pure (map position_of ps)) (λ e. pure [])

  abbrev pub activity_of : SdkActivity → AlpacaActivity
  activity_of a = record {
    transaction_time = a.transaction_time;
    price = text_or "0" a.price;
    qty = text_or "0" a.qty;
    side = text_or "buy" a.side;
    symbol = a.symbol;
    net_amount = "";
  }

  unfoldable pub get_trade_history : ℕ → Act Net (List AlpacaActivity)
  get_trade_history days =
      catch (client.get_account_activities days >>= λ l. pure (map activity_of l)) (λ e. pure [])

  unfoldable pub get_account_info : Act Net (Option AlpacaAccount)
  get_account_info = catch (client.get_account >>= λ a. pure (some a)) (λ e. pure none)

-- The connector. `parse_float` gives nothing for a text that is no number, `time_of` is the time of an
-- ISO text, and `days_between` rounds the days between two times up. Where the end is before the start,
-- no activity is in the range, and their number does not matter.
module _ (numbers : Numbers) (one : numbers.Num) (parse_float : String → Option (numbers.Num))
    (time_of : String → ℕ) (days_between : ℕ → ℕ → ℕ) (client : AlpacaClient) where
  open numbers use {Num, nought, minus}
  open client use {Net}

  abbrev pub float_or_nought : Option Num → Num
  float_or_nought none = nought
  float_or_nought (some x) = x

  abbrev pub parse : String → Num
  parse text = float_or_nought (parse_float text)

  abbrev pub with_error_handling : {A : Type 0} → String → Act Net A → Act Net A
  with_error_handling context job = catch job (λ e. throw (because context e))

  abbrev pub balance_of : Option AlpacaAccount → Act Net (BalanceData Num)
  balance_of none = throw (message "Failed to fetch Alpaca account info")
  balance_of (some a) = pure (record {
    balance = parse a.cash;
    equity = parse a.portfolio_value;
    unrealized_pnl = minus (parse a.portfolio_value) (parse a.cash);
    currency = text_or "USD" a.currency;
  })

  unfoldable pub get_balance : Act Net (BalanceData Num)
  unfolding get_account_info
  get_balance = with_error_handling "getBalance" (get_account_info client >>= balance_of)

  abbrev pub position_data_of : AlpacaPosition → PositionData Num
  position_data_of p = record {
    symbol = p.symbol;
    side = if str_eq p.side "long" then "long" else "short";
    size = parse p.qty;
    entry_price = parse (text_or "0" p.avg_entry_price);
    mark_price = parse (text_or "0" p.current_price);
    unrealized_pnl = parse (text_or "0" p.unrealized_pl);
    realized_pnl = nought;
    leverage = one;
    asset_class = p.asset_class;
  }

  unfoldable pub get_current_positions : Act Net (List (PositionData Num))
  unfolding get_positions
  get_current_positions =
      with_error_handling "getCurrentPositions"
        (get_positions client >>= λ ps. pure (map position_data_of ps))

  abbrev pub trade_of : AlpacaActivity → TradeData Num
  trade_of a = record {
    trade_id = a.transaction_time;
    symbol = a.symbol;
    side = if str_eq a.side "buy" then "buy" else "sell";
    quantity = parse (text_or "0" a.qty);
    price = parse (text_or "0" a.price);
    fee = nought;
    fee_currency = "USD";
    timestamp = time_of a.transaction_time;
    order_id = "";
    realized_pnl = parse (text_or "0" a.net_amount);
  }

  abbrev pub is_in_date_range : ℕ → ℕ → ℕ → Bool
  is_in_date_range date start_date end_date = leb start_date date && leb date end_date

  unfoldable pub get_trades : ℕ → ℕ → Act Net (List (TradeData Num))
  unfolding get_trade_history
  get_trades start_date end_date = with_error_handling "getTrades" (do
    activities ← get_trade_history client (days_between start_date end_date)
    pure (
        map trade_of (
          keep
            (λ (a : AlpacaActivity).
              is_in_date_range (time_of a.transaction_time) start_date end_date)
            activities)))
