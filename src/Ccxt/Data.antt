-- ===== src/Ccxt/Data.antt =====
-- src/connectors/CcxtExchangeConnector.ts: what the connector reads and gives, and the CCXT library as
-- an interface.
use zero_knowledge_aggregato.Base.{ℕ, String, Bool, Option, List, Act}
use zero_knowledge_aggregato.Aggregator.Data.{Object}

pub record Holding (Num : Type 0) : Type 0 where
  pub free : Option Num
  pub total : Option Num

-- A balance: the entries by currency, other properties as entries without figures, and the totals.
pub record Fetched (Num : Type 0) : Type 0 where
  pub entries : Object (Holding Num)
  pub total : Option (Object Num)

pub record MarketFlags : Type 0 where
  pub spot : Bool
  pub swap : Bool
  pub future : Bool
  pub option : Bool
  pub margin : Bool

-- A trade of the library; a missing text is empty.
pub record CcxtTrade (Num : Type 0) : Type 0 where
  pub id : String
  pub timestamp : Option ℕ
  pub symbol : String
  pub side : String
  pub price : Option Num
  pub amount : Option Num
  pub cost : Option Num
  pub fee : Option (Option Num × String)
  pub order : String
  pub realized_pnl : Option Num

-- A position of the library.
pub record CcxtPosition (Num : Type 0) : Type 0 where
  pub symbol : String
  pub side : String
  pub contracts : Option Num
  pub entry_price : Option Num
  pub mark_price : Option Num
  pub unrealized_pnl : Option Num
  pub leverage : Option Num
  pub liquidation_price : Option Num
  pub margin_mode : Option String

pub record PositionData (Num : Type 0) : Type 0 where
  pub symbol : String
  pub side : String
  pub size : Num
  pub entry_price : Num
  pub mark_price : Num
  pub unrealized_pnl : Num
  pub realized_pnl : Num
  pub leverage : Num
  pub liquidation_price : Option Num
  pub margin_type : Option String

pub record TradeData (Num : Type 0) : Type 0 where
  pub trade_id : String
  pub symbol : String
  pub side : String
  pub quantity : Num
  pub price : Num
  pub fee : Num
  pub fee_currency : String
  pub timestamp : ℕ
  pub order_id : String
  pub realized_pnl : Num

pub record ExecutedOrder (Num : Type 0) : Type 0 where
  pub id : String
  pub timestamp : ℕ
  pub symbol : String
  pub side : String
  pub price : Num
  pub amount : Num
  pub cost : Num
  pub fee : Option (Num × String)

pub record FundingFee (Num : Type 0) : Type 0 where
  pub timestamp : ℕ
  pub symbol : String
  pub amount : Num

-- The exchange: what it has, and its calls by the default type of markets. `show_time` prints a time.
pub record Exchange (Num : Type 0) : Type 1 where
  pub Net : Type 0
  pub has_my_trades : Bool
  pub has_closed_orders : Bool
  pub has_positions : Bool
  pub has_funding_history : Bool
  pub load_markets : Act Net (Object MarketFlags)
  pub fetch_balance : String → Option String → Act Net (Fetched Num)
  pub fetch_my_trades : String → String → ℕ → Act Net (List (CcxtTrade Num))
  pub fetch_closed_orders : String → Option ℕ → Act Net (List String)
  pub fetch_positions : String → Act Net (List (CcxtPosition Num))
  pub fetch_funding_history : String → ℕ → Act Net (List (Option ℕ × (String × Option Num)))
  pub simple_earn_positions : Act Net (Option (List (String × Num)))
  pub show_time : Option ℕ → String

pub record Connector (Net : Type 0) : Type 0 where
  pub default_type : String
  pub net : Net
