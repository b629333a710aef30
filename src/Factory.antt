-- ===== src/Factory.antt =====
-- src/external/factories/ExchangeConnectorFactory.ts: which connector an exchange name gets.
-- `toLowerCase` and the classes that the CCXT package exports are parameters. A name that only the
-- prototype of the table of exchanges has, such as "constructor", is taken as absent.
pub mod Support
pub mod Tests
use zero_knowledge_aggregato.Base.{
  String, Bool, true, false, ◌&&◌, ◌||◌, not, Option, none, some, List, [], ◌∷◌, ◌++◌, map, str_eq,
  if◌then◌else◌, Result, ok, err, message, Error,
}

pub record Credentials : Type 0 where
  pub user_uid : String
  pub exchange : String
  pub api_key : String
  pub api_secret : String
  pub passphrase : Option String

-- A connector by its class; `ccxt` has the identifier that its constructor is given.
pub data Kind : Type 0 where
  ccxt : String → Kind
  ibkr_flex alpaca_rest : Kind

abbrev pub ccxt_exchanges : List (String × String)
ccxt_exchanges =
    ("binance", "binance")
    ∷ ("binance_futures", "binance")
    ∷ ("binanceusdm", "binance")
    ∷ ("bitget", "bitget")
    ∷ ("mexc", "mexc")
    ∷ ("okx", "okx")
    ∷ ("bybit", "bybit")
    ∷ ("kucoin", "kucoin")
    ∷ ("coinbase", "coinbase")
    ∷ ("gate", "gate")
    ∷ ("huobi", "huobi")
    ∷ ("kraken", "kraken")
    ∷ []

abbrev pub custom_brokers : List String
custom_brokers = "ibkr" ∷ "alpaca" ∷ []

abbrev pub includes : List String → String → Bool
includes [] s = false
includes (x ∷ xs) s = str_eq x s || includes xs s

abbrev pub lookup_name : List (String × String) → String → Option String
lookup_name [] s = none
lookup_name ((k, v) ∷ rest) s = if str_eq k s then some v else lookup_name rest s

-- `Object.hasOwn`
abbrev pub has_own : List (String × String) → String → Bool
has_own [] s = false
has_own ((k, v) ∷ rest) s = str_eq k s || has_own rest s

abbrev pub keys : List (String × String) → List String
keys [] = []
keys ((k, v) ∷ rest) = k ∷ keys rest

abbrev pub get_supported_exchanges : List String
get_supported_exchanges = keys ccxt_exchanges ++ custom_brokers

abbrev pub unsupported : Error
unsupported = message "Unsupported exchange"

-- `!credentials.apiKey || !credentials.apiSecret`
abbrev pub lacks_keys : Credentials → Bool
lacks_keys c = str_eq c.api_key "" || str_eq c.api_secret ""

module _ (lower : String → String) (ccxt_has : String → Bool) where
  -- The constructors of the three connectors, with what makes them throw.
  abbrev pub new_ccxt : String → Result Kind
  new_ccxt id =
      if ccxt_has id then ok (ccxt id) else err (message "Exchange not supported by CCXT.")

  abbrev pub create_custom_broker_connector : String → Credentials → Result Kind
  create_custom_broker_connector exchange c =
      if str_eq exchange "ibkr"
      then if lacks_keys c
        then err (message "IBKR Flex requires apiKey (token) and apiSecret (queryId)")
        else ok ibkr_flex
      else if str_eq exchange "alpaca"
      then if lacks_keys c
        then err (message "Alpaca requires apiKey and apiSecret")
        else ok alpaca_rest
      else err (message "Custom broker not implemented")

  abbrev pub create_ccxt : Option String → Result Kind
  create_ccxt none = err unsupported
  create_ccxt (some id) = new_ccxt id

  unfoldable pub create : Credentials → Result Kind
  create c =
      let exchange = lower c.exchange in
      if includes custom_brokers exchange
      then create_custom_broker_connector exchange c
      else create_ccxt (lookup_name ccxt_exchanges exchange)

  unfoldable pub is_supported : String → Bool
  is_supported exchange =
      has_own ccxt_exchanges (lower exchange) || includes custom_brokers (lower exchange)

  unfoldable pub is_crypto_exchange : String → Bool
  is_crypto_exchange exchange = has_own ccxt_exchanges (lower exchange)
