-- ===== src/Aggregator/Data.antt =====
-- Data that the aggregator reads and writes: amounts, trades, market figures (src/types/index.ts,
-- src/types/snapshot-breakdown.ts). JavaScript's numbers are an interface with no laws, so that what
-- is proved holds of rounding arithmetic too. Symbols are lists of character codes.
use Prim.Native.Char.{code}
use zero_knowledge_aggregato.Base.{
  ℕ, String, Bool, not, Option, none, some, List, [], ◌∷◌, keep, str_eq, if◌then◌else◌,
}
use zero_knowledge_aggregato.Factory.{includes}

-- `truthy x` is x being neither 0 nor NaN, and `positive x` is `x > 0`.
pub record Numbers : Type 1 where
  pub Num : Type 0
  pub nought : Num
  pub plus : Num → Num → Num
  pub minus : Num → Num → Num
  pub times : Num → Num → Num
  pub truthy : Num → Bool
  pub positive : Num → Bool

abbrev pub Symbol : Type 0
Symbol = List ℕ

abbrev pub symbol : String → Symbol
symbol String.[] = []
symbol (String.◌∷◌ c s) = code c ∷ symbol s

-- A fee has a currency too, which the aggregator does not read.
pub record Trade (Num : Type 0) : Type 0 where
  pub id : String
  pub timestamp : ℕ
  pub symbol_name : Symbol
  pub side : String
  pub price : Num
  pub amount : Num
  pub cost : Num
  pub fee_cost : Option Num

-- MarketBalanceBreakdown: the camelCase and snake_case spellings of a fee are one field.
pub record Market (Num : Type 0) : Type 0 where
  pub total_equity_usd : Option Num
  pub unrealized_pnl : Option Num
  pub realized_pnl : Option Num
  pub available_balance : Option Num
  pub used_margin : Option Num
  pub positions : Option Num
  pub volume : Option Num
  pub trades : Option ℕ
  pub trading_fees : Option Num
  pub funding_fees : Option Num
  pub equity : Option Num
  pub available_margin : Option Num

abbrev pub no_market : {Num : Type 0} → Market Num
no_market = record {
  total_equity_usd = none;
  unrealized_pnl = none;
  realized_pnl = none;
  available_balance = none;
  used_margin = none;
  positions = none;
  volume = none;
  trades = none;
  trading_fees = none;
  funding_fees = none;
  equity = none;
  available_margin = none;
}

-- An object with text keys, in insertion order.
abbrev pub Object : Type 0 → Type 0
Object A = List (String × A)

abbrev pub lookup : {A : Type 0} → String → Object A → Option A
lookup k [] = none
lookup k ((j, a) ∷ rest) = if str_eq j k then some a else lookup k rest

abbrev pub set_key : {A : Type 0} → String → A → Object A → Object A
set_key k a [] = (k, a) ∷ []
set_key k a ((j, b) ∷ rest) = if str_eq j k then (j, a) ∷ rest else (j, b) ∷ set_key k a rest

abbrev pub unified_account_exchanges : List String
unified_account_exchanges = "bitget" ∷ "okx" ∷ "bybit" ∷ []

-- `lower` is `toLowerCase`.
abbrev pub is_unified_account_exchange : (String → String) → String → Bool
is_unified_account_exchange lower exchange = includes unified_account_exchanges (lower exchange)

unfoldable pub get_filtered_market_types : (String → String) → String → List String → List String
get_filtered_market_types lower exchange types =
    if is_unified_account_exchange lower exchange
    then keep (λ t. not (includes ("future" ∷ "margin" ∷ []) t)) types
    else types
