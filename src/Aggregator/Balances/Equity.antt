-- ===== src/Aggregator/Balances/Equity.antt =====
-- The total equity of `fetchBalancesByMarket` beside the equities it lists by market.
use zero_knowledge_aggregato.Base.{◌≡◌, String, false, none, some, List, [], ◌∷◌, str_eq, All}
use zero_knowledge_aggregato.Aggregator.Data.{Numbers, Market, Object}
use zero_knowledge_aggregato.Aggregator.Balances.{Balances}

-- No text is listed twice.
abbrev pub Distinct : List String → Type 0
Distinct [] = Unit
Distinct (t ∷ ts) = All (λ u. str_eq t u ≡ false) ts × Distinct ts

module _ (numbers : Numbers) where
  open numbers use {Num, nought, plus, positive}

  abbrev pub equity_of : Market Num → Num
  equity_of m = elim m.total_equity_usd [ none ↦ nought | some e ↦ e ]

  -- The equities of the markets, added up in their order.
  abbrev pub equities_from : Num → Object (Market Num) → Num
  equities_from total [] = total
  equities_from total ((k, m) ∷ rest) = equities_from (plus total (equity_of m)) rest

  abbrev pub IsTotal : Balances numbers → Type 0
  IsTotal b = b.global_equity ≡ equities_from nought b.by_market
