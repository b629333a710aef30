-- ===== src/Aggregator/Breakdown/Counting.antt =====
-- How often a trade is counted in a snapshot.
use zero_knowledge_aggregato.Base.{
  ℕ, suc, ◌+◌, ◌≡◌, refl, ap, String, Bool, Option, none, some, List, [], ◌∷◌, length, count_if,
  length-keep, map, arith,
}
use zero_knowledge_aggregato.Aggregator.Data.{Numbers, Trade, Market, Object, lookup}
use zero_knowledge_aggregato.Aggregator.Symbols.{
  matches_market_type, to_upper, is_spot, is_swap, is_option,
}
use zero_knowledge_aggregato.Aggregator.Breakdown.{all_trades, trades_of, build_market_breakdown}

-- The trades of a list whose symbol, in capitals, passes a test.
abbrev pub count_symbols : {Num : Type 0} → (List ℕ → Bool) → List (Trade Num) → ℕ
count_symbols p = count_if (λ t. p (map to_upper t.symbol_name))

module _ {Num : Type 0} where
  count_earn : (ts : List (Trade Num)) → length (trades_of "earn" ts) ≡ length ts
  unfolding matches_market_type
  count_earn [] = refl
  count_earn (t ∷ ts) = ap suc (count_earn ts)

  count_spot : (ts : List (Trade Num)) → length (trades_of "spot" ts) ≡ count_symbols is_spot ts
  unfolding matches_market_type
  count_spot ts = length-keep (λ t. is_spot (map to_upper t.symbol_name)) ts

  count_swap : (ts : List (Trade Num)) → length (trades_of "swap" ts) ≡ count_symbols is_swap ts
  unfolding matches_market_type
  count_swap ts = length-keep (λ t. is_swap (map to_upper t.symbol_name)) ts

  count_options :
      (ts : List (Trade Num)) → length (trades_of "options" ts) ≡ count_symbols is_option ts
  unfolding matches_market_type
  count_options ts = length-keep (λ t. is_option (map to_upper t.symbol_name)) ts

-- The number of trades that a breakdown states for a market.
abbrev pub stated_trades : {Num : Type 0} → String → Object (Market Num) → Option ℕ
stated_trades market breakdown = elim (lookup market breakdown) [ none ↦ none | some m ↦ m.trades ]

module _ (numbers : Numbers) where
  open numbers use {Num}

  -- The total of trades is the number of all trades, which "earn" takes whole, and once more the
  -- spot, the swap and the option trades: a trade counts once for "earn" and again for each of the
  -- spot, the swap and the options market that its symbol fits.
  pub global_trades :
      (balances : Object (Market Num)) (trades : Object (List (Trade Num)))
      (funding equity margin : Num)
      → let ts = all_trades trades in
        stated_trades "global"
          (build_market_breakdown numbers balances trades funding equity margin)
        ≡ some (
            length ts
            + count_symbols is_spot ts
            + count_symbols is_swap ts
            + count_symbols is_option ts)
  unfolding build_market_breakdown
  global_trades balances trades funding equity margin = ap some (
      omega (
        arith,
        count_earn (all_trades trades),
        count_spot (all_trades trades),
        count_swap (all_trades trades),
        count_options (all_trades trades),
      ))
