-- ===== src/Ccxt/Earnings.antt =====
-- src/connectors/CcxtExchangeConnector.ts, `getFundingFees` and `getEarnBalance`.
use zero_knowledge_aggregato.Base.{
  ℕ, String, Bool, true, false, ◌&&◌, Option, none, some, List, [], ◌∷◌, ◌++◌, str_eq,
  if◌then◌else◌, pure, ◌>>=◌, catch,
}
use zero_knowledge_aggregato.Aggregator.Data.{Numbers}
use zero_knowledge_aggregato.Aggregator.Breakdown.{or_nought}
use zero_knowledge_aggregato.Aggregator.Balances.{Balance}
use zero_knowledge_aggregato.Factory.{includes}
use zero_knowledge_aggregato.Ccxt.Data.{FundingFee, Exchange}
use zero_knowledge_aggregato.Ccxt.{
  on_net, or_zero, stablecoins, with_error_handling, Job, add_holdings,
}

module _ (lower : String → String) (pair_of : String → String) (numbers : Numbers)
    (exchange : Exchange (numbers.Num)) (exchange_name : String) where
  open numbers use {Num, nought, plus, positive, truthy}
  open exchange use {Net}

  abbrev pub fees_of : List (Option ℕ × (String × Option Num)) → List (FundingFee Num)
  fees_of [] = []
  fees_of ((time, (symbol, amount)) ∷ rest) =
      record { timestamp = or_zero time; symbol = symbol; amount = or_nought numbers amount }
      ∷ fees_of rest

  abbrev pub fetch_fees :
      ℕ
      → List String
      → List (FundingFee Num)
      → Job lower pair_of numbers exchange exchange_name (List (FundingFee Num))
  fetch_fees since [] all = pure all
  fetch_fees since (s ∷ ss) all =
      catch (on_net (λ t. exchange.fetch_funding_history s since) >>= λ own. pure (fees_of own))
        (λ e. pure [])
      >>= λ fees. fetch_fees since ss (all ++ fees)

  unfoldable pub get_funding_fees :
      List String → ℕ → Job lower pair_of numbers exchange exchange_name (List (FundingFee Num))
  get_funding_fees symbols since =
      with_error_handling lower pair_of numbers exchange exchange_name "getFundingFees"
        (if exchange.has_funding_history then fetch_fees since symbols [] else pure [])

  abbrev pub add_products : List (String × Num) → Num → Num
  add_products [] sum = sum
  add_products ((asset, n) ∷ rest) sum =
      add_products rest (if includes ("USDT" ∷ "USDC" ∷ "BUSD" ∷ []) asset then plus sum n else sum)

  abbrev pub add_found : Num → Option (List (String × Num)) → Num
  add_found sum none = sum
  add_found sum (some rows) = add_products rows sum

  abbrev pub earned : Num → Balance Num
  earned n = record { equity = n; available_margin = some nought }

  abbrev pub simple_earn : Num → Job lower pair_of numbers exchange exchange_name (Balance Num)
  simple_earn sum =
      if str_eq (lower exchange_name) "binance"
      then catch
          (on_net (λ t. exchange.simple_earn_positions) >>= λ rows.
            pure (earned (add_found sum rows)))
          (λ e. pure (earned sum))
      else pure (earned sum)

  -- The kinds in turn, until the sum is positive; one whose call throws adds nothing.
  -- Whether a kind was fetched, and the sum after it.
  abbrev pub add_kind : String → Num → Job lower pair_of numbers exchange exchange_name (Bool × Num)
  add_kind kind sum =
      catch
        (on_net (λ t. exchange.fetch_balance t (some kind)) >>= λ b. pure (
          true,
          add_holdings lower pair_of numbers exchange exchange_name (includes stablecoins) b.entries
              sum,
        ))
        (λ e. pure (false, sum))

  abbrev pub try_earn_types :
      List String → Num → Job lower pair_of numbers exchange exchange_name (Balance Num)
  try_earn_types [] sum = simple_earn sum
  try_earn_types (kind ∷ kinds) sum = add_kind kind sum >>= λ more.
      let rest = try_earn_types kinds more.1 in
      if more.0 && positive more.1 then pure (earned more.1) else rest

  unfoldable pub get_earn_balance : Job lower pair_of numbers exchange exchange_name (Balance Num)
  get_earn_balance =
      with_error_handling lower pair_of numbers exchange exchange_name "getEarnBalance"
        (try_earn_types ("earn" ∷ "savings" ∷ "funding" ∷ []) nought)
