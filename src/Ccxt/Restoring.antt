-- ===== src/Ccxt/Restoring.antt =====
-- The option `defaultType` while the trades are fetched, and after.
use zero_knowledge_aggregato.Base.{
  ℕ, ◌≡◌, refl, sym, ◌∙◌, subst, inl, inr, String, Bool, true, false, Option, some, List, [], ◌∷◌,
  ◌++◌, Result, ok, err, Error, Act, throw, because, Result-cases, continue, handle, pure, ◌>>=◌,
  catch, ◌||◌, ◌&&◌, str_eq, eq_iff, arith,
}
use zero_knowledge_aggregato.Factory.{includes}
use zero_knowledge_aggregato.Aggregator.Data.{Numbers, Object, get_filtered_market_types}
use zero_knowledge_aggregato.Ccxt.Data.{Exchange, Connector, CcxtTrade, Fetched, MarketFlags}
use zero_knowledge_aggregato.Ccxt.{
  on_net, discover, held_pairs, position_symbols, detect_market_types, get_active_symbols,
  fetch_trades, pairs_of, totals_of, types_of,
}
use zero_knowledge_aggregato.Ccxt.Discovery.{get_active_symbols-collected, symbols}
use zero_knowledge_aggregato.Ccxt.Trades.{fetch_market, fetch_markets, get_trades}

-- Of the exchange's side of the connection: kept by every call that is made under a default type.
pub record Keeps {Num : Type 0} (exchange : Exchange Num) (P : exchange.Net → Type 0) (t : String)
    : Type 0 where
  pub orders :
      (since : Option ℕ) (n : exchange.Net) → P n → P (exchange.fetch_closed_orders t since n).1
  pub positions : (n : exchange.Net) → P n → P (exchange.fetch_positions t n).1
  pub balance :
      (kind : Option String) (n : exchange.Net) → P n → P (exchange.fetch_balance t kind n).1
  pub trades :
      (symbol : String) (since : ℕ) (n : exchange.Net)
      → P n
      → P (exchange.fetch_my_trades t symbol since n).1

module _ (lower : String → String) (pair_of : String → String) (numbers : Numbers)
    (exchange : Exchange (numbers.Num)) (exchange_name : String) (P : exchange.Net → Type 0)
    (loads : (n : exchange.Net) → P n → P (exchange.load_markets n).1) where
  open numbers use {Num}
  open exchange use {Net}

  -- The connector has the default type `d`, and `P` holds of the exchange's side.
  abbrev Under : String → Connector Net → Type 0
  Under d s = (s.default_type ≡ d) × P s.net

  -- An action keeps that.
  record Stays {A : Type 0} (d : String) (m : Act (Connector Net) A) : Type 0 where
    stays : (s : Connector Net) → Under d s → Under d (m s).1

  module _ {A B : Type 0} (d : String) where
    continue-Under :
        (f : A → Act (Connector Net) B) (r : Result A × Connector Net)
        → Under d r.1
        → ((a : A) → Stays d (f a))
        → Under d (continue f r).1
    continue-Under f (ok a, s) u next = (next a).stays s u
    continue-Under f (err x, s) u next = u

    Stays-bind :
        (m : Act (Connector Net) A) (f : A → Act (Connector Net) B)
        → Stays d m
        → ((a : A) → Stays d (f a))
        → Stays d (m >>= f)
    Stays-bind m f k next = record { stays = λ s u. continue-Under f (m s) (k.stays s u) next }

  module _ {A : Type 0} (d : String) where
    handle-Under :
        (h : Error → Act (Connector Net) A) (r : Result A × Connector Net)
        → Under d r.1
        → ((e : Error) → Stays d (h e))
        → Under d (handle h r).1
    handle-Under h (ok a, s) u next = u
    handle-Under h (err x, s) u next = (next x).stays s u

    Stays-catch :
        (m : Act (Connector Net) A) (h : Error → Act (Connector Net) A)
        → Stays d m
        → ((e : Error) → Stays d (h e))
        → Stays d (catch m h)
    Stays-catch m h k next = record { stays = λ s u. handle-Under h (m s) (k.stays s u) next }

    Stays-pure : (a : A) → Stays d (pure a)
    Stays-pure a = record { stays = λ s u. u }

    Stays-on_net :
        (call : String → Act Net A) → ((n : Net) → P n → P (call d n).1) → Stays d (on_net call)
    Stays-on_net call k = record {
      stays = λ s u. (u.0, subst (λ t. P (call t s.net).1) (sym u.0) (k s.net u.1));
    }

  Stays-discover :
      (d : String) (b : Bool) (job : Act (Connector Net) (List String)) (set : List String)
      → Stays d job
      → Stays d (discover lower pair_of numbers exchange exchange_name b job set)
  Stays-discover d false job set k = Stays-pure d set
  Stays-discover d true job set k =
      Stays-catch d _ _ (Stays-bind d job _ k (λ found. Stays-pure d _)) (λ e. Stays-pure d set)

  Stays-load : (d : String) → Stays d (on_net (λ t. exchange.load_markets))
  Stays-load d = Stays-on_net d (λ t. exchange.load_markets) loads

  Stays-held :
      (d : String)
      → Keeps exchange P d
      → Stays d (held_pairs lower pair_of numbers exchange exchange_name)
  Stays-held d k =
      let read = on_net (λ t. exchange.fetch_balance t Option.none) in
      Stays-bind {A = Fetched Num} d read _
        (Stays-on_net d (λ t. exchange.fetch_balance t Option.none) (k.balance Option.none))
        (λ b.
          Stays-bind {A = Object MarketFlags} d (on_net (λ t. exchange.load_markets)) _
            (Stays-load d)
            (λ markets. Stays-pure d (
              pairs_of lower pair_of numbers exchange exchange_name markets
                (totals_of lower pair_of numbers exchange exchange_name b.total))))

  get_active_symbols-Stays :
      (d market : String) (since : Option ℕ)
      → Keeps exchange P d
      → Stays d (get_active_symbols lower pair_of numbers exchange exchange_name market since)
  unfolding get_active_symbols
  get_active_symbols-Stays d market since k =
      Stays-bind d _ _
        (Stays-discover d exchange.has_closed_orders _ [] (Stays-on_net d _ (k.orders since)))
        (λ a.
          Stays-bind d _ _
            (Stays-discover d
              ((str_eq market "swap" || str_eq market "future") && exchange.has_positions)
              (position_symbols lower pair_of numbers exchange exchange_name) a
              (Stays-bind d _ _ (Stays-on_net d _ k.positions) (λ ps. Stays-pure d _)))
            (λ b.
              Stays-discover d (str_eq market "spot")
                (held_pairs lower pair_of numbers exchange exchange_name) b (Stays-held d k)))

  fetch_trades-Stays :
      (d : String) (since : ℕ) (xs : List String) (all : List (CcxtTrade Num))
      → Keeps exchange P d
      → Stays d (fetch_trades lower pair_of numbers exchange exchange_name since xs all)
  fetch_trades-Stays d since [] all k = Stays-pure d all
  fetch_trades-Stays d since (x ∷ xs) all k =
      Stays-bind d _ _
        (Stays-catch d _ _ (Stays-on_net d _ (k.trades x since)) (λ e. Stays-pure d []))
        (λ own. fetch_trades-Stays d since xs (all ++ own) k)

  module _ {A : Type 0} where
    abbrev Returns : Result A × Connector Net → Type 0
    Returns r = (a : A) × (r.0 ≡ ok a)

  -- What follows a value that is returned under a type.
  continue-returned :
      {A B : Type 0} (f : A → Act (Connector Net) B) (d d' : String) (r : Result A × Connector Net)
      → Returns r
      → Under d r.1
      → ((a : A) (s : Connector Net) → Under d s → Under d' (f a s).1)
      → Under d' (continue f r).1
  continue-returned f d d' (ok a, s) e u next = next a s u
  continue-returned f d d' (err x, s) (b, e) u next = absurd (cc e)

  fetch_trades-Returns :
      (since : ℕ) (xs : List String) (all : List (CcxtTrade Num)) (s : Connector Net)
      → Returns (fetch_trades lower pair_of numbers exchange exchange_name since xs all s)
  fetch_trades-Returns since [] all s = (all, refl)
  fetch_trades-Returns since (x ∷ xs) all s =
      let answer = exchange.fetch_my_trades s.default_type x since s.net in
      let after = record s { net = answer.1 } in
      elim (Result-cases answer.0) [
        | inl (own, e) ↦ rw e (fetch_trades-Returns since xs (all ++ own) after)
        | inr (x, e) ↦ rw e (fetch_trades-Returns since xs (all ++ []) after)
      ]

  fetch_market-Under :
      (since : ℕ) (market : String) (all : List (CcxtTrade Num)) (s : Connector Net)
      → Keeps exchange P market
      → P s.net
      → Under s.default_type
          (fetch_market lower pair_of numbers exchange exchange_name since market all s).1
  fetch_market-Under since market all s k p =
      let at_market = record s { default_type = market } in
      let found =
        get_active_symbols lower pair_of numbers exchange exchange_name market (some since) in
      continue-returned _ market s.default_type (found at_market)
        (
          symbols lower pair_of numbers exchange exchange_name market (some since) at_market,
          get_active_symbols-collected lower pair_of numbers exchange exchange_name market
              (some since) at_market,
        )
        ((get_active_symbols-Stays market market (some since) k).stays at_market (refl, p))
        (λ xs t u.
          continue-returned _ market s.default_type
            (fetch_trades lower pair_of numbers exchange exchange_name since xs all t)
            (fetch_trades-Returns since xs all t)
            ((fetch_trades-Stays market since xs all k).stays t u) (λ more w v. (refl, v.1)))

  fetch_markets-Stays :
      (d : String) (since : ℕ) (markets : List String) (all : List (CcxtTrade Num))
      → ((t : String) → includes markets t ≡ true → Keeps exchange P t)
      → Stays d (fetch_markets lower pair_of numbers exchange exchange_name since markets all)
  fetch_markets-Stays d since [] all k = Stays-pure d all
  fetch_markets-Stays d since (m ∷ ms) all k =
      Stays-bind d _ _
        (record {
          stays = λ s u.
              let v = fetch_market-Under since m all s (k m (ground (arith, eq_iff m m))) u.1 in
              (v.0 ∙ u.0, v.1);
        })
        (λ more. fetch_markets-Stays d since ms more (λ t h. k t (ground (arith, h))))

  detect_market_types-Stays :
      (d : String) → Stays d (detect_market_types lower pair_of numbers exchange exchange_name)
  unfolding detect_market_types
  detect_market_types-Stays d =
      Stays-catch d _ (λ e. throw (because "detectMarketTypes" e))
        (Stays-bind {A = Object MarketFlags} d (on_net (λ t. exchange.load_markets)) _
          (Stays-load d) (λ markets. Stays-pure d (types_of markets [])))
        (λ e. record { stays = λ s u. u })

  -- The filtered types of what the detection answers.
  abbrev pub IsMarket : Connector Net → String → Type 0
  IsMarket s t =
      (types : List String) × ((detect_market_types lower pair_of numbers exchange exchange_name
          s).0
        ≡ ok types)
      × (includes (get_filtered_market_types lower exchange_name types) t ≡ true)

  continue-listed :
      (d : String) (start_date : ℕ) (r : Result (List String) × Connector Net)
      → Under d r.1
      → ((types : List String)
          → r.0 ≡ ok types
          → (t : String) → includes (get_filtered_market_types lower exchange_name types) t ≡ true
          → Keeps exchange P t)
      → {B : Type 0} (g : List (CcxtTrade Num) → B)
      → Under d
          (continue
            (λ types.
              fetch_markets lower pair_of numbers exchange exchange_name start_date
                (get_filtered_market_types lower exchange_name types)
                []
              >>= λ trades. pure (g trades))
            r).1
  continue-listed d start_date (ok types, s) u k g =
      (Stays-bind d _ _
          (fetch_markets-Stays d start_date (get_filtered_market_types lower exchange_name types) []
            (k types refl))
          (λ trades. Stays-pure d _)).stays
        s u
  continue-listed d start_date (err e, s) u k g = u

  -- Fetching the trades leaves the exchange's default type as it was before, whatever the exchange
  -- answers or throws. While they are fetched, orders, positions, balances and trades are asked for
  -- under no other default type than those of the detected and filtered markets: what holds of the
  -- exchange's side before, and is kept by loading the markets and by every such call under the type
  -- of one of these markets, holds after.
  pub get_trades-default_type :
      (start_date end_date : ℕ) (s : Connector Net)
      → ((t : String) → IsMarket s t → Keeps exchange P t)
      → P s.net
      → let after =
          (get_trades lower pair_of numbers exchange exchange_name start_date end_date s).1 in
        (after.default_type ≡ s.default_type) × P after.net
  unfolding get_trades
  get_trades-default_type start_date end_date s k p =
      handle-Under s.default_type _ _
        (continue-listed s.default_type start_date
          (detect_market_types lower pair_of numbers exchange exchange_name s)
          ((detect_market_types-Stays s.default_type).stays s (refl, p))
          (λ types e t h. k t (types, e, h)) _)
        (λ e. record { stays = λ t u. u })
