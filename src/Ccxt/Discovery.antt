-- ===== src/Ccxt/Discovery.antt =====
-- The symbols that are found.
use zero_knowledge_aggregato.Base.{
  ℕ, ◌≡◌, refl, sym, ap, ◌∙◌, inl, inr, String, Bool, true, false, not, Option, List, [], ◌∷◌,
  str_eq, eq_iff, Result, ok, err, Act, Result-cases, Bool-cases, continue, ◌&&◌, ◌||◌, ◌>>=◌,
  arith,
}
use zero_knowledge_aggregato.Aggregator.Data.{Numbers}
use zero_knowledge_aggregato.Factory.{includes}
use zero_knowledge_aggregato.Connections.Unique.{NoRepeats, NoRepeats-append, includes-append}
use zero_knowledge_aggregato.Ccxt.Data.{Exchange, Connector}
use zero_knowledge_aggregato.Ccxt.{
  on_net, position_symbols, add_once, add_all, discover, held_pairs, get_active_symbols,
}

add_once-NoRepeats : (s : String) (set : List String) → NoRepeats set → NoRepeats (add_once s set)
add_once-NoRepeats s set n = elim (Bool-cases (includes set s)) [
  | inl e ↦ rw e n
  | inr e ↦ rw e (NoRepeats-append set s n e)
]

add_all-NoRepeats : (ss set : List String) → NoRepeats set → NoRepeats (add_all ss set)
add_all-NoRepeats [] set n = n
add_all-NoRepeats (s ∷ ss) set n = elim (Bool-cases (str_eq s "")) [
  | inl e ↦ rw e (add_all-NoRepeats ss set n)
  | inr e ↦ rw e (add_all-NoRepeats ss (add_once s set) (add_once-NoRepeats s set n))
]

includes-add_once :
    (s x : String) (set : List String)
    → includes (add_once s set) x ≡ (includes set x || str_eq s x)
includes-add_once s x set = elim (Bool-cases (includes set s)) [
  | inl e ↦ rw e (ground (arith, eq_iff s x, same_text e))
  | inr e ↦ rw e (includes-append set s x)
]
  where
    same_text : includes set s ≡ true → str_eq s x ≡ true → includes set x ≡ true
    same_text e h = ap (includes set) (sym ((eq_iff s x).0 h)) ∙ e

includes-add_all :
    (x : String) (ss set : List String)
    → includes (add_all ss set) x ≡ (includes set x || (not (str_eq x "") && includes ss x))
includes-add_all x [] set = ground arith
includes-add_all x (s ∷ ss) set = elim (Bool-cases (str_eq s "")) [
  | inl e ↦
      rw e (ground (arith, includes-add_all x ss set, eq_iff s x, eq_iff s "", eq_iff x "", e))
  | inr e ↦ rw e (
      ground (
        arith,
        includes-add_all x ss (add_once s set),
        includes-add_once s x set,
        eq_iff s x,
        eq_iff s "",
        eq_iff x "",
        e,
      ))
]

-- The set after a source that is consulted or not, and what it answered.
abbrev pub collected : Bool → Result (List String) → List String → List String
collected false r set = set
collected true (ok found) set = add_all found set
collected true (err e) set = set

-- Whether a source was consulted, answered, and named the symbol; the empty text is none.
abbrev pub found_by : Bool → Result (List String) → String → Bool
found_by false r x = false
found_by true (ok found) x = not (str_eq x "") && includes found x
found_by true (err e) x = false

collected-NoRepeats :
    (b : Bool) (r : Result (List String)) (set : List String)
    → NoRepeats set
    → NoRepeats (collected b r set)
collected-NoRepeats false r set n = n
collected-NoRepeats true (ok found) set n = add_all-NoRepeats found set n
collected-NoRepeats true (err e) set n = n

includes-collected :
    (x : String) (b : Bool) (r : Result (List String)) (set : List String)
    → includes (collected b r set) x ≡ (includes set x || found_by b r x)
includes-collected x false r set = ground arith
includes-collected x true (ok found) set = includes-add_all x found set
includes-collected x true (err e) set = ground arith

module _ (lower : String → String) (pair_of : String → String) (numbers : Numbers)
    (exchange : Exchange (numbers.Num)) (exchange_name : String) where
  open exchange use {Net}

  -- The connector after a source that is consulted or not.
  abbrev pub after_source : Bool → Act (Connector Net) (List String) → Connector Net → Connector Net
  after_source false job s = s
  after_source true job s = (job s).1

  discover-collected :
      (b : Bool) (job : Act (Connector Net) (List String)) (set : List String) (s : Connector Net)
      → discover lower pair_of numbers exchange exchange_name b job set s
        ≡ (ok (collected b (job s).0 set), after_source b job s)
  discover-collected false job set s = refl
  discover-collected true job set s = elim (Result-cases (job s).0) [
    | inl (found, e) ↦ rw e refl
    | inr (x, e) ↦ rw e refl
  ]

  abbrev pub closed_orders : Option ℕ → Act (Connector Net) (List String)
  closed_orders since = on_net (λ t. exchange.fetch_closed_orders t since)

  abbrev pub positions : Act (Connector Net) (List String)
  positions = position_symbols lower pair_of numbers exchange exchange_name

  abbrev pub holdings : Act (Connector Net) (List String)
  holdings = held_pairs lower pair_of numbers exchange exchange_name

  abbrev pub has_positions_of : String → Bool
  has_positions_of market =
      (str_eq market "swap" || str_eq market "future") && exchange.has_positions

  abbrev pub after_orders : Option ℕ → Connector Net → Connector Net
  after_orders since s = after_source exchange.has_closed_orders (closed_orders since) s

  abbrev pub after_positions : String → Option ℕ → Connector Net → Connector Net
  after_positions market since s =
      after_source (has_positions_of market) positions (after_orders since s)

  abbrev pub symbols : String → Option ℕ → Connector Net → List String
  symbols market since s =
      collected (str_eq market "spot") (holdings (after_positions market since s)).0 (
        collected (has_positions_of market) (positions (after_orders since s)).0
          (collected exchange.has_closed_orders (closed_orders since s).0 []))

  pub get_active_symbols-collected :
      (market : String) (since : Option ℕ) (s : Connector Net)
      → (get_active_symbols lower pair_of numbers exchange exchange_name market since s).0
        ≡ ok (symbols market since s)
  unfolding get_active_symbols
  get_active_symbols-collected market since s =
      let second = λ (a : List String).
        discover lower pair_of numbers exchange exchange_name (has_positions_of market) positions
          a in
      let third = λ (b : List String).
        discover lower pair_of numbers exchange exchange_name (str_eq market "spot") holdings b in
      let a = collected exchange.has_closed_orders (closed_orders since s).0 [] in
      let b = collected (has_positions_of market) (positions (after_orders since s)).0 a in
      ap (λ r. (continue (λ (x : List String). second x >>= third) r).0)
        (discover-collected exchange.has_closed_orders (closed_orders since) [] s)
      ∙ ap (λ r. (continue third r).0)
          (discover-collected (has_positions_of market) positions a (after_orders since s))
      ∙ ap (λ r. r.0)
          (discover-collected (str_eq market "spot") holdings b (after_positions market since s))

  -- Finding the symbols of a market never throws, whatever the exchange does. No symbol is found
  -- twice, and a symbol is found exactly if it is not empty and one of these was consulted, answered
  -- and named it: the closed orders, where the exchange has them; the positions, for swaps and
  -- futures, where the exchange has them; the pairs of held assets, for the spot market.
  pub get_active_symbols-NoRepeats :
      (market : String) (since : Option ℕ) (s : Connector Net) (x : String)
      → (set : List String) × ((get_active_symbols lower pair_of numbers exchange exchange_name
            market since s).0
          ≡ ok set)
        × NoRepeats set
        × (includes set x ≡ (
            found_by exchange.has_closed_orders (closed_orders since s).0 x
            || found_by (has_positions_of market) (positions (after_orders since s)).0 x
            || found_by (str_eq market "spot") (holdings (after_positions market since s)).0 x))
  get_active_symbols-NoRepeats market since s x =
      let r1 = (closed_orders since s).0 in
      let r2 = (positions (after_orders since s)).0 in
      let r3 = (holdings (after_positions market since s)).0 in
      let a = collected exchange.has_closed_orders r1 [] in
      let b = collected (has_positions_of market) r2 a in
      (
        symbols market since s,
        get_active_symbols-collected market since s,
        collected-NoRepeats (str_eq market "spot") r3 b (
            collected-NoRepeats (has_positions_of market) r2 a
              (collected-NoRepeats exchange.has_closed_orders r1 [] tt)),
        includes-collected x (str_eq market "spot") r3 b
            ∙ ap (λ c. c || found_by (str_eq market "spot") r3 x)
                (includes-collected x (has_positions_of market) r2 a
                  ∙ ap (λ c. c || found_by (has_positions_of market) r2 x)
                      (includes-collected x exchange.has_closed_orders r1 [])),
      )
