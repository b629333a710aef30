-- ===== src/Ibkr/Connector/Days.antt =====
-- The figures of a day beside the trades of the report.
use zero_knowledge_aggregato.Base.{
  ℕ, ◌+◌, ◌≡◌, refl, sym, ap, ◌∙◌, inl, inr, String, Bool, true, false, ◌&&◌, List, [], ◌∷◌, keep,
  ◌==◌, str_eq, eq_iff, if◌then◌else◌, Bool-cases, arith,
}
use zero_knowledge_aggregato.Aggregator.Data.{Numbers, Object, lookup}
use zero_knowledge_aggregato.Ibkr.Reports.{FlexTrade}
use zero_knowledge_aggregato.Ibkr.Connector.{
  Category, stocks, options, futures_commodities, cfd, forex, Tally, DayMetrics, category_of,
  tally_of, change_tally, empty_tally, add_to_tally, add_trade, add_to_day, add_trades,
  group_trades_by_date, metrics_or_empty, create_empty_metrics,
}

abbrev pub place : Category → ℕ
place stocks = 0
place options = 1
place futures_commodities = 2
place cfd = 3
place forex = 4

abbrev pub is_in : Category → Category → Bool
is_in c d = place c == place d

tally_of-change :
    {Num : Type 0} (f : Tally Num → Tally Num) (c d : Category) (m : DayMetrics Num)
    → tally_of c (change_tally f d m) ≡ (if is_in c d then f (tally_of c m) else tally_of c m)
tally_of-change f c d m = ground arith

total-change :
    {Num : Type 0} (f : Tally Num → Tally Num) (d : Category) (m : DayMetrics Num)
    → (change_tally f d m).total ≡ m.total
total-change f d m = ground arith

tally_of-total :
    {Num : Type 0} (c : Category) (m : DayMetrics Num) (a : Tally Num)
    → tally_of c (record m { total = a }) ≡ tally_of c m
tally_of-total c m a = ground arith

other_date : (d u date : String) → str_eq d u ≡ false → str_eq d date ≡ true → str_eq u date ≡ false
other_date d u date e f = elim (Bool-cases (str_eq u date)) [
  | inl g ↦
      let same : d ≡ u = (eq_iff d date).0 f ∙ sym ((eq_iff u date).0 g) in cc ((eq_iff d u).1 same)
  | inr g ↦ g
]

module _ (numbers : Numbers) (abs : (numbers.Num) → numbers.Num) (upper : String → String) where
  open numbers use {Num}

  -- The trades of a list added up in their order.
  abbrev pub tally_from : Tally Num → List (FlexTrade Num) → Tally Num
  tally_from a [] = a
  tally_from a (t ∷ ts) = tally_from (add_to_tally numbers abs upper t a) ts

  abbrev pub tally_all : List (FlexTrade Num) → Tally Num
  tally_all = tally_from (empty_tally numbers abs upper)

  abbrev pub is_on : String → FlexTrade Num → Bool
  is_on date t = str_eq t.trade_date date

  abbrev pub is_of : String → Category → FlexTrade Num → Bool
  is_of date c t = is_on date t && is_in c (category_of upper t.asset_category)

  -- The figures of a day, empty where the map has none.
  abbrev pub figures : String → Object (DayMetrics Num) → DayMetrics Num
  figures date days = metrics_or_empty numbers abs upper (lookup date days)

  figures-add_to_day :
      (date : String) (t : FlexTrade Num) (days : Object (DayMetrics Num))
      → figures date (add_to_day numbers abs upper t days) ≡ (
          if is_on date t
          then add_trade numbers abs upper t (figures date days)
          else figures date days)
  figures-add_to_day date t [] = elim (Bool-cases (str_eq t.trade_date date)) [
    | inl e ↦ rw e refl
    | inr e ↦ rw e refl
  ]
  figures-add_to_day date t ((d, m) ∷ rest) = elim (Bool-cases (str_eq d t.trade_date)) [
    | inl e ↦
        let same : d ≡ t.trade_date = (eq_iff d t.trade_date).0 e in
        elim (Bool-cases (str_eq t.trade_date date)) [
          | inl f ↦ rw (e, same, f) refl
          | inr f ↦ rw (e, same, f) refl
        ]
    | inr e ↦ elim (Bool-cases (str_eq d date)) [
      | inl f ↦
          let same : d ≡ date = (eq_iff d date).0 f in
          let other : str_eq t.trade_date date ≡ false = other_date d t.trade_date date e f in
          rw (e, f, other) refl
      | inr f ↦ rw (e, f) (figures-add_to_day date t rest)
    ]
  ]

  category-add_trade :
      (c : Category) (t : FlexTrade Num) (m : DayMetrics Num)
      → tally_of c (add_trade numbers abs upper t m) ≡ (
          if is_in c (category_of upper t.asset_category)
          then add_to_tally numbers abs upper t (tally_of c m)
          else tally_of c m)
  category-add_trade c t m =
      let d = category_of upper t.asset_category in
      let n = change_tally (add_to_tally numbers abs upper t) d m in
      tally_of-total c n (add_to_tally numbers abs upper t n.total)
      ∙ tally_of-change (add_to_tally numbers abs upper t) c d m

  category-add_to_day :
      (date : String) (c : Category) (t : FlexTrade Num) (days : Object (DayMetrics Num))
      → tally_of c (figures date (add_to_day numbers abs upper t days)) ≡ (
          if is_of date c t
          then add_to_tally numbers abs upper t (tally_of c (figures date days))
          else tally_of c (figures date days))
  category-add_to_day date c t days = elim (Bool-cases (is_on date t)) [
    | inl e ↦ rw (figures-add_to_day date t days, e) (category-add_trade c t (figures date days))
    | inr e ↦ rw (figures-add_to_day date t days, e) refl
  ]

  category-add_trades :
      (date : String) (c : Category) (ts : List (FlexTrade Num)) (days : Object (DayMetrics Num))
      → tally_of c (figures date (add_trades numbers abs upper ts days))
        ≡ tally_from (tally_of c (figures date days)) (keep (is_of date c) ts)
  category-add_trades date c [] days = refl
  category-add_trades date c (t ∷ ts) days =
      let next = category-add_trades date c ts (add_to_day numbers abs upper t days) in
      let one = category-add_to_day date c t days in
      elim (Bool-cases (is_of date c t)) [
        | inl e ↦ next ∙ rw (one, e) refl
        | inr e ↦ next ∙ rw (one, e) refl
      ]

  total-add_to_day :
      (date : String) (t : FlexTrade Num) (days : Object (DayMetrics Num))
      → (figures date (add_to_day numbers abs upper t days)).total ≡ (
          if is_on date t
          then add_to_tally numbers abs upper t (figures date days).total
          else (figures date days).total)
  total-add_to_day date t days = elim (Bool-cases (is_on date t)) [
    | inl e ↦
        rw (figures-add_to_day date t days, e)
          (ap (add_to_tally numbers abs upper t) (
            total-change (add_to_tally numbers abs upper t) (category_of upper t.asset_category)
              (figures date days)))
    | inr e ↦ rw (figures-add_to_day date t days, e) refl
  ]

  total-add_trades :
      (date : String) (ts : List (FlexTrade Num)) (days : Object (DayMetrics Num))
      → (figures date (add_trades numbers abs upper ts days)).total
        ≡ tally_from (figures date days).total (keep (is_on date) ts)
  total-add_trades date [] days = refl
  total-add_trades date (t ∷ ts) days =
      let next = total-add_trades date ts (add_to_day numbers abs upper t days) in
      let one = total-add_to_day date t days in
      elim (Bool-cases (is_on date t)) [
        | inl e ↦ next ∙ rw (one, e) refl
        | inr e ↦ next ∙ rw (one, e) refl
      ]

  -- The counts of the categories, and the trades of a day by category.
  abbrev pub counts_of : DayMetrics Num → ℕ
  counts_of m =
      m.stocks_tally.count + m.options_tally.count + m.futures_commodities_tally.count
      + m.cfd_tally.count + m.forex_tally.count

  counts-add_trade :
      (t : FlexTrade Num) (m : DayMetrics Num)
      → counts_of m ≡ m.total.count
      → counts_of (add_trade numbers abs upper t m) ≡ (add_trade numbers abs upper t m).total.count
  counts-add_trade t m e = ground (arith, e)

  counts-add_trades :
      (date : String) (ts : List (FlexTrade Num)) (days : Object (DayMetrics Num))
      → counts_of (figures date days) ≡ (figures date days).total.count
      → let m = figures date (add_trades numbers abs upper ts days) in counts_of m ≡ m.total.count
  counts-add_trades date [] days e = e
  counts-add_trades date (t ∷ ts) days e =
      counts-add_trades date ts (add_to_day numbers abs upper t days)
        (elim (Bool-cases (is_on date t)) [
          | inl f ↦
              rw (figures-add_to_day date t days, f) (counts-add_trade t (figures date days) e)
          | inr f ↦ rw (figures-add_to_day date t days, f) e
        ])

  -- For each day and category, the volume, the number and the fees that the map gives are those of the
  -- report's trades of that day and category, added up in the report's order; the total is that of all
  -- the day's trades, and its number is the sum of the categories' numbers. A day that the map does not
  -- have counts as empty.
  pub group_trades_by_date-tally_all :
      (date : String) (ts : List (FlexTrade Num))
      → let m = figures date (group_trades_by_date numbers abs upper ts) in
        ((c : Category) → tally_of c m ≡ tally_all (keep (is_of date c) ts))
        × (m.total ≡ tally_all (keep (is_on date) ts))
        × (counts_of m ≡ m.total.count)
  unfolding group_trades_by_date
  group_trades_by_date-tally_all date ts = (
    λ c.
        category-add_trades date c ts []
        ∙ ap (λ a. tally_from a (keep (is_of date c) ts)) (empty-tally c),
    total-add_trades date ts [],
    counts-add_trades date ts [] refl,
  )
    where
      empty-tally :
          (c : Category)
          → tally_of c (create_empty_metrics numbers abs upper) ≡ empty_tally numbers abs upper
      empty-tally c = ground arith
