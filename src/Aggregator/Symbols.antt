-- ===== src/Aggregator/Symbols.antt =====
-- src/services/equity-snapshot-aggregator.ts, `matchesMarketType`: the market of a trade by the
-- characters of its symbol. `toUpperCase` is that of ASCII letters.
use zero_knowledge_aggregato.Base.{
  ◌≡◌, refl, arith, ℕ, ◌+◌, ◌-◌, String, Bool, true, false, ◌&&◌, ◌||◌, not, [], ◌∷◌, map, leb,
  ◌==◌, str_eq, if◌then◌else◌,
}
use zero_knowledge_aggregato.Aggregator.Data.{Symbol, symbol}

abbrev pub to_upper : ℕ → ℕ
to_upper c = if leb b'a' c && leb c b'z' then c - 32 else c

abbrev pub starts_with : Symbol → Symbol → Bool
starts_with [] s = true
starts_with (p ∷ ps) [] = false
starts_with (p ∷ ps) (c ∷ s) = (p == c) && starts_with ps s

abbrev pub contains : Symbol → Symbol → Bool
contains p [] = starts_with p []
contains p (c ∷ s) = starts_with p (c ∷ s) || contains p s

abbrev pub is_digit : ℕ → Bool
is_digit c = leb b'0' c && leb c b'9'

-- /\d{6}/, after `n` digits in a row.
abbrev pub six_digits_from : ℕ → Symbol → Bool
six_digits_from n [] = leb 6 n
six_digits_from n (c ∷ s) = leb 6 n || six_digits_from (if is_digit c then n + 1 else 0) s

abbrev pub has_date : Symbol → Bool
has_date = six_digits_from 0

abbrev pub is_perpetual : Symbol → Bool
is_perpetual s = contains (symbol "PERP") s || contains (symbol "SWAP") s

abbrev pub is_settled_usd : Symbol → Bool
is_settled_usd s = contains (symbol ":USDT") s || contains (symbol ":USD") s

abbrev pub is_option : Symbol → Bool
is_option s = contains (symbol "-C") s || contains (symbol "-P") s

abbrev pub is_swap : Symbol → Bool
is_swap s = is_perpetual s || is_settled_usd s || contains (symbol ":BUSD") s

abbrev pub is_spot : Symbol → Bool
is_spot s = not (is_perpetual s) && not (is_settled_usd s) && not (has_date s) && not (is_option s)

abbrev pub is_future : Symbol → Bool
is_future s = has_date s && not (is_option s)

unfoldable pub matches_market_type : Symbol → String → Bool
matches_market_type name market =
    let s = map to_upper name in
    if str_eq market "swap"
    then is_swap s
    else if str_eq market "future"
    then is_future s
    else if str_eq market "options"
    then is_option s
    else if str_eq market "spot" || str_eq market "margin"
    then is_spot s
    else true

abbrev pub same_symbol : Symbol → Symbol → Bool
same_symbol [] [] = true
same_symbol (c ∷ s) (d ∷ r) = (c == d) && same_symbol s r
same_symbol [] (d ∷ r) = false
same_symbol (c ∷ s) [] = false

pub same_symbol_self : (s : Symbol) → same_symbol s s ≡ true
same_symbol_self [] = refl
same_symbol_self (c ∷ s) = ground (arith, same_symbol_self s)

pub same_symbol_eq : (a b : Symbol) → same_symbol a b ≡ true → a ≡ b
same_symbol_eq [] [] e = refl
same_symbol_eq [] (d ∷ b) e = cc
same_symbol_eq (c ∷ a) [] e = cc
same_symbol_eq (c ∷ a) (d ∷ b) e = ground (arith, same_symbol_eq a b, e)
