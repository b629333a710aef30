-- ===== src/Server/Schemas.antt =====
-- src/validation/grpc-schemas.ts: the schemas of the requests as tests. `units` gives the UTF-16 code
-- units of a text, in which JavaScript counts a length and matches a regular expression; the texts of
-- the refusals, which zod writes, are left out.
use zero_knowledge_aggregato.Base.{
  ℕ, zero, suc, ◌+◌, ◌-◌, ◌*◌, String, Bool, true, false, ◌&&◌, ◌||◌, Option, none, some, List, [],
  ◌∷◌, map, ltb, leb, ◌==◌, if◌then◌else◌, length,
}
use zero_knowledge_aggregato.Aggregator.Data.{Symbol, symbol}
use zero_knowledge_aggregato.Aggregator.Symbols.{is_digit}
use zero_knowledge_aggregato.Logger.Patterns.{to_lower, after}

abbrev pub every : (ℕ → Bool) → Symbol → Bool
every p [] = true
every p (c ∷ s) = p c && every p s

abbrev pub is_letter : ℕ → Bool
is_letter c = leb b'a' c && leb c b'z'

abbrev pub is_alphanumeric : ℕ → Bool
is_alphanumeric c = is_letter c || is_digit c

abbrev pub is_hex : ℕ → Bool
is_hex c = is_digit c || (leb b'a' c && leb c b'f')

-- `[…]{low,high}$` after a prefix that was there.
abbrev pub ends_in : ℕ → ℕ → Option Symbol → Bool
ends_in low high none = false
ends_in low high (some s) = leb low (length s) && leb (length s) high && every is_alphanumeric s

-- `[0-9a-f]{n}`, and `-`.
abbrev pub take_hex : ℕ → Symbol → Option Symbol
take_hex zero s = some s
take_hex (suc n) [] = none
take_hex (suc n) (c ∷ s) = if is_hex c then take_hex n s else none

abbrev pub skip_dash : Option Symbol → Option Symbol
skip_dash none = none
skip_dash (some []) = none
skip_dash (some (c ∷ s)) = if c == b'-' then some s else none

abbrev pub then_groups : (Symbol → Bool) → Option Symbol → Bool
then_groups rest none = false
then_groups rest (some s) = rest s

-- Groups of hexadecimal digits with a dash after each but the last.
abbrev pub hex_groups : List ℕ → Symbol → Bool
hex_groups [] [] = true
hex_groups [] (c ∷ s) = false
hex_groups (n ∷ []) s = then_groups (hex_groups []) (take_hex n s)
hex_groups (n ∷ m ∷ ns) s = then_groups (hex_groups (m ∷ ns)) (skip_dash (take_hex n s))

-- The three alternatives, without regard to case, of a text in lower case.
abbrev pub is_clerk_id : Symbol → Bool
is_clerk_id s = ends_in 10 50 (after (symbol "user_") s)

abbrev pub is_uuid : Symbol → Bool
is_uuid = hex_groups (8 ∷ 4 ∷ 4 ∷ 4 ∷ 12 ∷ [])

abbrev pub is_cuid : Symbol → Bool
is_cuid s = ends_in 20 30 (after (symbol "c") s)

abbrev pub is_user_uid : Symbol → Bool
is_user_uid s = is_clerk_id s || is_uuid s || is_cuid s

-- `z.string().min(low).max(high)`
abbrev pub of_length : ℕ → ℕ → Symbol → Bool
of_length low high s = leb low (length s) && leb (length s) high

unfoldable pub user_uid_schema : Symbol → Bool
user_uid_schema s = of_length 1 100 s && is_user_uid (map to_lower s)

abbrev pub is_exchange_unit : ℕ → Bool
is_exchange_unit c = is_alphanumeric c || (c == b'_') || (c == b'-')

unfoldable pub exchange_schema : Symbol → Bool
exchange_schema s = of_length 1 50 s && every is_exchange_unit s

-- `schema.optional()`
abbrev pub optional : {A : Type 0} → (A → Bool) → Option A → Bool
optional p none = true
optional p (some a) = p a

abbrev pub parse_int : ℕ → Symbol → ℕ
parse_int n [] = n
parse_int n (c ∷ s) = parse_int (n * 10 + (c - b'0')) s

-- Digits, whose number is what the schema returns, if it is positive and at most a day ahead. A number
-- over 2^53, which JavaScript would round, is over the limit either way.
unfoldable pub timestamp_schema : ℕ → Symbol → Option ℕ
timestamp_schema now s =
    if leb 1 (length s)
      && every is_digit s
      && ltb 0 (parse_int 0 s)
      && ltb (parse_int 0 s) (now + 86400000)
    then some (parse_int 0 s)
    else none

abbrev pub sync_types : List String
sync_types = "INCREMENTAL" ∷ "HISTORICAL" ∷ "FULL" ∷ "incremental" ∷ "historical" ∷ "full" ∷ []

abbrev pub five_years : ℕ
five_years = 5 * 365 * 24 * 60 * 60 * 1000

-- The two refinements of a range, of which no end is 0.
abbrev pub is_range : Option ℕ → Option ℕ → Bool
is_range (some start) (some end) = ltb start end && leb (end - start) five_years
is_range start end = true
