-- ===== src/Logger/Patterns.antt =====
-- src/utils/secure-enclave-logger.ts: the names of sensitive fields. The regular expressions are of
-- three forms, all without regard to case; the case of letters outside ASCII is left alone.
use zero_knowledge_aggregato.Base.{
  ℕ, ◌+◌, String, Bool, true, false, ◌&&◌, ◌||◌, Option, none, some, List, [], ◌∷◌, map, leb, ◌==◌,
  if◌then◌else◌,
}
use zero_knowledge_aggregato.Aggregator.Data.{Symbol, symbol}
use zero_knowledge_aggregato.Aggregator.Symbols.{starts_with, contains}

abbrev pub to_lower : ℕ → ℕ
to_lower c = if leb b'A' c && leb c b'Z' then c + 32 else c

-- /^a[-_]?b$/ is `whole` of a and b, /^a/ is `prefix` and /a/ is `anywhere`.
pub data Pattern : Type 0 where
  whole : List String → Pattern
  prefix : String → Pattern
  anywhere : String → Pattern

-- What is left of a text after a first part.
abbrev pub after : Symbol → Symbol → Option Symbol
after [] s = some s
after (p ∷ ps) [] = none
after (p ∷ ps) (c ∷ s) = if p == c then after ps s else none

abbrev pub skip_separator : Symbol → Symbol
skip_separator [] = []
skip_separator (c ∷ s) = if (c == b'-') || (c == b'_') then s else c ∷ s

-- No word begins with a separator, so an optional one is skipped whenever it is there.
abbrev pub matches_next : List String → Option Symbol → Bool
matches_next ws none = false
matches_next [] (some []) = true
matches_next [] (some (c ∷ s)) = false
matches_next (w ∷ ws) (some s) = matches_next ws (after (symbol w) (skip_separator s))

abbrev pub matches_whole : List String → Symbol → Bool
matches_whole [] s = matches_next [] (some s)
matches_whole (w ∷ ws) s = matches_next ws (after (symbol w) s)

abbrev pub matches : Symbol → Pattern → Bool
matches s (whole ws) = matches_whole ws (map to_lower s)
matches s (prefix w) = starts_with (symbol w) (map to_lower s)
matches s (anywhere w) = contains (symbol w) (map to_lower s)

abbrev pub matches_some : Symbol → List Pattern → Bool
matches_some s [] = false
matches_some s (p ∷ ps) = matches s p || matches_some s ps

abbrev pub one : String → Pattern
one w = whole (w ∷ [])

abbrev pub two : String → String → Pattern
two v w = whole (v ∷ w ∷ [])

abbrev pub tier1_sensitive_patterns : List Pattern
tier1_sensitive_patterns =
    two "api" "key"
    ∷ two "api" "secret"
    ∷ two "access" "key"
    ∷ two "secret" "key"
    ∷ one "password"
    ∷ one "passwd"
    ∷ one "pwd"
    ∷ one "token"
    ∷ two "access" "token"
    ∷ two "refresh" "token"
    ∷ two "bearer" "token"
    ∷ one "jwt"
    ∷ two "encryption" "key"
    ∷ two "private" "key"
    ∷ one "secret"
    ∷ one "auth"
    ∷ one "authorization"
    ∷ one "credentials"
    ∷ one "passphrase"
    ∷ anywhere "encrypted"
    ∷ []

abbrev pub tier2_business_patterns : List Pattern
tier2_business_patterns =
    two "user" "uid"
    ∷ two "user" "id"
    ∷ two "account" "id"
    ∷ two "customer" "id"
    ∷ one "exchange"
    ∷ two "exchange" "name"
    ∷ one "broker"
    ∷ one "platform"
    ∷ anywhere "balance"
    ∷ anywhere "equity"
    ∷ anywhere "amount"
    ∷ one "value"
    ∷ one "price"
    ∷ prefix "total"
    ∷ anywhere "pnl"
    ∷ anywhere "profit"
    ∷ anywhere "loss"
    ∷ anywhere "fee"
    ∷ anywhere "commission"
    ∷ anywhere "deposit"
    ∷ anywhere "withdrawal"
    ∷ prefix "trade"
    ∷ prefix "position"
    ∷ prefix "order"
    ∷ prefix "quantity"
    ∷ one "size"
    ∷ one "volume"
    ∷ one "synced"
    ∷ one "count"
    ∷ prefix "num"
    ∷ one "name"
    ∷ one "email"
    ∷ one "phone"
    ∷ one "address"
    ∷ one "ssn"
    ∷ two "tax" "id"
    ∷ []

unfoldable pub is_tier1_sensitive : Symbol → Bool
is_tier1_sensitive s = matches_some s tier1_sensitive_patterns

unfoldable pub is_tier2_sensitive : Symbol → Bool
is_tier2_sensitive s = matches_some s tier2_business_patterns

unfoldable pub should_redact_field : Symbol → Bool
unfolding is_tier1_sensitive is_tier2_sensitive
should_redact_field s = is_tier1_sensitive s || is_tier2_sensitive s
