-- ===== src/ConnectorCache.antt =====
-- src/core/services/universal-connector-cache.service.ts: the cache of connectors. The JavaScript
-- map is the list of its entries in insertion order. Times are milliseconds and `Date.now()` is an
-- argument. A connector is the number of its creation with its kind, so that two instances differ.
-- The hash in the key, the factory's parameters and the number behind `totalMemoryMB` (a multiple of
-- the size) are left to the caller; the timer that calls `cleanupExpired` is a call from outside.
pub mod Store
pub mod Bounds
pub mod Reuse
pub mod Tests
use Prim.Native.String
use zero_knowledge_aggregato.Base.{
  ℕ, ◌+◌, ◌*◌, String, Bool, true, false, not, Option, none, some, List, [], ◌∷◌, length, keep,
  find, count_if, ltb, leb, ◌==◌, str_eq, if◌then◌else◌, Result, ok, err, Act, pure, lift, get, put,
  ◌>>=◌, ◌>>◌,
}
use zero_knowledge_aggregato.Prisma.{upsert_rows}
use zero_knowledge_aggregato.Factory.{Credentials, Kind, create, is_crypto_exchange}

pub record Connector : Type 0 where
  pub instance_id : ℕ
  pub kind : Kind

pub data ExchangeType : Type 0 where
  ccxt_type custom_broker : ExchangeType

-- An entry of the map: its key and the fields of CachedConnector.
pub record Entry : Type 0 where
  pub key : String
  pub connector : Connector
  pub expires : ℕ
  pub created_at : ℕ
  pub last_accessed : ℕ
  pub access_count : ℕ
  pub exchange_type : ExchangeType

pub record CacheStats : Type 0 where
  pub hits : ℕ
  pub misses : ℕ
  pub evictions : ℕ
  pub current_size : ℕ

pub record Cache : Type 0 where
  pub entries : List Entry
  pub stats : CacheStats
  pub created : ℕ

abbrev pub default_ttl_ms : ℕ
default_ttl_ms = 60 * 60 * 1000

abbrev pub max_cache_size : ℕ
max_cache_size = 500

abbrev pub has_key : String → Entry → Bool
has_key k e = str_eq e.key k

-- `map.set`: a key that is there keeps its place.
abbrev pub set_entry : Entry → List Entry → List Entry
set_entry new = upsert_rows (has_key new.key) (λ e. record new { key = e.key }) new

abbrev pub delete_entry : String → List Entry → List Entry
delete_entry k = keep (λ e. not (has_key k e))

-- The loop of `evictLRU`: the key and time of the oldest access so far; `none` is Infinity.
abbrev pub older : Entry → Option (String × ℕ) → Option (String × ℕ)
older e none = some (e.key, e.last_accessed)
older e (some (k, t)) = if ltb e.last_accessed t then some (e.key, e.last_accessed) else some (k, t)

abbrev pub oldest_from : Option (String × ℕ) → List Entry → Option (String × ℕ)
oldest_from best [] = best
oldest_from best (e ∷ es) = oldest_from (older e best) es

abbrev pub count_eviction : CacheStats → CacheStats
count_eviction s = record s { evictions = s.evictions + 1 }

abbrev pub evict : Option (String × ℕ) → Cache → Cache
evict none c = c
evict (some (k, t)) c = record c {
  entries = delete_entry k c.entries;
  stats = count_eviction c.stats;
}

-- A key is never the empty text, which the source tests for too.
unfoldable pub evict_lru : Cache → Cache
evict_lru c = evict (oldest_from none c.entries) c

abbrev pub refresh_size : Cache → Cache
refresh_size c = record c { stats = record c.stats { current_size = length c.entries } }

abbrev pub is_expired : ℕ → Entry → Bool
is_expired now e = leb e.expires now

unfoldable pub cleanup_expired : ℕ → Cache → Cache
cleanup_expired now c =
    let kept = record c { entries = keep (λ e. not (is_expired now e)) c.entries } in
    if count_if (is_expired now) c.entries == 0 then kept else refresh_size kept

unfoldable pub get_stats : Cache → CacheStats
get_stats c = (refresh_size c).stats

unfoldable pub clear : Cache → Cache
clear c = record c { entries = []; stats = record c.stats { current_size = 0 } }

abbrev pub touch : ℕ → Entry → Entry
touch now e = record e { last_accessed = now; access_count = e.access_count + 1 }

abbrev pub count_hit : Cache → Cache
count_hit c = record c { stats = record c.stats { hits = c.stats.hits + 1 } }

abbrev pub count_miss : Cache → Cache
count_miss c = record c { stats = record c.stats { misses = c.stats.misses + 1 } }

-- `ttlMs || DEFAULT_TTL_MS`
abbrev pub ttl_or_default : Option ℕ → ℕ
ttl_or_default none = default_ttl_ms
ttl_or_default (some ttl) = if ttl == 0 then default_ttl_ms else ttl

-- The entry that is fit to use.
abbrev pub live : ℕ → Option Entry → Option Entry
live now none = none
live now (some e) = if ltb now e.expires then some e else none

abbrev pub enforce_size : Cache → Cache
enforce_size c = if ltb max_cache_size (length c.entries) then evict_lru c else c

module _ (lower : String → String) (ccxt_has : String → Bool)
    (cred_hash : Credentials → String) where
  unfoldable pub generate_cache_key : String → Credentials → String
  generate_cache_key exchange c =
      String.◌++◌ exchange
        (String.◌++◌ ":" (String.◌++◌ c.user_uid (String.◌++◌ ":" (cred_hash c))))

  abbrev pub exchange_type_of : String → ExchangeType
  exchange_type_of exchange =
      if is_crypto_exchange lower ccxt_has exchange then ccxt_type else custom_broker

  abbrev pub new_entry : ℕ → String → String → ℕ → Connector → Entry
  new_entry now key exchange ttl connector = record {
    key = key;
    connector = connector;
    expires = now + ttl;
    created_at = now;
    last_accessed = now;
    access_count = 1;
    exchange_type = exchange_type_of exchange;
  }

  abbrev pub with_new : ℕ → String → String → ℕ → Kind → Cache → Cache
  with_new now key exchange ttl kind c =
      let connector : Connector = record { instance_id = c.created; kind = kind } in
      record c {
        entries = set_entry (new_entry now key exchange ttl connector) c.entries;
        created = c.created + 1;
      }

  -- What the rest of a miss does with the kind that the factory gave.
  abbrev pub store_new : ℕ → String → String → ℕ → Kind → Cache → Cache
  store_new now key exchange ttl kind c =
      refresh_size (enforce_size (with_new now key exchange ttl kind c))

  abbrev pub finish_miss : ℕ → String → String → ℕ → Cache → Result Kind → Result Connector × Cache
  finish_miss now key exchange ttl c (err e) = (err e, c)
  finish_miss now key exchange ttl c (ok kind) =
      (ok (record { instance_id = c.created; kind = kind }), store_new now key exchange ttl kind c)

  abbrev pub serve :
      ℕ → String → String → Credentials → ℕ → Cache → Option Entry → Result Connector × Cache
  serve now key exchange credentials ttl c (some e) = (
    ok e.connector,
    count_hit (record c { entries = upsert_rows (has_key key) (touch now) e c.entries }),
  )
  serve now key exchange credentials ttl c none =
      finish_miss now key exchange ttl (count_miss c) (create lower ccxt_has credentials)

  unfoldable pub get_or_create : ℕ → String → Credentials → Option ℕ → Act Cache Connector
  unfolding generate_cache_key
  get_or_create now exchange credentials ttl c =
      let key = generate_cache_key exchange credentials in
      serve now key exchange credentials (ttl_or_default ttl) c
        (live now (find (has_key key) c.entries))
