-- ===== src/ConnectorCache/Tests.antt =====
-- Runs of the connector cache, and its theorems at concrete inputs.
use zero_knowledge_aggregato.Base.{
  ℕ, ◌≡◌, refl, String, Bool, true, List, [], ◌∷◌, none, some, ok, arith,
}
use zero_knowledge_aggregato.Factory.{Credentials, ccxt, create, is_crypto_exchange}
use zero_knowledge_aggregato.ConnectorCache.{
  Entry, Cache, get_or_create, generate_cache_key, evict_lru, cleanup_expired, custom_broker,
}
use zero_knowledge_aggregato.ConnectorCache.Bounds.{
  IsValid, Evicts, evict_lru-Evicts, CacheCall, get_connector, cleanup, run, run-IsValid,
}
use zero_knowledge_aggregato.ConnectorCache.Reuse.{get_or_create_again}

abbrev empty : Cache
empty = record {
  entries = [];
  stats = record { hits = 0; misses = 0; evictions = 0; current_size = 0 };
  created = 0;
}

empty-IsValid : IsValid empty
empty-IsValid = record { unique = tt; bounded = omega arith; sized = refl }

abbrev ann : Credentials
ann = record {
  user_uid = "ann";
  exchange = "okx";
  api_key = "k";
  api_secret = "s";
  passphrase = none;
}

abbrev hash16 : Credentials → String
hash16 c = c.api_key

abbrev same : String → String
same s = s

abbrev any : String → Bool
any s = true

abbrev entry : String → ℕ → Entry
entry key accessed = record {
  key = key;
  connector = record { instance_id = 0; kind = ccxt "okx" };
  expires = 100;
  created_at = 0;
  last_accessed = accessed;
  access_count = 1;
  exchange_type = custom_broker;
}

abbrev three : Cache
three = record empty { entries = entry "a" 5 ∷ entry "b" 2 ∷ entry "c" 2 ∷ [] }

cache : Unit {0}
unfolding get_or_create generate_cache_key create is_crypto_exchange evict_lru cleanup_expired
cache = tt

-- Of two entries that were accessed at the same time, the one that was stored first goes.
evicts_b : (evict_lru three).entries ≡ entry "a" 5 ∷ entry "c" 2 ∷ []
unfolding cache
evicts_b = refl

evict_lru-Evicts_example : Evicts three (evict_lru three)
evict_lru-Evicts_example = evict_lru-Evicts three (refl, (refl, (refl, tt))) (λ e. cc)

abbrev calls : List (CacheCall same any hash16)
calls = get_connector 10 "okx" ann none ∷ get_connector 20 "okx" ann none ∷ cleanup 9000000 ∷ []

run-IsValid_example : IsValid (run same any hash16 empty calls)
run-IsValid_example = run-IsValid same any hash16 empty calls empty-IsValid

get_or_create_again_example :
    (get_or_create same any hash16 60 "okx" ann none
      (get_or_create same any hash16 10 "okx" ann (some 51) empty).1).0
    ≡ ok (record { instance_id = 0; kind = ccxt "okx" })
unfolding cache
get_or_create_again_example =
    get_or_create_again same any hash16 10 60 "okx" ann (some 51) none empty
      (record { instance_id = 0; kind = ccxt "okx" }) empty-IsValid tt refl refl (omega arith)
