-- ===== src/ConnectorCache/Bounds.antt =====
-- The cache stays within its size, whatever calls are made.
use mathlib.Core.List.{Memᴰ}
use zero_knowledge_aggregato.Base.{
  ℕ, ◌+◌, ◌≤◌, ◌≡◌, ◌≢◌, refl, inl, inr, String, Bool, not, Option, none, some, List, [], ◌∷◌,
  length, keep, find, ltb, str_eq, eq_iff, All, Bool-cases, Option-cases, arith, length-keep-not,
  find-true, sym, ◌∙◌, Result, ok, err, ap,
}
use zero_knowledge_aggregato.Prisma.{upsert_rows}
use zero_knowledge_aggregato.Prisma.Keyed.{keep-IsUnique, upsert-IsUnique}
use zero_knowledge_aggregato.Factory.{Credentials, Kind, create}
use zero_knowledge_aggregato.ConnectorCache.{
  Entry, Cache, has_key, delete_entry, oldest_from, evict_lru, refresh_size, is_expired,
  cleanup_expired, clear, touch, live, enforce_size, max_cache_size, get_or_create,
  generate_cache_key, finish_miss, with_new, count_miss, ttl_or_default,
}
use zero_knowledge_aggregato.ConnectorCache.Store.{
  key_of, EntriesUnique, length-set_entry, length-upsert_found, length-delete, set_entry_unique,
  oldest_from-mem, oldest_from-le, oldest_from-total, find-ne-none_of_mem,
}

-- Each key has one entry, there are at most 500, and the size in the statistics is the true one.
pub record IsValid (c : Cache) : Type 0 where
  pub unique : EntriesUnique c.entries
  pub bounded : length c.entries ≤ max_cache_size
  pub sized : c.stats.current_size ≡ length c.entries

-- What an eviction removes: one entry, and no other was accessed before it.
pub record Evicts (c after : Cache) : Type 0 where
  pub victim : Entry
  pub cached : Memᴰ victim c.entries
  pub oldest : All (λ e. victim.last_accessed ≤ e.last_accessed) c.entries
  pub removed : after.entries ≡ delete_entry victim.key c.entries
  pub one_less : length after.entries + 1 ≡ length c.entries
  pub counted : after.stats.evictions ≡ c.stats.evictions + 1

evict_found :
    (c : Cache) (k : String) (t : ℕ)
    → EntriesUnique c.entries
    → oldest_from none c.entries ≡ some (k, t)
    → Evicts c (evict_lru c)
unfolding evict_lru
evict_found c k t u found = elim (oldest_from-mem none c.entries k t found) [
  | inl e ↦ absurd (cc e)
  | inr (e, m, same, time) ↦ rw found (record {
    victim = e;
    cached = m;
    oldest = rw time (oldest_from-le none c.entries k t found).1;
    removed = rw same;
    one_less = length-delete k c.entries u (find-ne-none_of_mem c.entries k m same);
    counted = refl;
  })
]

-- In a cache with an entry, eviction removes exactly one entry, the least recently accessed.
pub evict_lru-Evicts :
    (c : Cache) → EntriesUnique c.entries → c.entries ≢ [] → Evicts c (evict_lru c)
evict_lru-Evicts c u ne = go c.entries refl
  where
    go : (es : List Entry) → c.entries ≡ es → Evicts c (evict_lru c)
    go [] e = absurd (ne e)
    go (x ∷ es) e = let ((k, t), found) = oldest_from-total x es in evict_found c k t u (rw e found)

-- A cache that is at most one entry too large fits after the size is enforced.
enforced :
    (c : Cache)
    → EntriesUnique c.entries
    → length c.entries ≤ max_cache_size + 1
    → EntriesUnique (enforce_size c).entries × (length (enforce_size c).entries ≤ max_cache_size)
enforced c u h = elim (Bool-cases (ltb max_cache_size (length c.entries))) [
  | inl large ↦
      let e = evict_lru-Evicts c u (λ empty. ground (arith, ap length empty)) in
      rw large
        (rw e.removed (keep-IsUnique key_of str_eq eq_iff _ c.entries u), omega (arith, e.one_less))
  | inr small ↦ rw small (u, ground arith)
]

refreshed-IsValid :
    (c : Cache)
    → EntriesUnique c.entries × (length c.entries ≤ max_cache_size)
    → IsValid (refresh_size c)
refreshed-IsValid c (u, h) = record { unique = u; bounded = h; sized = refl }

kept-IsValid : (now : ℕ) (c : Cache) → IsValid c → IsValid (cleanup_expired now c)
unfolding cleanup_expired
kept-IsValid now c v =
    let kept : EntriesUnique (keep (λ e. not (is_expired now e)) c.entries) =
      keep-IsUnique key_of str_eq eq_iff _ c.entries v.unique in
    ground (arith, kept, length-keep-not (is_expired now) c.entries, v.bounded, v.sized)

module _ (lower : String → String) (ccxt_has : String → Bool)
    (cred_hash : Credentials → String) where
  touched-IsValid :
      (now : ℕ) (key : String) (e : Entry) (c : Cache)
      → IsValid c
      → find (has_key key) c.entries ≡ some e
      → IsValid (record c {
        entries = upsert_rows (has_key key) (touch now) e c.entries;
        stats = record c.stats { hits = c.stats.hits + 1 };
      })
  touched-IsValid now key e c v found =
      let same = length-upsert_found (has_key key) (touch now) e e c.entries found in
      record {
        unique =
            upsert-IsUnique key_of str_eq eq_iff key (touch now) e c.entries (λ x. refl)
              ((eq_iff _ _).0 (find-true (has_key key) c.entries found)) v.unique;
        bounded = omega (arith, same, v.bounded);
        sized = v.sized ∙ sym same;
      }

  finish_miss-IsValid :
      (now : ℕ) (key exchange : String) (ttl : ℕ) (c : Cache) (r : Result Kind)
      → IsValid c
      → IsValid (finish_miss lower ccxt_has cred_hash now key exchange ttl c r).1
  finish_miss-IsValid now key exchange ttl c (err e) v = v
  finish_miss-IsValid now key exchange ttl c (ok kind) v =
      let c' = with_new lower ccxt_has cred_hash now key exchange ttl kind c in
      refreshed-IsValid (enforce_size c') (
        enforced c' (set_entry_unique _ c.entries v.unique)
          (omega (arith, length-set_entry _ c.entries, v.bounded)))

  live-eq-some : (now : ℕ) (o : Option Entry) (e : Entry) → live now o ≡ some e → o ≡ some e
  live-eq-some now none e h = cc
  live-eq-some now (some x) e h = ground arith

  pub get_or_create-IsValid :
      (now : ℕ) (exchange : String) (credentials : Credentials) (ttl : Option ℕ) (c : Cache)
      → IsValid c
      → IsValid (get_or_create lower ccxt_has cred_hash now exchange credentials ttl c).1
  unfolding get_or_create
  get_or_create-IsValid now exchange credentials ttl c v =
      let key = generate_cache_key lower ccxt_has cred_hash exchange credentials in
      elim (Option-cases (live now (find (has_key key) c.entries))) [
        | inl missing ↦ rw missing (
            finish_miss-IsValid now key exchange (ttl_or_default ttl) (count_miss c)
              (create lower ccxt_has credentials)
              (record { unique = v.unique; bounded = v.bounded; sized = v.sized }))
        | inr (e, hit) ↦
            rw hit (
              touched-IsValid now key e c v (live-eq-some now (find (has_key key) c.entries) e hit))
      ]

  -- The calls that change the cache, with the time at which they are made.
  pub data CacheCall : Type 0 where
    get_connector : ℕ → String → Credentials → Option ℕ → CacheCall
    cleanup : ℕ → CacheCall
    clear_all : CacheCall

  pub step : Cache → CacheCall → Cache
  step c (get_connector now exchange credentials ttl) =
      (get_or_create lower ccxt_has cred_hash now exchange credentials ttl c).1
  step c (cleanup now) = cleanup_expired now c
  step c clear_all = clear c

  pub run : Cache → List CacheCall → Cache
  run c [] = c
  run c (x ∷ xs) = run (step c x) xs

  step-IsValid : (c : Cache) (x : CacheCall) → IsValid c → IsValid (step c x)
  unfolding step clear
  step-IsValid c (get_connector now exchange credentials ttl) v =
      get_or_create-IsValid now exchange credentials ttl c v
  step-IsValid c (cleanup now) v = kept-IsValid now c v
  step-IsValid c clear_all v = record { unique = tt; bounded = omega arith; sized = refl }

  -- After any calls, at any times and with factories that may throw, each key has one entry, there
  -- are at most 500 entries, and the statistics give the true size, if it was so before.
  pub run-IsValid : (c : Cache) (xs : List CacheCall) → IsValid c → IsValid (run c xs)
  unfolding run
  run-IsValid c [] v = v
  run-IsValid c (x ∷ xs) v = run-IsValid (step c x) xs (step-IsValid c x v)
