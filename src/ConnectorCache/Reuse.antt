-- ===== src/ConnectorCache/Reuse.antt =====
-- A connector that was created is the one that the next calls get.
use zero_knowledge_aggregato.Base.{
  ℕ, ◌+◌, ◌≤◌, ◌<◌, ◌≡◌, ◌≢◌, refl, inl, inr, String, Bool, Option, none, some, List, [], ◌∷◌, ◌++◌,
  length, find, ltb, All, All-mem, Bool-cases, Option-cases, arith, Result, ok, err, ap, sym,
  ok-injective, ◌∙◌,
}
use zero_knowledge_aggregato.Factory.{Credentials, Kind, create}
use zero_knowledge_aggregato.ConnectorCache.{
  Connector, Entry, Cache, has_key, set_entry, oldest_from, older, evict_lru, live, enforce_size,
  max_cache_size, get_or_create, generate_cache_key, with_new, new_entry, ttl_or_default,
  count_miss, store_new,
}
use zero_knowledge_aggregato.ConnectorCache.Store.{
  EntriesUnique, length-upsert_found, upsert-append, set_entry_unique, find-set_entry,
  find-delete_other, oldest_from-mem, oldest_from-total, oldest_from-append, find-ne-none_of_mem,
}
use zero_knowledge_aggregato.ConnectorCache.Bounds.{IsValid}

-- No entry was accessed after `now`: the clock does not go back.
abbrev pub AccessedBy : ℕ → List Entry → Type 0
AccessedBy now = All (λ e. e.last_accessed ≤ now)

older_keeps :
    (new : Entry) (k : String) (t : ℕ)
    → t ≤ new.last_accessed
    → older new (some (k, t)) ≡ some (k, t)
older_keeps new k t h = ground arith

-- Among entries that were accessed earlier, the newest is not the one to go.
victim_among_old :
    (new : Entry) (es : List Entry)
    → es ≢ []
    → AccessedBy new.last_accessed es
    → find (has_key new.key) es ≡ none
    → (k : String) × (t : ℕ) × (oldest_from none (es ++ new ∷ []) ≡ some (k, t)) × (new.key ≢ k)
victim_among_old new [] ne h absent = absurd (ne refl)
victim_among_old new (x ∷ xs) ne h absent =
    let ((k, t), found) = oldest_from-total x xs in
    elim (oldest_from-mem none (x ∷ xs) k t found) [
      | inl e ↦ absurd (cc e)
      | inr (e, m, same, time) ↦ (
        k,
        t,
        oldest_from-append none (x ∷ xs) new
            ∙ ap (older new) found
            ∙ older_keeps new k t (rw (← time) (All-mem _ (x ∷ xs) m h)),
        λ own. find-ne-none_of_mem (x ∷ xs) new.key m (same ∙ sym own) absent,
      )
    ]

-- Enforcing the size never removes the entry that was just written.
find-enforce_size :
    (c : Cache) (es : List Entry) (new : Entry)
    → c.entries ≡ set_entry new es
    → EntriesUnique es
    → length es ≤ max_cache_size
    → AccessedBy new.last_accessed es
    → find (has_key new.key) (enforce_size c).entries ≡ some new
unfolding evict_lru
find-enforce_size c es new e u bounded h =
    elim (Bool-cases (ltb max_cache_size (length c.entries))) [
      | inr small ↦ rw (small, e) (find-set_entry new es)
      | inl large ↦ elim (Option-cases (find (has_key new.key) es)) [
        | inr (old, found) ↦ absurd (
            ground (
              arith,
              ap length e,
              length-upsert_found (has_key new.key) (λ x. record new { key = x.key }) new old es
                  found,
            ))
        | inl absent ↦
            let (k, t, victim, ne) =
              victim_among_old new es (λ empty. ground (arith, ap length e, ap length empty)) h
                absent in
            let appended =
              upsert-append (has_key new.key) (λ x. record new { key = x.key }) new es absent in
            rw (large, e, appended, victim, ← appended)
              (find-delete_other new.key k (set_entry new es) (set_entry_unique new es u) new
                (find-set_entry new es) ne)
      ]
    ]

module _ (lower : String → String) (ccxt_has : String → Bool)
    (cred_hash : Credentials → String) where
  live_before :
      (later : ℕ) (o : Option Entry) (e : Entry)
      → o ≡ some e
      → later < e.expires
      → live later o ≡ some e
  live_before later none e h lt = cc
  live_before later (some x) e h lt = ground arith

  hit_result :
      (later : ℕ) (exchange : String) (credentials : Credentials) (ttl : Option ℕ) (c : Cache)
      (e : Entry)
      → find (has_key (generate_cache_key lower ccxt_has cred_hash exchange credentials)) c.entries
        ≡ some e
      → later < e.expires
      → (get_or_create lower ccxt_has cred_hash later exchange credentials ttl c).0 ≡ ok e.connector
  unfolding get_or_create
  hit_result later exchange credentials ttl c e found lt = rw (live_before later _ e found lt)

  miss_result :
      (now : ℕ) (exchange : String) (credentials : Credentials) (ttl : Option ℕ) (c : Cache)
      (r : Result Kind) (connector : Connector)
      → live now (
          find
            (has_key (generate_cache_key lower ccxt_has cred_hash exchange credentials))
            c.entries)
        ≡ none
      → create lower ccxt_has credentials ≡ r
      → (get_or_create lower ccxt_has cred_hash now exchange credentials ttl c).0 ≡ ok connector
      → (kind : Kind) × (connector ≡ record { instance_id = c.created; kind = kind })
        × ((get_or_create lower ccxt_has cred_hash now exchange credentials ttl c).1
            ≡ store_new lower ccxt_has cred_hash now
                (generate_cache_key lower ccxt_has cred_hash exchange credentials)
                exchange
                (ttl_or_default ttl)
                kind
                (count_miss c))
  unfolding get_or_create
  miss_result now exchange credentials ttl c (err x) connector missing made h =
      absurd (cc (rw (missing, made) at h))
  miss_result now exchange credentials ttl c (ok kind) connector missing made h =
      (kind, sym (ok-injective (rw (missing, made) at h)), rw (missing, made))

  hit_after_store :
      (now later : ℕ) (exchange : String) (credentials : Credentials) (ttl : ℕ) (ttl' : Option ℕ)
      (kind : Kind) (c : Cache)
      → EntriesUnique c.entries
      → length c.entries ≤ max_cache_size
      → AccessedBy now c.entries
      → later < now + ttl
      → (get_or_create lower ccxt_has cred_hash later exchange credentials ttl' (
          store_new lower ccxt_has cred_hash now
            (generate_cache_key lower ccxt_has cred_hash exchange credentials)
            exchange
            ttl
            kind
            c)).0
        ≡ ok (record { instance_id = c.created; kind = kind })
  hit_after_store now later exchange credentials ttl ttl' kind c u bounded clock lt =
      let key = generate_cache_key lower ccxt_has cred_hash exchange credentials in
      let new =
        new_entry lower ccxt_has cred_hash now key exchange ttl
          (record { instance_id = c.created; kind = kind }) in
      hit_result later exchange credentials ttl'
        (store_new lower ccxt_has cred_hash now key exchange ttl kind c) new
        (find-enforce_size (with_new lower ccxt_has cred_hash now key exchange ttl kind c) c.entries
          new refl u bounded clock)
        lt

  -- In a valid cache that was last accessed no later than now, a connector that a call had to
  -- create is returned again, as the same instance, by the next call for the same exchange and
  -- credentials before its time to live is over: the eviction that may follow never takes the new
  -- entry.
  pub get_or_create_again :
      (now later : ℕ) (exchange : String) (credentials : Credentials) (ttl ttl' : Option ℕ)
      (c : Cache) (connector : Connector)
      → IsValid c
      → AccessedBy now c.entries
      → live now (
          find
            (has_key (generate_cache_key lower ccxt_has cred_hash exchange credentials))
            c.entries)
        ≡ none
      → (get_or_create lower ccxt_has cred_hash now exchange credentials ttl c).0 ≡ ok connector
      → later < now + ttl_or_default ttl
      → (get_or_create lower ccxt_has cred_hash later exchange credentials ttl'
          (get_or_create lower ccxt_has cred_hash now exchange credentials ttl c).1).0
        ≡ ok connector
  get_or_create_again now later exchange credentials ttl ttl' c connector v clock missing h lt =
      let (kind, same, after) =
        miss_result now exchange credentials ttl c (create lower ccxt_has credentials) connector
          missing refl h in
      ap (λ s. (get_or_create lower ccxt_has cred_hash later exchange credentials ttl' s).0) after
      ∙ hit_after_store now later exchange credentials (ttl_or_default ttl) ttl' kind (count_miss c)
          v.unique v.bounded clock lt
      ∙ ap ok (sym same)
