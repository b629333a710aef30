-- ===== src/Keys/Management/Lifecycle.antt =====
-- Rotating, reading and caching the data encryption key.
use zero_knowledge_aggregato.Base.{
  ◌≡◌, refl, inl, inr, ◌≢◌, Option, none, some, find, Act, Result, ok, err, Bool-cases, ◌>>=◌,
  continue, lift, pure, eq_iff, str_eq, ap,
}
use zero_knowledge_aggregato.Prisma.{Table, healthy}
use zero_knowledge_aggregato.Keys.Crypto.{Bytes, Crypto}
use zero_knowledge_aggregato.Keys.Derivation.{
  WrappedKey, derive_master_key, wrap_key, unwrap_key, get_master_key_id, unwrap-wrap,
  wrap_key-total, derive_master_key-length,
}
use zero_knowledge_aggregato.Keys.Repository.{WrappedDek, active, get_active_dek, rotate_dek}
use zero_knowledge_aggregato.Keys.Repository.Active.{created, find-created}
use zero_knowledge_aggregato.Keys.Management.{
  Surroundings, KeyState, mismatch, initialize_new_dek, get_current_dek, rotate_current_dek,
  load_dek, cached_or, open_active, open_or_initialize, on_world, set_cache,
}

-- The service over a database that answers, with what its cache holds.
abbrev pub ready : {Db : Type 0} → Db → Option Bytes → KeyState Db
ready d dek = record { world = healthy d; cached_dek = dek }

module _ (crypto : Crypto) (table : Table WrappedDek) where
  open table use {Db, rows}

  -- The database after a key went in under a master key.
  abbrev pub stored : Surroundings → WrappedKey → Bytes → Db → Db
  stored env key master = created table env.now env.new_id key (get_master_key_id crypto master)

  pub rotate_result :
      (env : Surroundings) (master : Bytes) (d : Db) (cache : Option Bytes)
      → derive_master_key crypto env.report ≡ ok master
      → (key : WrappedKey) × (wrap_key crypto env.random_iv env.random_dek master ≡ ok key)
        × (rotate_current_dek crypto table env (ready d cache)
            ≡ (ok env.random_dek, ready (stored env key master d) none))
  unfolding rotate_current_dek rotate_dek
  rotate_result env master d cache e =
      let (key, w) =
        wrap_key-total crypto env.random_iv env.random_dek master
          (derive_master_key-length crypto env.report master e) in
      (key, w, rw (e, w))

  pub open_result :
      (env : Surroundings) (master dek : Bytes) (row : WrappedDek) (d : Db)
      → derive_master_key crypto env.report ≡ ok master
      → find active (rows d) ≡ some row
      → row.master_key_id ≡ get_master_key_id crypto master
      → unwrap_key crypto row.key master ≡ ok dek
      → get_current_dek crypto table env (ready d none) ≡ (ok dek, ready d (some dek))
  unfolding get_current_dek get_active_dek
  open_result env master dek row d e found same opened =
      rw (e, table.find_first_lem active d, found, (eq_iff _ _).1 same, opened)

  -- After a rotation over a database that answers, the service returns the new key, now and, under
  -- the same master key, at every next access.
  pub get_current-rotate :
      (env env' : Surroundings) (master : Bytes) (d : Db) (cache : Option Bytes)
      → derive_master_key crypto env.report ≡ ok master
      → derive_master_key crypto env'.report ≡ ok master
      → let after = rotate_current_dek crypto table env (ready d cache) in
        (after.0 ≡ ok env.random_dek)
        × ((get_current_dek crypto table env' after.1).0 ≡ ok env.random_dek)
  get_current-rotate env env' master d cache e e' =
      let (key, w, r) = rotate_result env master d cache e in
      rw r (
        refl,
        ap (λ p. p.0)
            (open_result env' master env.random_dek _ (stored env key master d) e'
              (find-created table env.now env.new_id key _ d) refl
              (unwrap-wrap crypto env.random_iv env.random_dek master key w)),
      )

  -- Where the active key was wrapped under another master key, and nothing is cached, the service
  -- throws, and neither the database nor the cache changes.
  pub get_current-mismatch :
      (env : Surroundings) (master : Bytes) (row : WrappedDek) (d : Db)
      → derive_master_key crypto env.report ≡ ok master
      → find active (rows d) ≡ some row
      → row.master_key_id ≢ get_master_key_id crypto master
      → get_current_dek crypto table env (ready d none) ≡ (err mismatch, ready d none)
  unfolding get_current_dek get_active_dek
  get_current-mismatch env master row d e found ne =
      rw (e, table.find_first_lem active d, found)
        (elim (Bool-cases (str_eq row.master_key_id (get_master_key_id crypto master))) [
          | inl h ↦ absurd (ne ((eq_iff _ _).0 h))
          | inr h ↦ rw h
        ])

  -- Every way in which an action returns a key leaves that key in the cache.
  abbrev Caches : Act (KeyState Db) Bytes → Type 0
  Caches m = (s : KeyState Db) (k : Bytes) → (m s).0 ≡ ok k → (m s).1.cached_dek ≡ some k

  Caches-continue :
      {A : Type 0} (f : A → Act (KeyState Db) Bytes) (o : Result A × KeyState Db) (k : Bytes)
      → ((a : A) → Caches (f a))
      → (continue f o).0 ≡ ok k
      → (continue f o).1.cached_dek ≡ some k
  Caches-continue f (ok a, s) k h e = h a s k e
  Caches-continue f (err x, s) k h e = cc

  Caches-bind :
      {A : Type 0} (m : Act (KeyState Db) A) (f : A → Act (KeyState Db) Bytes)
      → ((a : A) → Caches (f a))
      → Caches (m >>= f)
  Caches-bind m f h s k e = Caches-continue f (m s) k h e

  store_and_return-Caches : (dek : Bytes) → Caches (set_cache (some dek) >>= λ _. pure dek)
  store_and_return-Caches dek s k e = cc

  throw-Caches : Caches (λ s. (err mismatch, s))
  throw-Caches s k e = cc

  open_active-Caches :
      (master : Bytes) (row : WrappedDek) → Caches (open_active crypto table master row)
  open_active-Caches master row =
      elim (Bool-cases (str_eq row.master_key_id (get_master_key_id crypto master))) [
        | inl h ↦ rw h (
            Caches-bind (lift (unwrap_key crypto row.key master)) _
              (λ dek. store_and_return-Caches dek))
        | inr h ↦ rw h throw-Caches
      ]

  initialize-Caches :
      (env : Surroundings) (master : Bytes) → Caches (initialize_new_dek crypto table env master)
  unfolding initialize_new_dek
  initialize-Caches env master =
      Caches-bind (lift (wrap_key crypto env.random_iv env.random_dek master)) _
        (λ key. Caches-bind _ _ (λ row. store_and_return-Caches env.random_dek))

  load_dek-Caches : (env : Surroundings) → Caches (load_dek crypto table env)
  load_dek-Caches env =
      Caches-bind (lift (derive_master_key crypto env.report)) _
        (λ master. Caches-bind (on_world (get_active_dek table)) _ (next master))
    where
      next :
          (master : Bytes) (row : Option WrappedDek)
          → Caches (open_or_initialize crypto table env master row)
      next master none = initialize-Caches env master
      next master (some row) = open_active-Caches master row

  cached_or-Caches :
      (env : Surroundings) (c : Option Bytes) (s : KeyState Db) (k : Bytes)
      → s.cached_dek ≡ c
      → (cached_or crypto table (load_dek crypto table env) c s).0 ≡ ok k
      → (cached_or crypto table (load_dek crypto table env) c s).1.cached_dek ≡ some k
  cached_or-Caches env none s k c e = load_dek-Caches env s k e
  cached_or-Caches env (some dek) s k c e = cc

  -- A key that was returned once, at any state and whichever calls of the database fail, is returned
  -- again by the next access, which changes nothing and needs neither database nor attestation.
  pub get_current_twice :
      (env env' : Surroundings) (s : KeyState Db) (k : Bytes)
      → (get_current_dek crypto table env s).0 ≡ ok k
      → get_current_dek crypto table env' (get_current_dek crypto table env s).1
        ≡ (ok k, (get_current_dek crypto table env s).1)
  unfolding get_current_dek
  get_current_twice env env' s k e = rw (cached_or-Caches env s.cached_dek s k refl e)
