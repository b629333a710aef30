-- ===== src/Keys/Management/OneActive.antt =====
-- At most one key is active after any history of the service, whichever calls fail.
use zero_knowledge_aggregato.Base.{
  ℕ, List, [], ◌∷◌, Option, none, some, Result, ok, err, Act, ◌>>=◌, continue, lift, pure,
  Bool-cases, inl, inr, str_eq,
}
use zero_knowledge_aggregato.Prisma.{Table}
use zero_knowledge_aggregato.Keys.Crypto.{Bytes, Crypto}
use zero_knowledge_aggregato.Keys.Derivation.{
  WrappedKey, derive_master_key, wrap_key, unwrap_key, get_master_key_id,
}
use zero_knowledge_aggregato.Keys.Repository.{
  WrappedDek, get_active_dek, create_dek, rotate_dek, delete_inactive_deks,
}
use zero_knowledge_aggregato.Keys.Repository.Active.{
  AtMostOne, create_dek-AtMostOne, rotate_dek-AtMostOne, active_count-delete_inactive,
  rows-get_active_dek,
}
use zero_knowledge_aggregato.Keys.Management.{
  Surroundings, KeyState, initialize_new_dek, get_current_dek, rotate_current_dek,
  migrate_dek_to_new_master_key, load_dek, cached_or, open_active, open_or_initialize, on_world,
  set_cache, active_or_throw,
}

-- The calls that change the state of the service or its table.
pub data KeyCall : Type 0 where
  current rotate : Surroundings → KeyCall
  migrate : Surroundings → Bytes → KeyCall
  delete_inactive : ℕ → KeyCall
  restart : KeyCall

module _ (crypto : Crypto) (table : Table WrappedDek) where
  open table use {Db, rows}

  pub step : KeyState Db → KeyCall → KeyState Db
  step s (current env) = (get_current_dek crypto table env s).1
  step s (rotate env) = (rotate_current_dek crypto table env s).1
  step s (migrate env old) = (migrate_dek_to_new_master_key crypto table env old s).1
  step s (delete_inactive t) = (on_world (delete_inactive_deks table t) s).1
  step s restart = record s { cached_dek = none }

  pub run : KeyState Db → List KeyCall → KeyState Db
  run s [] = s
  run s (c ∷ cs) = run (step s c) cs

  abbrev Inv : KeyState Db → Type 0
  Inv s = AtMostOne table s.world

  abbrev Keeps : {A : Type 0} → Act (KeyState Db) A → Type 0
  Keeps m = (s : KeyState Db) → Inv s → Inv (m s).1

  Keeps-continue :
      {A B : Type 0} (f : A → Act (KeyState Db) B) (o : Result A × KeyState Db)
      → ((a : A) → Keeps (f a))
      → Inv o.1
      → Inv (continue f o).1
  Keeps-continue f (ok a, s) h v = h a s v
  Keeps-continue f (err x, s) h v = v

  Keeps-bind :
      {A : Type 0} (m : Act (KeyState Db) A) (f : A → Act (KeyState Db) Bytes)
      → Keeps m
      → ((a : A) → Keeps (f a))
      → Keeps (m >>= f)
  Keeps-bind m f k h s v = Keeps-continue f (m s) h (k s v)

  lift-Keeps : {A : Type 0} (r : Result A) → Keeps (lift r)
  lift-Keeps r s v = v

  get_active-Keeps : Keeps (on_world (get_active_dek table))
  get_active-Keeps s v = rw (rows-get_active_dek table s.world) v

  abbrev create : Surroundings → WrappedKey → Bytes → Act (KeyState Db) WrappedDek
  create env key master =
      on_world (create_dek table env.now env.new_id key (get_master_key_id crypto master))

  abbrev replace : Surroundings → WrappedKey → Bytes → Act (KeyState Db) WrappedDek
  replace env key master =
      on_world (rotate_dek table env.now env.new_id key (get_master_key_id crypto master))

  create-Keeps :
      (env : Surroundings) (key : WrappedKey) (master : Bytes) → Keeps (create env key master)
  create-Keeps env key master s v =
      create_dek-AtMostOne table env.now env.new_id key (get_master_key_id crypto master) s.world v

  replace-Keeps :
      (env : Surroundings) (key : WrappedKey) (master : Bytes) → Keeps (replace env key master)
  replace-Keeps env key master s v =
      rotate_dek-AtMostOne table env.now env.new_id key (get_master_key_id crypto master) s.world v

  -- The first part of a call that may throw leaves the state alone.
  lift-then :
      {A : Type 0} (r : Result A) (f : A → Act (KeyState Db) Bytes)
      → ((a : A) → Keeps (f a))
      → Keeps (lift r >>= f)
  lift-then r f h = Keeps-bind (lift r) f (lift-Keeps r) h

  initialize-Keeps :
      (env : Surroundings) (master : Bytes) → Keeps (initialize_new_dek crypto table env master)
  unfolding initialize_new_dek
  initialize-Keeps env master =
      lift-then (wrap_key crypto env.random_iv env.random_dek master) _
        λ key. Keeps-bind (create env key master) _ (create-Keeps env key master) λ row s v. v

  open_active-Keeps :
      (master : Bytes) (row : WrappedDek) → Keeps (open_active crypto table master row)
  open_active-Keeps master row =
      elim (Bool-cases (str_eq row.master_key_id (get_master_key_id crypto master))) [
        | inl h ↦ rw h (lift-then (unwrap_key crypto row.key master) _ λ dek s v. v)
        | inr h ↦ rw h (λ s v. v)
      ]

  open_or_initialize-Keeps :
      (env : Surroundings) (master : Bytes) (row : Option WrappedDek)
      → Keeps (open_or_initialize crypto table env master row)
  open_or_initialize-Keeps env master none = initialize-Keeps env master
  open_or_initialize-Keeps env master (some row) = open_active-Keeps master row

  load_dek-Keeps : (env : Surroundings) → Keeps (load_dek crypto table env)
  load_dek-Keeps env = lift-then (derive_master_key crypto env.report) _ λ master.
      Keeps-bind (on_world (get_active_dek table)) _ get_active-Keeps
        (open_or_initialize-Keeps env master)

  cached_or-Keeps :
      (env : Surroundings) (c : Option Bytes)
      → Keeps (cached_or crypto table (load_dek crypto table env) c)
  cached_or-Keeps env none = load_dek-Keeps env
  cached_or-Keeps env (some dek) = λ s v. v

  -- The end that rotation and migration share.
  replace-then :
      (env : Surroundings) (key : WrappedKey) (master dek : Bytes)
      → Keeps (replace env key master >>= λ row. set_cache none >>= λ u. pure dek)
  replace-then env key master dek =
      Keeps-bind (replace env key master) _ (replace-Keeps env key master) λ row s v. v

  rotate_current-Keeps : (env : Surroundings) → Keeps (rotate_current_dek crypto table env)
  unfolding rotate_current_dek
  rotate_current-Keeps env = lift-then (derive_master_key crypto env.report) _ λ master.
      lift-then (wrap_key crypto env.random_iv env.random_dek master) _
        λ key. replace-then env key master env.random_dek

  migrate-Keeps :
      (env : Surroundings) (old : Bytes)
      → Keeps (migrate_dek_to_new_master_key crypto table env old)
  unfolding migrate_dek_to_new_master_key
  migrate-Keeps env old = Keeps-bind (on_world (get_active_dek table)) _ get_active-Keeps λ found.
      lift-then (active_or_throw crypto table found) _ λ row.
        lift-then (unwrap_key crypto row.key old) _ λ dek.
          lift-then (derive_master_key crypto env.report) _ λ master.
            lift-then (wrap_key crypto env.random_iv dek master) _
              λ key. replace-then env key master dek

  pub step-AtMostOne :
      (c : KeyCall) (s : KeyState Db) → AtMostOne table s.world → AtMostOne table (step s c).world
  unfolding step get_current_dek
  step-AtMostOne (current env) s v = cached_or-Keeps env s.cached_dek s v
  step-AtMostOne (rotate env) s v = rotate_current-Keeps env s v
  step-AtMostOne (migrate env old) s v = migrate-Keeps env old s v
  step-AtMostOne (delete_inactive t) s v = rw (active_count-delete_inactive table t s.world) v
  step-AtMostOne restart s v = v

  -- After any history of accesses, rotations, migrations, deletions and restarts, in which any call
  -- of the database may fail, at most one key is active, if it was so before.
  pub run-AtMostOne :
      (s : KeyState Db) (cs : List KeyCall)
      → AtMostOne table s.world
      → AtMostOne table (run s cs).world
  unfolding run
  run-AtMostOne s [] v = v
  run-AtMostOne s (c ∷ cs) v = run-AtMostOne (step s c) cs (step-AtMostOne c s v)
