-- ===== src/Keys/Management.antt =====
-- src/services/key-management.service.ts: the life of the data encryption key. What one call draws
-- from its surroundings (clock, random generator, attestation report, made-up identifier) is a
-- record of its own. The logger's calls, and the `catch` blocks that log and throw the same error
-- again, are left out.
pub mod Lifecycle
pub mod Migration
pub mod OneActive
use zero_knowledge_aggregato.Base.{
  ℕ, String, Bool, true, false, not, Option, none, some, str_eq, if◌then◌else◌, Act, Result, ok,
  err, Error, message, pure, throw, get, lift, ◌>>=◌, ◌>>◌,
}
use zero_knowledge_aggregato.Prisma.{Table, World}
use zero_knowledge_aggregato.Keys.Crypto.{Bytes, Crypto}
use zero_knowledge_aggregato.Keys.Derivation.{
  AttestationResult, derive_master_key, wrap_key, unwrap_key, get_master_key_id,
}
use zero_knowledge_aggregato.Keys.Derivation
use zero_knowledge_aggregato.Keys.Repository.{
  WrappedDek, get_active_dek, create_dek, rotate_dek, has_active_dek,
}
use zero_knowledge_aggregato.Keys.Repository

-- What one call draws from its surroundings.
pub record Surroundings : Type 0 where
  pub now : ℕ
  pub new_id : String
  pub report : AttestationResult
  pub random_dek : Bytes
  pub random_iv : Bytes

-- The service: the database behind its repository, and its one live field.
pub record KeyState (Db : Type 0) : Type 0 where
  pub world : World Db
  pub cached_dek : Option Bytes

abbrev pub mismatch : Error
mismatch =
    message
      "Master key mismatch detected - credential migration required. Please run the migration script to re-wrap DEKs with the new master key."

abbrev pub no_active_dek : Error
no_active_dek = message "No active DEK found for migration"

module _ {Db : Type 0} where
  abbrev pub in_world : {A : Type 0} → KeyState Db → Result A × World Db → Result A × KeyState Db
  in_world s (r, w) = (r, record s { world = w })

  -- A call of the repository.
  abbrev pub on_world : {A : Type 0} → Act (World Db) A → Act (KeyState Db) A
  on_world m s = in_world s (m s.world)

  abbrev pub set_cache : Option Bytes → Act (KeyState Db) (Unit {0})
  set_cache dek s = (ok tt, record s { cached_dek = dek })

  unfoldable pub clear_cache : Act (KeyState Db) (Unit {0})
  clear_cache = set_cache none

module _ (crypto : Crypto) (table : Table WrappedDek) where
  open table use {Db}

  unfoldable pub initialize_new_dek : Surroundings → Bytes → Act (KeyState Db) Bytes
  initialize_new_dek env master = do
    wrapped ← lift (wrap_key crypto env.random_iv env.random_dek master)
    on_world (create_dek table env.now env.new_id wrapped (get_master_key_id crypto master))
    set_cache (some env.random_dek)
    pure env.random_dek

  -- The stored key is unwrapped if the current master key wrapped it.
  abbrev pub open_active : Bytes → WrappedDek → Act (KeyState Db) Bytes
  open_active master row =
      if str_eq row.master_key_id (get_master_key_id crypto master)
      then (do dek ← lift (unwrap_key crypto row.key master); set_cache (some dek); pure dek)
      else throw mismatch

  abbrev pub open_or_initialize : Surroundings → Bytes → Option WrappedDek → Act (KeyState Db) Bytes
  open_or_initialize env master none = initialize_new_dek env master
  open_or_initialize env master (some row) = open_active master row

  abbrev pub load_dek : Surroundings → Act (KeyState Db) Bytes
  load_dek env = do
    master ← lift (derive_master_key crypto env.report)
    row ← on_world (get_active_dek table)
    open_or_initialize env master row

  abbrev pub cached_or : Act (KeyState Db) Bytes → Option Bytes → Act (KeyState Db) Bytes
  cached_or load (some dek) = pure dek
  cached_or load none = load

  unfoldable pub get_current_dek : Surroundings → Act (KeyState Db) Bytes
  get_current_dek env = do s ← get; cached_or (load_dek env) s.cached_dek

  unfoldable pub rotate_current_dek : Surroundings → Act (KeyState Db) Bytes
  unfolding clear_cache
  rotate_current_dek env = do
    master ← lift (derive_master_key crypto env.report)
    wrapped ← lift (wrap_key crypto env.random_iv env.random_dek master)
    on_world (rotate_dek table env.now env.new_id wrapped (get_master_key_id crypto master))
    clear_cache
    pure env.random_dek

  abbrev pub active_or_throw : Option WrappedDek → Result WrappedDek
  active_or_throw none = err no_active_dek
  active_or_throw (some row) = ok row

  unfoldable pub migrate_dek_to_new_master_key : Surroundings → Bytes → Act (KeyState Db) Bytes
  unfolding clear_cache
  migrate_dek_to_new_master_key env old_master = do
    found ← on_world (get_active_dek table)
    row ← lift (active_or_throw found)
    dek ← lift (unwrap_key crypto row.key old_master)
    master ← lift (derive_master_key crypto env.report)
    wrapped ← lift (wrap_key crypto env.random_iv dek master)
    on_world (rotate_dek table env.now env.new_id wrapped (get_master_key_id crypto master))
    clear_cache
    pure dek

  unfoldable pub needs_initialization : Act (KeyState Db) Bool
  needs_initialization = do found ← on_world (has_active_dek table); pure (not found)

  abbrev pub is_foreign : Bytes → Option WrappedDek → Bool
  is_foreign master none = false
  is_foreign master (some row) = not (str_eq row.master_key_id (get_master_key_id crypto master))

  unfoldable pub has_required_migration : Surroundings → Act (KeyState Db) Bool
  has_required_migration env = do
    master ← lift (derive_master_key crypto env.report)
    row ← on_world (get_active_dek table)
    pure (is_foreign master row)

  unfoldable pub get_current_master_key_id : Surroundings → Act (KeyState Db) String
  get_current_master_key_id env = do
    master ← lift (derive_master_key crypto env.report)
    pure (get_master_key_id crypto master)
