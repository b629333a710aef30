-- ===== src/Migration.antt =====
-- scripts/migrate-to-hardware-keys.ts: the stored credentials go from a key of the environment to the
-- data encryption key. What the script prints and logs is left out; `process.exit` is the end.
pub mod Backups
pub mod Rollback
pub mod Tests
use zero_knowledge_aggregato.Base.{
  ℕ, zero, suc, ◌+◌, ◌*◌, String, Bool, true, false, ◌&&◌, not, Option, none, some, List, [], ◌∷◌,
  map, length, take, drop, ltb, ◌==◌, str_eq, if◌then◌else◌, Result, ok, err, Error, message, Act,
  pure, throw, lift, ◌>>=◌, ◌>>◌, catch,
}
use zero_knowledge_aggregato.Prisma.{Table, World, query, call}
use zero_knowledge_aggregato.Aggregator.Symbols.{same_symbol}
use zero_knowledge_aggregato.Keys.Crypto.{Bytes, Text, Crypto}
use zero_knowledge_aggregato.Keys.Repository.{WrappedDek}
use zero_knowledge_aggregato.Keys.Management.{
  Surroundings, KeyState, get_current_dek, needs_initialization, has_required_migration,
  get_current_master_key_id,
}
use zero_knowledge_aggregato.Keys.Encryption.{encrypt, decrypt}
use zero_knowledge_aggregato.Connections.{
  ConnectionRow, Draw, Store, on_keys, on_table, encrypt_optional, decrypt_optional,
}

pub record MigrationStats : Type 0 where
  pub total_connections : ℕ
  pub migrated : ℕ
  pub failed : ℕ
  pub skipped : ℕ

pub record BackupCredential : Type 0 where
  pub id : String
  pub encrypted_api_key : Text
  pub encrypted_api_secret : Text
  pub encrypted_passphrase : Option Text

-- The fields of CredentialMigrator: the databases behind its services, and its own.
pub record Migrator (K D : Type 0) : Type 0 where
  pub store : Store K D
  pub stats : MigrationStats
  pub backups : List BackupCredential

pub record MigrationStatus : Type 0 where
  pub needs_initialization : Bool
  pub needs_migration : Bool
  pub current_master_key_id : Option String

-- What the outside gives for one connection: draws of the three encryptions, and the surroundings of
-- the three decryptions.
pub record Outside : Type 0 where
  pub for_key : Draw
  pub for_secret : Draw
  pub for_passphrase : Draw
  pub verify_key : Surroundings
  pub verify_secret : Surroundings
  pub verify_passphrase : Surroundings

abbrev pub backup_of : ConnectionRow → BackupCredential
backup_of r = record {
  id = r.id;
  encrypted_api_key = r.encrypted_api_key;
  encrypted_api_secret = r.encrypted_api_secret;
  encrypted_passphrase = r.encrypted_passphrase;
}

abbrev pub set_credentials : Text → Text → Option Text → ConnectionRow → ConnectionRow
set_credentials key secret passphrase r = record r {
  encrypted_api_key = key;
  encrypted_api_secret = secret;
  encrypted_passphrase = passphrase;
}

abbrev pub restore : BackupCredential → ConnectionRow → ConnectionRow
restore b = set_credentials b.encrypted_api_key b.encrypted_api_secret b.encrypted_passphrase

abbrev pub has_id : String → ConnectionRow → Bool
has_id id r = str_eq r.id id

module _ {K D A : Type 0} where
  abbrev pub on_store : Act (Store K D) A → Act (Migrator K D) A
  on_store m s = ((m s.store).0, record s { store = (m s.store).1 })

module _ {K D : Type 0} where
  abbrev pub count_total : ℕ → Migrator K D → Migrator K D
  count_total n m = record m { stats = record (m.stats) { total_connections = n } }

  abbrev pub count_migrated : Migrator K D → Migrator K D
  count_migrated m = record m { stats = record (m.stats) { migrated = m.stats.migrated + 1 } }

  abbrev pub count_failed : Migrator K D → Migrator K D
  count_failed m = record m { stats = record (m.stats) { failed = m.stats.failed + 1 } }

abbrev pub every_row : ConnectionRow → Bool
every_row r = true

abbrev pub as_text : Crypto → Result Bytes → Result Text
as_text crypto (ok b) = ok (crypto.from_utf8 b)
as_text crypto (err e) = err e

abbrev pub decrypt_with_old_key : Crypto → Text → Bytes → Result Text
decrypt_with_old_key crypto encrypted_data old_key =
    let iv = crypto.from_hex (take 32 encrypted_data) in
    let tag = crypto.from_hex (take 32 (drop 32 encrypted_data)) in
    let encrypted = crypto.from_hex (drop 64 encrypted_data) in
    as_text crypto (crypto.unseal old_key iv encrypted tag)

module _ (crypto : Crypto) (deks : Table WrappedDek) (table : Table ConnectionRow) where
  open deks use {Db as KeyDb}
  open table use {Db}

  abbrev pub Repo : Type 0 → Type 0
  Repo = Act (Store KeyDb Db)

  abbrev pub Job : Type 0 → Type 0
  Job = Act (Migrator KeyDb Db)

  -- `update` of one row by its id, which throws where there is none.
  abbrev pub update_row : String → (ConnectionRow → ConnectionRow) → Act (World Db) (Unit {0})
  update_row id f = do
    found ← call (λ d. (ltb 0 (table.count (has_id id) d), table.update_many (has_id id) f d))
    if found then pure tt else throw (message "Record to update not found")

  -- A missing passphrase, and an empty one, is none.
  abbrev pub old_passphrase : Bytes → Option Text → Repo (Option Text)
  old_passphrase old none = pure none
  old_passphrase old (some []) = pure none
  old_passphrase old (some (c ∷ s)) = do
    p ← lift (decrypt_with_old_key crypto (c ∷ s) old)
    pure (some p)

  abbrev pub write_unless_dry : Bool → String → Text → Text → Option Text → Repo (Unit {0})
  write_unless_dry true id key secret passphrase = pure tt
  write_unless_dry false id key secret passphrase =
      on_table (update_row id (set_credentials key secret passphrase))

  abbrev pub if_same : Bool → Repo (Unit {0}) → Repo (Unit {0})
  if_same true write = write
  if_same false write = throw (message "Verification failed - decrypted values do not match")

  -- The body of the loop's `try`.
  abbrev pub migrate_connection : Bool → Bytes → Outside → ConnectionRow → Repo (Unit {0})
  migrate_connection dry old w r = do
    api_key ← lift (decrypt_with_old_key crypto r.encrypted_api_key old)
    api_secret ← lift (decrypt_with_old_key crypto r.encrypted_api_secret old)
    passphrase ← old_passphrase old r.encrypted_passphrase
    new_key ← on_keys (encrypt crypto deks (w.for_key.env) (w.for_key.iv) api_key)
    new_secret ← on_keys (encrypt crypto deks (w.for_secret.env) (w.for_secret.iv) api_secret)
    new_passphrase ← encrypt_optional crypto deks table (w.for_passphrase) passphrase
    verify_key ← on_keys (decrypt crypto deks (w.verify_key) new_key)
    verify_secret ← on_keys (decrypt crypto deks (w.verify_secret) new_secret)
    if_same (same_symbol verify_key api_key && same_symbol verify_secret api_secret)
        (write_unless_dry dry r.id new_key new_secret new_passphrase)

  abbrev pub restore_all : List BackupCredential → Act (World Db) (Unit {0})
  restore_all [] = pure tt
  restore_all (b ∷ bs) = update_row b.id (restore b) >>= λ u. restore_all bs

  unfoldable pub rollback : Job (Unit {0})
  rollback m = on_store (on_table (restore_all m.backups)) m

  -- The first failure ends a run that writes.
  abbrev pub after_failure : Bool → Migrator KeyDb Db → Result (Unit {0}) × Migrator KeyDb Db
  after_failure true m = (ok tt, count_failed m)
  after_failure false m =
      (rollback >>= λ u. throw (message "Migration failed for connection")) (count_failed m)

  abbrev pub after_connection :
      Bool → Result (Unit {0}) × Migrator KeyDb Db → Result (Unit {0}) × Migrator KeyDb Db
  after_connection dry (ok u, m) = (ok tt, count_migrated m)
  after_connection dry (err e, m) = after_failure dry m

  abbrev pub migrate_all : Bool → Bytes → (ℕ → Outside) → ℕ → List ConnectionRow → Job (Unit {0})
  migrate_all dry old outside n [] = pure tt
  migrate_all dry old outside n (r ∷ rs) =
      (λ m. after_connection dry (on_store (migrate_connection dry old (outside n) r) m)) >>= λ u.
      migrate_all dry old outside (n + 1) rs

  abbrev pub migrate_listed :
      Bool → Option Text → (ℕ → Outside) → List ConnectionRow → Job (Unit {0})
  migrate_listed dry secret outside [] = pure tt
  migrate_listed dry none outside (r ∷ rs) =
      throw (message "ENCRYPTION_KEY environment variable required for migration")
  migrate_listed dry (some []) outside (r ∷ rs) =
      throw (message "ENCRYPTION_KEY environment variable required for migration")
  migrate_listed dry (some (c ∷ s)) outside (r ∷ rs) =
      migrate_all dry (crypto.sha256 (crypto.utf8 (c ∷ s))) outside 0 (r ∷ rs)

  unfoldable pub backup_credentials : Job (Unit {0})
  backup_credentials = do
    connections ← on_store (on_table (query (table.find_many every_row)))
    λ m. (ok tt, record m { backups = map backup_of connections })

  -- `secret` is ENCRYPTION_KEY.
  unfoldable pub migrate_credentials : Bool → Option Text → (ℕ → Outside) → Job (Unit {0})
  migrate_credentials dry secret outside = do
    connections ← on_store (on_table (query (table.find_many every_row)))
    (λ m. (ok tt, count_total (length connections) m)) >>= λ u.
        migrate_listed dry secret outside connections

  abbrev pub verify_connection : Outside → ConnectionRow → Repo (Unit {0})
  verify_connection w r = do
    on_keys (decrypt crypto deks (w.verify_key) r.encrypted_api_key)
    on_keys (decrypt crypto deks (w.verify_secret) r.encrypted_api_secret)
    decrypt_optional crypto deks table (w.verify_passphrase) r.encrypted_passphrase
    pure tt

  abbrev pub verify_all : (ℕ → Outside) → ℕ → List ConnectionRow → Repo Bool
  verify_all outside n [] = pure true
  verify_all outside n (r ∷ rs) =
      catch (verify_connection (outside n) r >>= λ u. pure true) (λ e. pure false) >>= λ good.
      if good then verify_all outside (n + 1) rs else pure false

  unfoldable pub verify_migration : (ℕ → Outside) → Repo Bool
  verify_migration outside = do
    connections ← on_table (query (table.find_many every_row))
    verify_all outside 0 connections

  abbrev pub master_key_id_unless : Bool → Surroundings → Act (KeyState KeyDb) (Option String)
  master_key_id_unless true env = pure none
  master_key_id_unless false env =
      get_current_master_key_id crypto deks env >>= λ id. pure (some id)

  unfoldable pub check_migration_status : Surroundings → Repo MigrationStatus
  check_migration_status env = on_keys (do
    fresh ← needs_initialization crypto deks
    foreign ← has_required_migration crypto deks env
    id ← master_key_id_unless fresh env
    pure (record {
      needs_initialization = fresh;
      needs_migration = foreign;
      current_master_key_id = id;
    }))

  unfoldable pub initialize_dek_system : Surroundings → Repo (Unit {0})
  initialize_dek_system env = on_keys (get_current_dek crypto deks env >>= λ k. pure tt)

  abbrev pub verified_or_throw : (ℕ → Outside) → ℕ → Job (Unit {0})
  verified_or_throw outside zero = pure tt
  verified_or_throw outside (suc n) = on_store (verify_migration outside) >>= λ good.
      if good then pure tt else throw (message "Migration verification failed")

  -- `main` up to its exit: what is thrown makes the exit code 1.
  unfoldable pub main :
      Bool → Option Text → Surroundings → (ℕ → Outside) → (ℕ → Outside) → Job (Unit {0})
  main dry secret env outside outside' = do
    status ← on_store (check_migration_status env)
    if status.needs_initialization then on_store (initialize_dek_system env) else pure tt
    if dry then pure tt else backup_credentials
    migrate_credentials dry secret outside
    λ m. (if dry then pure tt else verified_or_throw outside' m.stats.migrated) m
