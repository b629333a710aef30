-- ===== src/Keys/Repository.antt =====
-- src/repositories/dek-repository.ts: the wrapped data encryption keys, over the table
-- DataEncryptionKey. Times are milliseconds and `new Date()` is an argument; identifiers that the
-- database makes up are part of the new row. The order of `findMany` by time is not modelled.
pub mod Active
use zero_knowledge_aggregato.Base.{
  ℕ, String, Bool, true, false, not, ◌&&◌, Option, none, some, List, ltb, str_eq, if◌then◌else◌,
  Act, pure, ◌>>=◌, ◌>>◌,
}
use zero_knowledge_aggregato.Prisma.{Table, World, query, execute, call}
use zero_knowledge_aggregato.Keys.Derivation.{WrappedKey}

pub record WrappedDek : Type 0 where
  pub id : String
  pub key : WrappedKey
  pub master_key_id : String
  pub is_active : Bool
  pub rotated_at : Option ℕ
  pub created_at : ℕ

abbrev pub active : WrappedDek → Bool
active dek = dek.is_active

abbrev pub retire : ℕ → WrappedDek → WrappedDek
retire now dek = record dek { is_active = false; rotated_at = some now }

abbrev pub rotated_before : ℕ → Option ℕ → Bool
rotated_before older_than none = false
rotated_before older_than (some t) = ltb t older_than

-- `where: { isActive: false, rotatedAt: { lt: olderThan } }`
abbrev pub is_expired : ℕ → WrappedDek → Bool
is_expired older_than dek = not dek.is_active && rotated_before older_than dek.rotated_at

-- The row of a new key; the database gives it its identifier.
abbrev pub new_row : ℕ → String → WrappedKey → String → WrappedDek
new_row now id key master_key_id = record {
  id = id;
  key = key;
  master_key_id = master_key_id;
  is_active = true;
  rotated_at = none;
  created_at = now;
}

module _ (table : Table WrappedDek) where
  open table use {Db}

  unfoldable pub get_active_dek : Act (World Db) (Option WrappedDek)
  get_active_dek = query (table.find_first active)

  -- Two calls of the database, and no transaction round them.
  unfoldable pub create_dek : ℕ → String → WrappedKey → String → Act (World Db) WrappedDek
  create_dek now id key master_key_id = do
    execute (table.update_many active (retire now))
    execute (table.create (new_row now id key master_key_id))
    pure (new_row now id key master_key_id)

  unfoldable pub rotate_dek : ℕ → String → WrappedKey → String → Act (World Db) WrappedDek
  unfolding create_dek
  rotate_dek now id key master_key_id = create_dek now id key master_key_id

  unfoldable pub get_all_deks : Act (World Db) (List WrappedDek)
  get_all_deks = query (table.find_many (λ dek. true))

  unfoldable pub get_deks_by_master_key_id : String → Act (World Db) (List WrappedDek)
  get_deks_by_master_key_id id = query (table.find_many (λ dek. str_eq dek.master_key_id id))

  unfoldable pub delete_inactive_deks : ℕ → Act (World Db) ℕ
  delete_inactive_deks older_than =
      call
        (λ d. (table.count (is_expired older_than) d, table.delete_many (is_expired older_than) d))

  unfoldable pub has_active_dek : Act (World Db) Bool
  has_active_dek = do n ← query (table.count active); pure (ltb 0 n)
