-- ===== src/Migration/Tests.antt =====
-- A migration whose second connection fails, with a cipher that runs, over a table that is a list.
use zero_knowledge_aggregato.Base.{
  ℕ, ◌≡◌, refl, ◌⊎◌, String, true, false, none, some, List, [], ◌∷◌, replicate, ok, err, Error,
  ◌>>=◌, ◌++◌,
}
use zero_knowledge_aggregato.Prisma.{healthy}
use zero_knowledge_aggregato.Prisma.ListTable.{list_table}
use zero_knowledge_aggregato.Keys.Crypto.{codes, Text}
use zero_knowledge_aggregato.Keys.ToyCipher.{toy, digits}
use zero_knowledge_aggregato.Keys.Repository.{WrappedDek}
use zero_knowledge_aggregato.Keys.Management.{Surroundings, KeyState, get_current_dek}
use zero_knowledge_aggregato.Keys.Encryption.{encrypt, decrypt}
use zero_knowledge_aggregato.Connections.{ConnectionRow, Draw}
use zero_knowledge_aggregato.Migration.{
  MigrationStats, Outside, backup_credentials, migrate_credentials, rollback,
}
use zero_knowledge_aggregato.Migration.Backups.{AreChanged}
use zero_knowledge_aggregato.Migration.Rollback.{at_work, migrate_credentials-restores}

abbrev surroundings : Surroundings
surroundings = record {
  now = 100;
  new_id = "k1";
  report = record {
    verified = false;
    sev_snp_enabled = false;
    measurement = none;
    platform_version = none;
  };
  random_dek = [];
  random_iv = [];
}

abbrev cached : KeyState (List WrappedDek)
cached = record { world = healthy []; cached_dek = some (replicate 32 1) }

abbrev draw : Draw
draw = record { env = surroundings; iv = replicate 16 5 }

abbrev outside : ℕ → Outside
outside n = record {
  for_key = draw;
  for_secret = draw;
  for_passphrase = draw;
  verify_key = surroundings;
  verify_secret = surroundings;
  verify_passphrase = surroundings;
}

-- What the old key sealed, under a tag of its first byte.
abbrev sealed : ℕ → Text
sealed tag = replicate 32 0 ++ (digits (replicate 16 tag) ++ digits (7 ∷ []))

abbrev row : String → ℕ → ConnectionRow
row id tag = record {
  id = id;
  user_uid = "ann";
  exchange = id;
  label = "main";
  encrypted_api_key = sealed tag;
  encrypted_api_secret = sealed tag;
  encrypted_passphrase = none;
  credentials_hash = "h";
  is_active = true;
}

abbrev two_rows : List ConnectionRow
two_rows = row "okx" 111 ∷ row "kraken" 1 ∷ []

abbrev nothing_counted : MigrationStats
nothing_counted = record { total_connections = 0; migrated = 0; failed = 0; skipped = 0 }

second_fails :
    ((backup_credentials toy (list_table WrappedDek) (list_table ConnectionRow) >>= λ u.
    migrate_credentials toy
      (list_table WrappedDek)
      (list_table ConnectionRow)
      false
      (some (codes "old"))
      outside)
      (at_work toy
        (list_table WrappedDek)
        (list_table ConnectionRow)
        cached
        two_rows
        nothing_counted
        [])).1.stats
    ≡ record { total_connections = 2; migrated = 1; failed = 1; skipped = 0 }
unfolding backup_credentials migrate_credentials rollback encrypt decrypt get_current_dek
second_fails = refl

migrate_credentials-restores_example :
    let r =
      (backup_credentials toy (list_table WrappedDek) (list_table ConnectionRow) >>= λ u.
      migrate_credentials toy
        (list_table WrappedDek)
        (list_table ConnectionRow)
        false
        (some (codes "old"))
        outside)
        (at_work toy
          (list_table WrappedDek)
          (list_table ConnectionRow)
          cached
          two_rows
          nothing_counted
          []) in
    ((r.0 ≡ ok tt) × AreChanged two_rows r.1.store.world.db)
    ⊎ (((e : Error) × (r.0 ≡ err e)) × (r.1.store.world.db ≡ two_rows))
migrate_credentials-restores_example =
    migrate_credentials-restores toy (list_table WrappedDek) (list_table ConnectionRow)
      (some (codes "old")) outside cached two_rows nothing_counted [] (refl, (refl, tt))
