-- ===== src/Migration/Rollback.antt =====
-- A migration that fails leaves the stored connections as they were.
use zero_knowledge_aggregato.Base.{
  ℕ, ◌+◌, ◌≡◌, refl, sym, ap, subst, ◌∙◌, ◌⊎◌, inl, inr, String, Bool, true, false, ◌&&◌, Option,
  none, some, List, [], ◌∷◌, map, length, map_if, ltb, str_eq, eq_iff, Result, ok, err, Error, Act,
  Bool-cases, Result-cases, arith, lift, ◌>>=◌, continue, lt→ltb, message,
}
use zero_knowledge_aggregato.Prisma.{Table, healthy}
use zero_knowledge_aggregato.Prisma.Keyed.{IsUnique}
use zero_knowledge_aggregato.Aggregator.Symbols.{same_symbol}
use zero_knowledge_aggregato.Keys.Crypto.{Bytes, Text, Crypto}
use zero_knowledge_aggregato.Keys.Repository.{WrappedDek}
use zero_knowledge_aggregato.Keys.Management.{KeyState}
use zero_knowledge_aggregato.Keys.Encryption.{encrypt, decrypt}
use zero_knowledge_aggregato.Connections.{ConnectionRow, Draw, Store, on_keys, encrypt_optional}
use zero_knowledge_aggregato.Connections.RoundTrip.{at_keys}
use zero_knowledge_aggregato.Migration.{
  Migrator, MigrationStats, BackupCredential, Outside, backup_of, restore, set_credentials, has_id,
  restore_all, rollback, migrate_connection, after_failure, migrate_all, migrate_listed,
  backup_credentials, migrate_credentials, decrypt_with_old_key, old_passphrase, write_unless_dry,
  if_same, every_row,
}
use zero_knowledge_aggregato.Migration.Backups.{
  AreChanged, AreChanged-refl, AreChanged-map_if, restored, restored-changed, ArePresent,
  changed-ArePresent, ArePresent-map_if, keep-all,
}

module _ (crypto : Crypto) (deks : Table WrappedDek) (table : Table ConnectionRow) where
  open deks use {Db as KeyDb}
  open table use {Db, rows}

  abbrev Repo : Type 0 → Type 0
  Repo = Act (Store KeyDb Db)

  abbrev pub at_rest : KeyState KeyDb → Db → Store KeyDb Db
  at_rest s d = at_keys crypto deks table s (healthy d)

  -- A job leaves a database of connections that answers, and changes encrypted fields alone.
  record Keeps (rs : List ConnectionRow) {A : Type 0} (m : Repo A) : Type 0 where
    kept :
        (s : KeyState KeyDb) (d : Db)
        → AreChanged rs (rows d)
        → (s' : KeyState KeyDb) × (d' : Db) × ((m (at_rest s d)).1 ≡ at_rest s' d')
          × AreChanged rs (rows d')

  Keeps-bind :
      (rs : List ConnectionRow) {A B : Type 0} (m : Repo A) (f : A → Repo B)
      → Keeps rs m
      → ((a : A) → Keeps rs (f a))
      → Keeps rs (m >>= f)
  Keeps-bind rs m f k next = record {
    kept = λ s d h.
        let (s1, d1, left, h1) = k.kept s d h in
        elim (Result-cases (m (at_rest s d)).0) [
          | inl (a, e) ↦
              let (s2, d2, left2, h2) = (next a).kept s1 d1 h1 in
              let pair : m (at_rest s d) ≡ (ok a, at_rest s1 d1) = λ i. (e i, left i) in
              (s2, d2, ap (λ r. (continue f r).1) pair ∙ left2, h2)
          | inr (x, e) ↦
              let pair : m (at_rest s d) ≡ (err x, at_rest s1 d1) = λ i. (e i, left i) in
              (s1, d1, ap (λ r. (continue f r).1) pair, h1)
        ];
  }

  Keeps-on_keys :
      (rs : List ConnectionRow) {A : Type 0} (m : Act (KeyState KeyDb) A) → Keeps rs (on_keys m)
  Keeps-on_keys rs m = record { kept = λ s d h. ((m s).1, d, refl, h) }

  Keeps-lift : (rs : List ConnectionRow) {A : Type 0} (r : Result A) → Keeps rs (lift r)
  Keeps-lift rs r = record { kept = λ s d h. (s, d, refl, h) }

  Keeps-old_passphrase :
      (rs : List ConnectionRow) (old : Bytes) (o : Option Text)
      → Keeps rs (old_passphrase crypto deks table old o)
  Keeps-old_passphrase rs old none = record { kept = λ s d h. (s, d, refl, h) }
  Keeps-old_passphrase rs old (some []) = record { kept = λ s d h. (s, d, refl, h) }
  Keeps-old_passphrase rs old (some (c ∷ t)) =
      Keeps-bind rs _ _ (Keeps-lift rs (decrypt_with_old_key crypto (c ∷ t) old))
        (λ p. Keeps-lift rs (ok (some p)))

  Keeps-encrypt_optional :
      (rs : List ConnectionRow) (w : Draw) (o : Option Text)
      → Keeps rs (encrypt_optional crypto deks table w o)
  Keeps-encrypt_optional rs w none = record { kept = λ s d h. (s, d, refl, h) }
  Keeps-encrypt_optional rs w (some []) = record { kept = λ s d h. (s, d, refl, h) }
  Keeps-encrypt_optional rs w (some (c ∷ t)) =
      Keeps-bind rs _ _ (Keeps-on_keys rs (encrypt crypto deks (w.env) (w.iv) (c ∷ t)))
        (λ p. Keeps-lift rs (ok (some p)))

  Keeps-write_unless_dry :
      (rs : List ConnectionRow) (dry : Bool) (id : String) (k t : Text) (o : Option Text)
      → Keeps rs (write_unless_dry crypto deks table dry id k t o)
  Keeps-write_unless_dry rs true id k t o = record { kept = λ s d h. (s, d, refl, h) }
  Keeps-write_unless_dry rs false id k t o = record {
    kept = λ s d h.
        let set = set_credentials k t o in
        let rest =
          subst (AreChanged rs) (sym (table.update_many_lem (has_id id) set d))
            (AreChanged-map_if (has_id id) k t o rs (rows d) h) in
        elim (Bool-cases (ltb 0 (table.count (has_id id) d))) [
          | inl e ↦ (s, table.update_many (has_id id) set d, rw e refl, rest)
          | inr e ↦ (s, table.update_many (has_id id) set d, rw e refl, rest)
        ];
  }

  Keeps-if_same :
      (rs : List ConnectionRow) (b : Bool) (write : Repo (Unit {0}))
      → Keeps rs write
      → Keeps rs (if_same crypto deks table b write)
  Keeps-if_same rs true write k = k
  Keeps-if_same rs false write k = record { kept = λ s d h. (s, d, refl, h) }

  Keeps-migrate_connection :
      (rs : List ConnectionRow) (dry : Bool) (old : Bytes) (w : Outside) (r : ConnectionRow)
      → Keeps rs (migrate_connection crypto deks table dry old w r)
  Keeps-migrate_connection rs dry old w r =
      Keeps-bind rs _ _ (Keeps-lift rs (decrypt_with_old_key crypto r.encrypted_api_key old))
        (λ key.
          Keeps-bind rs _ _ (Keeps-lift rs (decrypt_with_old_key crypto r.encrypted_api_secret old))
            (λ secret.
              Keeps-bind rs _ _ (Keeps-old_passphrase rs old r.encrypted_passphrase) (λ passphrase.
                Keeps-bind rs _ _
                  (Keeps-on_keys rs (encrypt crypto deks (w.for_key.env) (w.for_key.iv) key))
                  (λ k.
                    Keeps-bind rs _ _
                      (Keeps-on_keys rs
                        (encrypt crypto deks (w.for_secret.env) (w.for_secret.iv) secret))
                      (λ t.
                        Keeps-bind rs _ _ (Keeps-encrypt_optional rs (w.for_passphrase) passphrase)
                          (λ o.
                            Keeps-bind rs _ _
                              (Keeps-on_keys rs (decrypt crypto deks (w.verify_key) k))
                              (λ key'.
                                Keeps-bind rs _ _
                                  (Keeps-on_keys rs (decrypt crypto deks (w.verify_secret) t))
                                  (λ secret'.
                                    Keeps-if_same rs
                                      (same_symbol key' key && same_symbol secret' secret) _
                                      (Keeps-write_unless_dry rs dry r.id k t o)))))))))

  abbrev pub at_work :
      KeyState KeyDb → Db → MigrationStats → List BackupCredential → Migrator KeyDb Db
  at_work s d stats backups = record { store = at_rest s d; stats = stats; backups = backups }

  restore_all-restored :
      (l : List ConnectionRow) (d : Db)
      → ArePresent (rows d) l
      → (d' : Db) × (restore_all crypto deks table (map backup_of l) (healthy d)
          ≡ (ok tt, healthy d'))
        × (rows d' ≡ restored (map backup_of l) (rows d))
  restore_all-restored [] d h = (d, refl, refl)
  restore_all-restored (r ∷ l) d h =
      let b = backup_of r in
      let d1 = table.update_many (has_id r.id) (restore b) d in
      let there : rows d1 ≡ map_if (has_id r.id) (restore b) (rows d) =
        table.update_many_lem (has_id r.id) (restore b) d in
      let found : ltb 0 (table.count (has_id r.id) d) ≡ true =
        lt→ltb 0 (table.count (has_id r.id) d)
          (omega (arith, table.count_lem (has_id r.id) d, h.0)) in
      let present =
        subst (λ x. ArePresent x l) (sym there)
          (ArePresent-map_if (has_id r.id) b (rows d) l h.1) in
      let (d', done, back) = restore_all-restored l d1 present in
      (d', rw found done, back ∙ ap (restored (map backup_of l)) there)

  -- What a run that writes leaves: every row migrated or not, or the rows of the beginning.
  abbrev IsAllOrNothing : List ConnectionRow → Result (Unit {0}) × Migrator KeyDb Db → Type 0
  IsAllOrNothing rs r =
      ((r.0 ≡ ok tt) × AreChanged rs (rows r.1.store.world.db))
      ⊎ (((e : Error) × (r.0 ≡ err e)) × (rows r.1.store.world.db ≡ rs))

  failure-restores :
      (rs : List ConnectionRow) (s : KeyState KeyDb) (d : Db) (stats : MigrationStats)
      → IsUnique (λ (r : ConnectionRow). r.id) str_eq eq_iff rs
      → AreChanged rs (rows d)
      → (d' : Db) × (after_failure crypto deks table false (at_work s d stats (map backup_of rs))
          ≡ (
            err (message "Migration failed for connection"),
            at_work s d' (record stats { failed = stats.failed + 1 }) (map backup_of rs),
          ))
        × (rows d' ≡ rs)
  unfolding rollback
  failure-restores rs s d stats u h =
      let (d', done, back) = restore_all-restored rs d (changed-ArePresent rs (rows d) h) in
      (d', rw done refl, back ∙ restored-changed rs (rows d) u h)

  migrate_all-IsAllOrNothing :
      (rs : List ConnectionRow) (old : Bytes) (outside : ℕ → Outside) (n : ℕ)
      (todo : List ConnectionRow) (s : KeyState KeyDb) (d : Db) (stats : MigrationStats)
      → IsUnique (λ (r : ConnectionRow). r.id) str_eq eq_iff rs
      → AreChanged rs (rows d)
      → IsAllOrNothing rs (
          migrate_all crypto deks table false old outside n todo
            (at_work s d stats (map backup_of rs)))
  migrate_all-IsAllOrNothing rs old outside n [] s d stats u h = inl (refl, h)
  migrate_all-IsAllOrNothing rs old outside n (r ∷ todo) s d stats u h =
      let job = migrate_connection crypto deks table false old (outside n) r in
      let (s', d', left, h') = (Keeps-migrate_connection rs false old (outside n) r).kept s d h in
      elim (Result-cases (job (at_rest s d)).0) [
        | inl (a, e) ↦
            rw (e, left)
              (migrate_all-IsAllOrNothing rs old outside (n + 1) todo s' d'
                (record stats { migrated = stats.migrated + 1 }) u h')
        | inr (x, e) ↦
            let (d2, done, back) = failure-restores rs s' d' stats u h' in
            rw (e, left, done) (inr ((message "Migration failed for connection", refl), back))
      ]

  migrate_listed-IsAllOrNothing :
      (rs : List ConnectionRow) (secret : Option Text) (outside : ℕ → Outside)
      (todo : List ConnectionRow) (s : KeyState KeyDb) (d : Db) (stats : MigrationStats)
      → IsUnique (λ (r : ConnectionRow). r.id) str_eq eq_iff rs
      → rows d ≡ rs
      → IsAllOrNothing rs (
          migrate_listed crypto deks table false secret outside todo
            (at_work s d stats (map backup_of rs)))
  migrate_listed-IsAllOrNothing rs secret outside [] s d stats u e =
      inl (refl, subst (AreChanged rs) (sym e) (AreChanged-refl rs))
  migrate_listed-IsAllOrNothing rs none outside (r ∷ todo) s d stats u e =
      inr ((message "ENCRYPTION_KEY environment variable required for migration", refl), e)
  migrate_listed-IsAllOrNothing rs (some []) outside (r ∷ todo) s d stats u e =
      inr ((message "ENCRYPTION_KEY environment variable required for migration", refl), e)
  migrate_listed-IsAllOrNothing rs (some (c ∷ t)) outside (r ∷ todo) s d stats u e =
      migrate_all-IsAllOrNothing rs (crypto.sha256 (crypto.utf8 (c ∷ t))) outside 0 (r ∷ todo) s d
        stats u (subst (AreChanged rs) (sym e) (AreChanged-refl rs))

  -- Where the database of connections answers and no two connections have one id, a backup and a
  -- migration that writes either succeed, having changed nothing but the encrypted fields, or throw and
  -- leave the connections as they were before, whatever the key service, the cipher and the database of
  -- keys do, and wherever the failure comes.
  pub migrate_credentials-restores :
      (secret : Option Text) (outside : ℕ → Outside) (s : KeyState KeyDb) (d : Db)
      (stats : MigrationStats) (backups : List BackupCredential)
      → IsUnique (λ (r : ConnectionRow). r.id) str_eq eq_iff (rows d)
      → let r =
          (backup_credentials crypto deks table >>= λ u.
          migrate_credentials crypto deks table false secret outside)
            (at_work s d stats backups) in
        ((r.0 ≡ ok tt) × AreChanged (rows d) (rows r.1.store.world.db))
        ⊎ (((e : Error) × (r.0 ≡ err e)) × (rows r.1.store.world.db ≡ rows d))
  unfolding backup_credentials migrate_credentials
  migrate_credentials-restores secret outside s d stats backups u =
      rw (table.find_many_lem every_row d, keep-all (rows d))
        (migrate_listed-IsAllOrNothing (rows d) secret outside (rows d) s d
          (record stats { total_connections = length (rows d) }) u refl)
