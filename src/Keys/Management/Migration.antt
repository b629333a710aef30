-- ===== src/Keys/Management/Migration.antt =====
-- Moving the key to a new master key, recognising that a move is due, and a rotation that the
-- database interrupts.
use zero_knowledge_aggregato.Base.{
  ◌≡◌, refl, inl, inr, ◌↔◌, true, false, Option, none, some, [], ◌∷◌, find, ok, err, Result-cases,
  Option-cases, Bool-cases, eq_iff, str_eq, ap, sym, ◌∙◌, ◌≢◌,
}
use zero_knowledge_aggregato.Prisma.{Table, lost}
use zero_knowledge_aggregato.Keys.Crypto.{Bytes, Crypto}
use zero_knowledge_aggregato.Keys.Derivation.{
  WrappedKey, derive_master_key, wrap_key, unwrap_key, get_master_key_id, unwrap-wrap,
  wrap_key-total, derive_master_key-length,
}
use zero_knowledge_aggregato.Keys.Repository.{
  WrappedDek, active, retire, get_active_dek, create_dek, rotate_dek,
}
use zero_knowledge_aggregato.Keys.Repository.Active.{
  find-created, find-none_of_inactive, active_count, count-retired, at,
}
use zero_knowledge_aggregato.Keys.Management.{
  Surroundings, mismatch, initialize_new_dek, get_current_dek, rotate_current_dek,
  migrate_dek_to_new_master_key, has_required_migration, is_foreign,
}
use zero_knowledge_aggregato.Keys.Management.Lifecycle.{
  ready, stored, open_result, get_current-mismatch, get_current_twice,
}

module _ (crypto : Crypto) (table : Table WrappedDek) where
  open table use {Db, rows}

  migrate_result :
      (env : Surroundings) (old master dek : Bytes) (row : WrappedDek) (d : Db)
      (cache : Option Bytes)
      → find active (rows d) ≡ some row
      → unwrap_key crypto row.key old ≡ ok dek
      → derive_master_key crypto env.report ≡ ok master
      → (key : WrappedKey) × (wrap_key crypto env.random_iv dek master ≡ ok key)
        × (migrate_dek_to_new_master_key crypto table env old (ready d cache)
            ≡ (ok dek, ready (stored crypto table env key master d) none))
  unfolding migrate_dek_to_new_master_key rotate_dek get_active_dek
  migrate_result env old master dek row d cache found opened e =
      let (key, w) =
        wrap_key-total crypto env.random_iv dek master
          (derive_master_key-length crypto env.report master e) in
      (key, w, rw (table.find_first_lem active d, found, opened, e, w))

  -- Over a database that answers, migration keeps the data encryption key: if the active row opens
  -- under the old master key, the migration returns that key, the next access under the new master
  -- key returns it too, and the access after that, which then needs neither the database nor the
  -- attestation, returns it and changes nothing.
  pub get_current-migrate :
      (env env' later : Surroundings) (old master dek : Bytes) (row : WrappedDek) (d : Db)
      (cache : Option Bytes)
      → find active (rows d) ≡ some row
      → unwrap_key crypto row.key old ≡ ok dek
      → derive_master_key crypto env.report ≡ ok master
      → derive_master_key crypto env'.report ≡ ok master
      → let after = migrate_dek_to_new_master_key crypto table env old (ready d cache) in
        let next = get_current_dek crypto table env' after.1 in
        (after.0 ≡ ok dek)
        × (next.0 ≡ ok dek)
        × (get_current_dek crypto table later next.1 ≡ (ok dek, next.1))
  get_current-migrate env env' later old master dek row d cache found opened e e' =
      let (key, w, r) = migrate_result env old master dek row d cache found opened e in
      let kept = ready (stored crypto table env key master d) none in
      let got : (get_current_dek crypto table env' kept).0 ≡ ok dek =
        ap (λ p. p.0)
          (open_result crypto table env' master dek _ (stored crypto table env key master d) e'
            (find-created table env.now env.new_id key _ d) refl
            (unwrap-wrap crypto env.random_iv dek master key w)) in
      rw r (refl, got, get_current_twice crypto table env' later kept dek got)

  initialize_result :
      (env : Surroundings) (master : Bytes) (d : Db)
      → derive_master_key crypto env.report ≡ ok master
      → find active (rows d) ≡ none
      → (get_current_dek crypto table env (ready d none)).0 ≡ ok env.random_dek
  unfolding get_current_dek get_active_dek initialize_new_dek create_dek
  initialize_result env master d e found =
      let (key, w) =
        wrap_key-total crypto env.random_iv env.random_dek master
          (derive_master_key-length crypto env.report master e) in
      rw (e, table.find_first_lem active d, found, w)

  opened_or_failed :
      (key : WrappedKey) (master : Bytes) → unwrap_key crypto key master ≢ err mismatch
  unfolding unwrap_key
  opened_or_failed key master =
      elim (Result-cases (
        crypto.unseal master (crypto.from_base64 key.iv) (crypto.from_base64 key.encrypted_dek)
          (crypto.from_base64 key.auth_tag))) [
            | inl (a, h) ↦ rw h (λ e. cc)
            | inr (a, h) ↦ rw h (λ e. cc)
          ]

  has_required_migration_result :
      (env : Surroundings) (master : Bytes) (d : Db)
      → derive_master_key crypto env.report ≡ ok master
      → (has_required_migration crypto table env (ready d none)).0
        ≡ ok (is_foreign crypto table master (find active (rows d)))
  unfolding has_required_migration get_active_dek
  has_required_migration_result env master d e = rw (e, table.find_first_lem active d)

  get_current_opens :
      (env : Surroundings) (master : Bytes) (row : WrappedDek) (d : Db)
      → derive_master_key crypto env.report ≡ ok master
      → find active (rows d) ≡ some row
      → str_eq row.master_key_id (get_master_key_id crypto master) ≡ true
      → (get_current_dek crypto table env (ready d none)).0 ≡ unwrap_key crypto row.key master
  unfolding get_current_dek get_active_dek
  get_current_opens env master row d e found same =
      rw (e, table.find_first_lem active d, found, same)
        (elim (Result-cases (unwrap_key crypto row.key master)) [
          | inl (k, h) ↦ rw h
          | inr (x, h) ↦ rw h
        ])

  -- Over a database that answers, a migration is reported as required exactly when an access with
  -- an empty cache would be refused because of the master key.
  pub has_required_migration_iff :
      (env : Surroundings) (master : Bytes) (d : Db)
      → derive_master_key crypto env.report ≡ ok master
      → ((has_required_migration crypto table env (ready d none)).0 ≡ ok true)
        ↔ ((get_current_dek crypto table env (ready d none)).0 ≡ err mismatch)
  has_required_migration_iff env master d e = elim (Option-cases (find active (rows d))) [
    | inl found ↦
        rw (has_required_migration_result env master d e, found)
          (λ h. cc, λ h. cc (initialize_result env master d e found))
    | inr (row, found) ↦
        rw (has_required_migration_result env master d e, found)
          (elim (Bool-cases (str_eq row.master_key_id (get_master_key_id crypto master))) [
            | inl same ↦ rw same (
              λ h. cc,
              λ h. absurd (
                  opened_or_failed row.key master
                    (sym (get_current_opens env master row d e found same) ∙ h)),
            )
            | inr other ↦ rw other (
              λ h.
                  ap (λ p. p.0)
                    (get_current-mismatch crypto table env master row d e found
                      (λ same. cc (other, (eq_iff _ _).1 same))),
              λ h. refl,
            )
          ])
  ]

  interrupted_result :
      (env : Surroundings) (master : Bytes) (d : Db) (cache : Option Bytes)
      → derive_master_key crypto env.report ≡ ok master
      → rotate_current_dek crypto table env
          (record { world = at table (false ∷ true ∷ []) d; cached_dek = cache })
        ≡ (
          err lost,
          record {
            world = at table [] (table.update_many active (retire env.now) d);
            cached_dek = cache;
          },
        )
  unfolding rotate_current_dek rotate_dek
  interrupted_result env master d cache e =
      let (key, w) =
        wrap_key-total crypto env.random_iv env.random_dek master
          (derive_master_key-length crypto env.report master e) in
      rw (e, w)

  -- Between the two calls of a rotation the database may fail: the rotation throws, no key is active
  -- any more, and after a restart the service makes a new key instead of returning the old one.
  pub get_current-rotate_interrupted :
      (env env' : Surroundings) (master : Bytes) (d : Db) (cache : Option Bytes)
      → derive_master_key crypto env.report ≡ ok master
      → derive_master_key crypto env'.report ≡ ok master
      → let after =
          rotate_current_dek crypto table env
            (record { world = at table (false ∷ true ∷ []) d; cached_dek = cache }) in
        (after.0 ≡ err lost)
        × (active_count (rows after.1.world.db) ≡ 0)
        × ((get_current_dek crypto table env' (ready after.1.world.db none)).0 ≡ ok env'.random_dek)
  get_current-rotate_interrupted env env' master d cache e e' =
      rw (interrupted_result env master d cache e) (
        refl,
        count-retired table env.now d,
        initialize_result env' master (table.update_many active (retire env.now) d) e'
            (find-none_of_inactive _ (count-retired table env.now d)),
      )
