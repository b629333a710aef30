-- ===== src/Keys/Tests.antt =====
-- The theorems about keys at concrete inputs, with a cipher that runs.
use zero_knowledge_aggregato.Base.{
  ◌≡◌, ◌≢◌, ◌↔◌, refl, eq_iff, true, false, none, some, List, [], ◌∷◌, ◌++◌, ok, err, replicate,
  arith,
}
use zero_knowledge_aggregato.Prisma.{lost}
use zero_knowledge_aggregato.Prisma.ListTable.{list_table}
use zero_knowledge_aggregato.Keys.Crypto.{Bytes, Text, codes}
use zero_knowledge_aggregato.Keys.Derivation.{
  AttestationResult, WrappedKey, derive_master_key, wrap_key, unwrap_key, unwrap-wrap,
  get_master_key_id,
}
use zero_knowledge_aggregato.Keys.Repository.{WrappedDek, get_active_dek}
use zero_knowledge_aggregato.Keys.Repository.Active.{AtMostOne, active_count, at}
use zero_knowledge_aggregato.Keys.Management.{
  Surroundings, KeyState, mismatch, get_current_dek, rotate_current_dek,
  migrate_dek_to_new_master_key, has_required_migration,
}
use zero_knowledge_aggregato.Keys.Management.Lifecycle.{ready, get_current-rotate}
use zero_knowledge_aggregato.Keys.Management.Migration.{
  get_current-migrate, has_required_migration_iff, get_current-rotate_interrupted,
}
use zero_knowledge_aggregato.Keys.Management.OneActive.{
  KeyCall, rotate, current, migrate, restart, run, run-AtMostOne,
}
use zero_knowledge_aggregato.Keys.Encryption.{encrypt, decrypt, create_credentials_hash}
use zero_knowledge_aggregato.Keys.Encryption.RoundTrip.{decrypt-encrypt}
use zero_knowledge_aggregato.Keys.ToyCipher.{digits, toy}

-- The reports of two builds of the enclave, and of a machine that could not be verified.
abbrev old_report : AttestationResult
old_report = record {
  verified = true;
  sev_snp_enabled = true;
  measurement = some "m1";
  platform_version = none;
}

abbrev new_report : AttestationResult
new_report = record old_report { measurement = some "m2" }

abbrev bad_report : AttestationResult
bad_report = record old_report { verified = false }

abbrev old_master : Bytes
old_master = replicate 32 1

abbrev new_master : Bytes
new_master = replicate 32 2

abbrev env_of : AttestationResult → Bytes → Surroundings
env_of report dek = record {
  now = 100;
  new_id = "k2";
  report = report;
  random_dek = dek;
  random_iv = 5 ∷ [];
}

abbrev dek1 : Bytes
dek1 = 7 ∷ 8 ∷ []

abbrev dek2 : Bytes
dek2 = 9 ∷ []

-- The first key, wrapped by the old build.
abbrev old_row : WrappedDek
old_row = record {
  id = "k1";
  key = record { encrypted_dek = dek1; iv = 5 ∷ []; auth_tag = replicate 16 1; version = "v1" };
  master_key_id = "id1";
  is_active = true;
  rotated_at = none;
  created_at = 1;
}

abbrev with_old : KeyState (List WrappedDek)
with_old = ready (old_row ∷ []) none

abbrev cached : KeyState (List WrappedDek)
cached = ready (old_row ∷ []) (some (replicate 32 1))

keys : Unit {0}
unfolding get_active_dek derive_master_key get_current_dek rotate_current_dek
    migrate_dek_to_new_master_key has_required_migration encrypt decrypt unwrap_key wrap_key
    get_master_key_id
keys = tt

derive_old : derive_master_key toy old_report ≡ ok old_master
unfolding keys
derive_old = refl

derive_new : derive_master_key toy new_report ≡ ok new_master
unfolding keys
derive_new = refl

unwrap_old : unwrap_key toy old_row.key old_master ≡ ok dek1
unfolding keys
unwrap_old = refl

old_id : old_row.master_key_id ≡ get_master_key_id toy old_master
unfolding keys
old_id = refl

foreign : old_row.master_key_id ≢ get_master_key_id toy new_master
unfolding keys
foreign e = ground (arith, eq_iff "id1" "id2")

-- A run: the old key is read, a rotation replaces it, and the cache is emptied.
run_reads :
    (get_current_dek toy (list_table WrappedDek) (env_of old_report dek2) with_old).0 ≡ ok dek1
unfolding keys
run_reads = refl

wrapped_example : (w : WrappedKey) × (wrap_key toy (5 ∷ []) dek1 old_master ≡ ok w)
unfolding keys
wrapped_example = (old_row.key, refl)

unwrap-wrap_example : unwrap_key toy wrapped_example.0 old_master ≡ ok dek1
unwrap-wrap_example = unwrap-wrap toy (5 ∷ []) dek1 old_master wrapped_example.0 wrapped_example.1

get_current-rotate_example :
    let after = rotate_current_dek toy (list_table WrappedDek) (env_of old_report dek2) with_old in
    (after.0 ≡ ok dek2)
    × ((get_current_dek toy (list_table WrappedDek) (env_of old_report []) after.1).0 ≡ ok dek2)
get_current-rotate_example =
    get_current-rotate toy (list_table WrappedDek) (env_of old_report dek2) (env_of old_report [])
      old_master (old_row ∷ []) none derive_old derive_old

get_current-migrate_example :
    let after =
      migrate_dek_to_new_master_key toy
        (list_table WrappedDek)
        (env_of new_report dek2)
        old_master
        with_old in
    (after.0 ≡ ok dek1)
    × ((get_current_dek toy (list_table WrappedDek) (env_of new_report []) after.1).0 ≡ ok dek1)
    × (let next = get_current_dek toy (list_table WrappedDek) (env_of new_report []) after.1 in
        get_current_dek toy (list_table WrappedDek) (env_of bad_report []) next.1
        ≡ (ok dek1, next.1))
get_current-migrate_example =
    get_current-migrate toy (list_table WrappedDek) (env_of new_report dek2) (env_of new_report [])
      (env_of bad_report []) old_master new_master dek1 old_row (old_row ∷ []) none refl unwrap_old
      derive_new derive_new

has_required_migration_iff_example :
    ((has_required_migration toy (list_table WrappedDek) (env_of new_report dek2) with_old).0
      ≡ ok true)
    ↔ ((get_current_dek toy (list_table WrappedDek) (env_of new_report dek2) with_old).0
        ≡ err mismatch)
has_required_migration_iff_example =
    has_required_migration_iff toy (list_table WrappedDek) (env_of new_report dek2) new_master
      (old_row ∷ []) derive_new

get_current-rotate_interrupted_example :
    let after = rotate_current_dek toy (list_table WrappedDek) (env_of old_report dek2) (record {
      world = at (list_table WrappedDek) (false ∷ true ∷ []) (old_row ∷ []);
      cached_dek = none;
    }) in
    (after.0 ≡ err lost)
    × (active_count after.1.world.db ≡ 0)
    × ((get_current_dek toy
          (list_table WrappedDek)
          (env_of old_report (1 ∷ []))
          (ready after.1.world.db none)).0
        ≡ ok (1 ∷ []))
get_current-rotate_interrupted_example =
    get_current-rotate_interrupted toy (list_table WrappedDek) (env_of old_report dek2)
      (env_of old_report (1 ∷ [])) old_master (old_row ∷ []) none derive_old derive_old

abbrev history : List KeyCall
history =
    current (env_of old_report dek2)
    ∷ rotate (env_of old_report dek2)
    ∷ restart
    ∷ migrate (env_of new_report dek1) old_master
    ∷ []

run-AtMostOne_example :
    AtMostOne (list_table WrappedDek) (run toy (list_table WrappedDek) with_old history).world
run-AtMostOne_example = run-AtMostOne toy (list_table WrappedDek) with_old history (omega arith)

abbrev iv16 : Bytes
iv16 = replicate 16 3

abbrev encrypted : Text
encrypted = digits iv16 ++ (digits (replicate 16 1) ++ digits (codes "secret"))

encrypt_runs :
    (encrypt toy (list_table WrappedDek) (env_of old_report dek2) iv16 (codes "secret") cached).0
    ≡ ok encrypted
unfolding keys
encrypt_runs = refl

decrypt-encrypt_example :
    (decrypt toy
      (list_table WrappedDek)
      (env_of bad_report [])
      encrypted
      (encrypt toy
        (list_table WrappedDek)
        (env_of old_report dek2)
        iv16
        (codes "secret")
        cached).1).0
    ≡ ok (codes "secret")
decrypt-encrypt_example =
    decrypt-encrypt toy (list_table WrappedDek) (env_of old_report dek2) (env_of bad_report []) iv16
      (codes "secret") cached encrypted refl encrypt_runs

-- Another split of the same characters at a colon has the same hash.
same_hash :
    create_credentials_hash toy (codes "a:b") (codes "c") none
    ≡ create_credentials_hash toy (codes "a") (codes "b:c") none
unfolding create_credentials_hash
same_hash = refl
