-- ===== src/Connections/Tests.antt =====
-- Runs of the connections with a cipher that runs, and their theorems at concrete inputs.
use zero_knowledge_aggregato.Base.{
  ℕ, ◌≡◌, refl, String, true, false, map, All, keep, none, some, List, [], ◌∷◌, replicate, ok, err,
}
use zero_knowledge_aggregato.Prisma.{healthy}
use zero_knowledge_aggregato.Prisma.ListTable.{list_table}
use zero_knowledge_aggregato.Keys.Crypto.{codes}
use zero_knowledge_aggregato.Keys.ToyCipher.{toy}
use zero_knowledge_aggregato.Keys.Repository.{WrappedDek}
use zero_knowledge_aggregato.Keys.Management.{Surroundings, KeyState, get_current_dek}
use zero_knowledge_aggregato.Keys.Encryption.{encrypt}
use zero_knowledge_aggregato.Connections.{
  ConnectionCredentials, ConnectionRow, Draw, Store, create_connection, get_decrypted_credentials,
  already_connected, row_of, get_unique_credentials_for_user, is_of_user,
}
use zero_knowledge_aggregato.Connections.Unique.{
  hash_of, IsHashed, NoRepeats, accounted, get_unique_credentials_for_user-NoRepeats,
}
use zero_knowledge_aggregato.Connections.RoundTrip.{get_decrypted-create}

abbrev surroundings : Surroundings
surroundings = record {
  now = 100;
  new_id = "k1";
  report = record {
    verified = false;
    sev_snp_enabled = false;
    measurement = none;
    platform_version = none;
  };
  random_dek = [];
  random_iv = [];
}

abbrev cached : KeyState (List WrappedDek)
cached = record { world = healthy []; cached_dek = some (replicate 32 1) }

abbrev draw : ℕ → Draw
draw n = record { env = surroundings; iv = replicate 16 n }

abbrev ann : ConnectionCredentials
ann = record {
  user_uid = "ann";
  exchange = "okx";
  label = "main";
  api_key = codes "key";
  api_secret = codes "secret";
  passphrase = some (codes "word");
  is_active = none;
}

abbrev tables : List ConnectionRow → Store (List WrappedDek) (List ConnectionRow)
tables rows = record { keys = cached; world = healthy rows }

cached_key :
    (get_current_dek toy (list_table WrappedDek) surroundings cached).0 ≡ ok (replicate 32 1)
unfolding get_current_dek
cached_key = refl

-- A second connection to the exchange is refused, whatever its label.
taken :
    (create_connection toy
      (list_table WrappedDek)
      (list_table ConnectionRow)
      (draw 1)
      (draw 2)
      (draw 3)
      "c2"
      (record ann { label = "other" })
      (tables
        (row_of toy (list_table WrappedDek) (list_table ConnectionRow) "c1" ann [] [] none ∷ []))).0
    ≡ err already_connected
unfolding create_connection encrypt get_current_dek
taken = refl

get_decrypted-create_example :
    let created =
      create_connection toy
        (list_table WrappedDek)
        (list_table ConnectionRow)
        (draw 1)
        (draw 2)
        (draw 3)
        "c1"
        ann
        (tables []) in
    (row : ConnectionRow) × (created.0 ≡ ok row)
    × ((get_decrypted_credentials toy
          (list_table WrappedDek)
          (list_table ConnectionRow)
          surroundings
          surroundings
          surroundings
          "c1"
          created.1).0
        ≡ ok (some (record ann { passphrase = some (codes "word"); is_active = some true })))
get_decrypted-create_example =
    get_decrypted-create toy (list_table WrappedDek) (list_table ConnectionRow) (draw 1) (draw 2)
      (draw 3) surroundings surroundings surroundings "c1" ann cached [] (replicate 32 1) cached_key
      refl refl refl refl refl refl

abbrev row : String → String → ConnectionRow
row id hash = record {
  id = id;
  user_uid = "ann";
  exchange = id;
  label = "main";
  encrypted_api_key = [];
  encrypted_api_secret = [];
  encrypted_passphrase = none;
  credentials_hash = hash;
  is_active = true;
}

-- Two connections of one account, and one without a hash.
abbrev three_rows : List ConnectionRow
three_rows = row "okx" "h1" ∷ row "kraken" "h1" ∷ row "mexc" "" ∷ []

one_account :
    (get_unique_credentials_for_user (list_table ConnectionRow) "ann" (healthy three_rows)).0
    ≡ ok (row "okx" "h1" ∷ [])
unfolding get_unique_credentials_for_user
one_account = refl

get_unique_credentials_for_user-NoRepeats_example :
    (us : List ConnectionRow) × ((get_unique_credentials_for_user
        (list_table ConnectionRow)
        "ann"
        (healthy three_rows)).0
      ≡ ok us)
    × All (IsHashed (keep (is_of_user true "ann") three_rows)) us
    × NoRepeats (map hash_of us)
    × All (λ q. accounted (map hash_of us) q ≡ true) (keep (is_of_user true "ann") three_rows)
get_unique_credentials_for_user-NoRepeats_example =
    get_unique_credentials_for_user-NoRepeats (list_table ConnectionRow) "ann" three_rows
