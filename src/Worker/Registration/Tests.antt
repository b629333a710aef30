-- ===== src/Worker/Registration/Tests.antt =====
-- Registering a connection twice with a cipher that runs, in tables that are lists.
use zero_knowledge_aggregato.Base.{
  ℕ, ◌≡◌, refl, String, false, none, some, List, [], replicate, ok, length,
}
use zero_knowledge_aggregato.Prisma.{healthy}
use zero_knowledge_aggregato.Prisma.ListTable.{list_table}
use zero_knowledge_aggregato.Keys.Crypto.{codes}
use zero_knowledge_aggregato.Keys.ToyCipher.{toy}
use zero_knowledge_aggregato.Keys.Repository.{WrappedDek}
use zero_knowledge_aggregato.Keys.Management.{Surroundings, KeyState, get_current_dek}
use zero_knowledge_aggregato.Users.{User}
use zero_knowledge_aggregato.Connections.{ConnectionCredentials, ConnectionRow, Draw}
use zero_knowledge_aggregato.Worker.Registration.{
  Supply, already_exists, registered, create_user_connection,
}
use zero_knowledge_aggregato.Worker.Registration.Twice.{at_rest, create_user_connection-twice}

abbrev surroundings : Surroundings
surroundings = record {
  now = 100;
  new_id = "k1";
  report = record {
    verified = false;
    sev_snp_enabled = false;
    measurement = none;
    platform_version = none;
  };
  random_dek = [];
  random_iv = [];
}

abbrev cached : KeyState (List WrappedDek)
cached = record { world = healthy []; cached_dek = some (replicate 32 1) }

abbrev draw : ℕ → Draw
draw n = record { env = surroundings; iv = replicate 16 n }

abbrev supply : ℕ → String → String → Supply
supply now user connection = record {
  now = now;
  user_id = user;
  connection_id = connection;
  for_key = draw 1;
  for_secret = draw 2;
  for_passphrase = draw 3;
}

abbrev bob : ConnectionCredentials
bob = record {
  user_uid = "bob";
  exchange = "bitget";
  label = "main";
  api_key = codes "key";
  api_secret = codes "secret";
  passphrase = none;
  is_active = none;
}

cached_key :
    (get_current_dek toy (list_table WrappedDek) surroundings cached).0 ≡ ok (replicate 32 1)
unfolding get_current_dek
cached_key = refl

create_user_connection-twice_example :
    let register =
      create_user_connection toy
        (list_table WrappedDek)
        (list_table User)
        (list_table ConnectionRow) in
    let start =
      at_rest toy
        (list_table WrappedDek)
        (list_table User)
        (list_table ConnectionRow)
        []
        cached
        [] in
    let first = register (supply 7 "u1" "c1") bob start in
    let second =
      register
        (supply 9 "u2" "c2")
        (record bob {
          api_key = codes "new key";
          api_secret = codes "new secret";
          passphrase = some (codes "word");
        })
        first.1 in
    (first.0 ≡ ok (registered "bob" none))
    × (second.0 ≡ ok (registered "bob" (some already_exists)))
    × (second.1.store ≡ first.1.store)
    × (second.1.users.db ≡ first.1.users.db)
    × (length first.1.store.world.db ≡ 1)
create_user_connection-twice_example =
    create_user_connection-twice toy (list_table WrappedDek) (list_table User)
      (list_table ConnectionRow) (supply 7 "u1" "c1") (supply 9 "u2" "c2") bob [] cached []
      (replicate 32 1) (codes "new key") (codes "new secret") (some (codes "word")) cached_key refl
      refl refl
