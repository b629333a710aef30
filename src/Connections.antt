-- ===== src/Connections.antt =====
-- src/core/repositories/exchange-connection-repository.ts: the connections of users to exchanges,
-- with encrypted credentials, over the table ExchangeConnection. The order of rows is left out. The
-- data encryption keys have a database of their own, so a call of either may fail.
pub mod RoundTrip
pub mod Unique
pub mod Tests
use zero_knowledge_aggregato.Factory.{includes}
use zero_knowledge_aggregato.Base.{
  not, ◌++◌, ℕ, String, Bool, true, false, ◌&&◌, Option, none, some, List, [], ◌∷◌, map, ltb,
  str_eq, if◌then◌else◌, Result, ok, err, Error, message, Act, pure, throw, ◌>>=◌, ◌>>◌, catch,
}
use zero_knowledge_aggregato.Prisma.{Table, World, query, call, execute}
use zero_knowledge_aggregato.Keys.Crypto.{Bytes, Text, Crypto}
use zero_knowledge_aggregato.Keys.Repository.{WrappedDek}
use zero_knowledge_aggregato.Keys.Management.{Surroundings, KeyState}
use zero_knowledge_aggregato.Keys.Encryption.{encrypt, decrypt, create_credentials_hash}

-- ExchangeCredentials, as texts of character codes.
pub record ConnectionCredentials : Type 0 where
  pub user_uid : String
  pub exchange : String
  pub label : String
  pub api_key : Text
  pub api_secret : Text
  pub passphrase : Option Text
  pub is_active : Option Bool

-- A missing hash is the empty text.
pub record ConnectionRow : Type 0 where
  pub id : String
  pub user_uid : String
  pub exchange : String
  pub label : String
  pub encrypted_api_key : Text
  pub encrypted_api_secret : Text
  pub encrypted_passphrase : Option Text
  pub credentials_hash : String
  pub is_active : Bool

-- What one encryption finds outside: the surroundings of the key service, and its random bytes.
pub record Draw : Type 0 where
  pub env : Surroundings
  pub iv : Bytes

pub record Store (K D : Type 0) : Type 0 where
  pub keys : KeyState K
  pub world : World D

module _ {K D A : Type 0} where
  abbrev pub on_keys : Act (KeyState K) A → Act (Store K D) A
  on_keys m s = ((m s.keys).0, record s { keys = (m s.keys).1 })

  abbrev pub on_table : Act (World D) A → Act (Store K D) A
  on_table m s = ((m s.world).0, record s { world = (m s.world).1 })

abbrev pub already_connected : Error
already_connected = message "Exchange is already connected"

-- The unique key `userUid_exchange`.
abbrev pub is_taken : String → String → ConnectionRow → Bool
is_taken user exchange r = str_eq r.user_uid user && str_eq r.exchange exchange

abbrev pub active_or_true : Option Bool → Bool
active_or_true none = true
active_or_true (some b) = b

abbrev pub is_active_id : String → ConnectionRow → Bool
is_active_id id r = str_eq r.id id && r.is_active

abbrev pub is_of_user : Bool → String → ConnectionRow → Bool
is_of_user true user r = str_eq r.user_uid user && r.is_active
is_of_user false user r = str_eq r.user_uid user

-- The variables of `getUniqueCredentialsForUser`; the set is the list of its insertions.
pub record Collected : Type 0 where
  pub unique_connections : List ConnectionRow
  pub seen_hashes : List String

abbrev pub visit : ConnectionRow → Collected → Collected
visit r acc =
    if not (str_eq r.credentials_hash "") && not (includes acc.seen_hashes r.credentials_hash)
    then (record {
      unique_connections = acc.unique_connections ++ (r ∷ []);
      seen_hashes = acc.seen_hashes ++ (r.credentials_hash ∷ []);
    })
    else acc

abbrev pub visit_all : List ConnectionRow → Collected → Collected
visit_all [] acc = acc
visit_all (r ∷ rs) acc = visit_all rs (visit r acc)

abbrev pub no_connections : Collected
no_connections = record { unique_connections = []; seen_hashes = [] }

module _ (table : Table ConnectionRow) where
  open table use {Db}

  unfoldable pub find_existing_connection :
      String → String → String → Act (World Db) (Option ConnectionRow)
  find_existing_connection user exchange label =
      query
        (table.find_first (λ r. is_taken user exchange r && str_eq r.label label && r.is_active))

  unfoldable pub get_unique_credentials_for_user : String → Act (World Db) (List ConnectionRow)
  get_unique_credentials_for_user user = do
    connections ← query (table.find_many (is_of_user true user))
    pure (visit_all connections no_connections).unique_connections

  unfoldable pub get_connections_by_credentials_hash :
      String → String → Act (World Db) (List ConnectionRow)
  get_connections_by_credentials_hash user hash =
      query (table.find_many (λ r. str_eq r.user_uid user && str_eq r.credentials_hash hash))

  unfoldable pub count_connections_by_user : String → Act (World Db) ℕ
  count_connections_by_user user = query (table.count (is_of_user true user))

  unfoldable pub count_all_active_connections : Act (World Db) ℕ
  count_all_active_connections = query (table.count (λ r. r.is_active))

module _ (crypto : Crypto) (deks : Table WrappedDek) (table : Table ConnectionRow) where
  open deks use {Db as KeyDb}
  open table use {Db}

  abbrev pub Repo : Type 0 → Type 0
  Repo = Act (Store KeyDb Db)

  -- `passphrase ? encrypt(passphrase) : null`
  abbrev pub encrypt_optional : Draw → Option Text → Repo (Option Text)
  encrypt_optional w none = pure none
  encrypt_optional w (some []) = pure none
  encrypt_optional w (some (c ∷ s)) = do
    e ← on_keys (encrypt crypto deks (w.env) (w.iv) (c ∷ s))
    pure (some e)

  -- One call: it throws where the unique key is taken, and adds the row otherwise.
  abbrev pub create_row : ConnectionRow → Act (World Db) ConnectionRow
  create_row r = do
    taken ← call (λ d.
        let n = table.count (is_taken r.user_uid r.exchange) d in
        (ltb 0 n, if ltb 0 n then d else table.create r d))
    if taken then throw already_connected else pure r

  abbrev pub row_of : String → ConnectionCredentials → Text → Text → Option Text → ConnectionRow
  row_of id c key secret passphrase = record {
    id = id;
    user_uid = c.user_uid;
    exchange = c.exchange;
    label = c.label;
    encrypted_api_key = key;
    encrypted_api_secret = secret;
    encrypted_passphrase = passphrase;
    credentials_hash = create_credentials_hash crypto c.api_key c.api_secret c.passphrase;
    is_active = active_or_true c.is_active;
  }

  unfoldable pub create_connection :
      Draw → Draw → Draw → String → ConnectionCredentials → Repo ConnectionRow
  create_connection w1 w2 w3 id c = do
    key ← on_keys (encrypt crypto deks (w1.env) (w1.iv) (c.api_key))
    secret ← on_keys (encrypt crypto deks (w2.env) (w2.iv) (c.api_secret))
    passphrase ← encrypt_optional w3 c.passphrase
    on_table (create_row (row_of id c key secret passphrase))

  unfoldable pub get_connections_by_user : String → Bool → Repo (List ConnectionRow)
  get_connections_by_user user active_only =
      on_table (query (table.find_many (is_of_user active_only user)))

  -- The empty text is no passphrase.
  abbrev pub decrypt_optional : Surroundings → Option Text → Repo (Option Text)
  decrypt_optional env none = pure none
  decrypt_optional env (some []) = pure none
  decrypt_optional env (some (c ∷ s)) = do
    p ← on_keys (decrypt crypto deks env (c ∷ s))
    pure (some p)

  abbrev pub open_row :
      Surroundings
      → Surroundings
      → Surroundings
      → ConnectionRow
      → Repo (Option ConnectionCredentials)
  open_row e1 e2 e3 r = do
    key ← on_keys (decrypt crypto deks e1 r.encrypted_api_key)
    secret ← on_keys (decrypt crypto deks e2 r.encrypted_api_secret)
    passphrase ← decrypt_optional e3 r.encrypted_passphrase
    pure (
        some (record {
          user_uid = r.user_uid;
          exchange = r.exchange;
          label = r.label;
          api_key = key;
          api_secret = secret;
          passphrase = passphrase;
          is_active = some r.is_active;
        }))

  -- Credentials that cannot be decrypted are answered like a connection that is not there.
  abbrev pub open_found :
      Surroundings
      → Surroundings
      → Surroundings
      → Option ConnectionRow
      → Repo (Option ConnectionCredentials)
  open_found e1 e2 e3 none = pure none
  open_found e1 e2 e3 (some r) = catch (open_row e1 e2 e3 r) (λ e. pure none)

  unfoldable pub get_decrypted_credentials :
      Surroundings → Surroundings → Surroundings → String → Repo (Option ConnectionCredentials)
  get_decrypted_credentials e1 e2 e3 id = do
    found ← on_table (query (table.find_first (is_active_id id)))
    open_found e1 e2 e3 found
