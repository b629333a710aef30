-- ===== src/Worker/Registration.antt =====
-- src/enclave-worker.ts, `createUserConnection`, over the users and the connections.
pub mod Twice
pub mod Tests
use zero_knowledge_aggregato.Base.{
  ℕ, String, Bool, true, false, Option, none, some, Result, ok, err, Error, message, Act, pure,
  ◌>>=◌, ◌>>◌, catch,
}
use zero_knowledge_aggregato.Prisma.{Table, World}
use zero_knowledge_aggregato.Keys.Crypto.{Crypto}
use zero_knowledge_aggregato.Keys.Repository.{WrappedDek}
use zero_knowledge_aggregato.Users.{User, create_user}
use zero_knowledge_aggregato.Connections.{
  ConnectionCredentials, ConnectionRow, Draw, Store, on_table, create_connection,
  find_existing_connection,
}

pub record Registry (U K D : Type 0) : Type 0 where
  pub users : World U
  pub store : Store K D

-- What the outside gives: the clock, two identifiers of new rows, and the draws of the encryptions.
pub record Supply : Type 0 where
  pub now : ℕ
  pub user_id : String
  pub connection_id : String
  pub for_key : Draw
  pub for_secret : Draw
  pub for_passphrase : Draw

pub record RegistrationResponse : Type 0 where
  pub success : Bool
  pub user_uid : Option String
  pub error : Option Error

module _ {U K D A : Type 0} where
  abbrev pub on_users : Act (World U) A → Act (Registry U K D) A
  on_users m s = ((m s.users).0, record s { users = (m s.users).1 })

  abbrev pub on_store : Act (Store K D) A → Act (Registry U K D) A
  on_store m s = ((m s.store).0, record s { store = (m s.store).1 })

abbrev pub already_exists : Error
already_exists = message "User connection already exists (no action taken)"

abbrev pub registered : String → Option Error → RegistrationResponse
registered user error = record { success = true; user_uid = some user; error = error }

module _ (crypto : Crypto) (deks : Table WrappedDek) (users : Table User)
    (table : Table ConnectionRow) where
  open deks use {Db as KeyDb}
  open users use {Db as UserDb}
  open table use {Db}

  abbrev pub Job : Type 0 → Type 0
  Job = Act (Registry UserDb KeyDb Db)

  -- The connection is created as active.
  abbrev pub unless_existing :
      Supply → ConnectionCredentials → Option ConnectionRow → Job RegistrationResponse
  unless_existing w request (some r) = pure (registered request.user_uid (some already_exists))
  unless_existing w request none = do
    on_store (
        create_connection crypto deks table (w.for_key) (w.for_secret) (w.for_passphrase)
          w.connection_id (record request { is_active = some true }))
    pure (registered request.user_uid none)

  -- What is thrown becomes a response.
  unfoldable pub create_user_connection : Supply → ConnectionCredentials → Job RegistrationResponse
  create_user_connection w request =
      catch
        (do
          on_users (create_user users w.now w.user_id request.user_uid)
          existing ← on_store (
              on_table
                (find_existing_connection table request.user_uid request.exchange request.label))
          unless_existing w request existing)
        (λ e. pure (record { success = false; user_uid = none; error = some e }))
