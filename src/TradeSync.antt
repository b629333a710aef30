-- ===== src/TradeSync.antt =====
-- src/services/trade-sync-service.ts: counting the trades of a user's exchanges and recording how it
-- went. The connections, the connectors and the users are an interface of what the service calls; texts
-- of answers are shortened, and the logger's calls and the waits are left out.
pub mod Outcomes
pub mod Settled
pub mod Tests
use zero_knowledge_aggregato.Base.{
  ℕ, ◌+◌, String, Bool, true, false, Option, none, some, List, [], ◌∷◌, ltb, length, str_eq,
  if◌then◌else◌, Result, ok, err, Error, message, prisma, because, Act, pure, throw, ◌>>=◌, ◌>>◌,
  catch,
}
use zero_knowledge_aggregato.Prisma.{Table, World}
use zero_knowledge_aggregato.Factory.{is_supported, includes}
use zero_knowledge_aggregato.Connections.{ConnectionCredentials, ConnectionRow}
use zero_knowledge_aggregato.SyncStatuses.{
  SyncStatus, SyncStatusEnum, syncing, completed, error, pending, upsert_sync_status,
  get_all_sync_statuses,
}

-- What the service calls besides the statuses; each call may throw. `get_trades` and `test_connector`
-- are those of the connector that the cache has for the exchange and the credentials.
pub record Outside : Type 1 where
  pub State : Type 0
  pub create_user : String → Act State (Unit {0})
  pub get_decrypted_credentials : String → Act State (Option ConnectionCredentials)
  pub get_unique_credentials_for_user : String → Act State (List ConnectionRow)
  pub get_connections_by_user : String → Act State (List ConnectionRow)
  pub find_existing_connection : String → String → String → Act State (Option ConnectionRow)
  pub get_connections_by_credentials_hash :
      String → ConnectionCredentials → Act State (List ConnectionRow)
  pub create_connection : ConnectionCredentials → Act State String
  pub get_trades : String → ConnectionCredentials → ℕ → Act State (List String)
  pub test_connector : String → ConnectionCredentials → Act State Bool

pub record SyncState (S D : Type 0) : Type 0 where
  pub statuses : World D
  pub rest : S

module _ {S D A : Type 0} where
  abbrev pub on_statuses : Act (World D) A → Act (SyncState S D) A
  on_statuses m s = ((m s.statuses).0, record s { statuses = (m s.statuses).1 })

  abbrev pub on_rest : Act S A → Act (SyncState S D) A
  on_rest m s = ((m s.rest).0, record s { rest = (m s.rest).1 })

pub record SyncAnswer : Type 0 where
  pub success : Bool
  pub synced : ℕ
  pub text : Error

pub record AddAnswer : Type 0 where
  pub success : Bool
  pub text : Error
  pub connection_id : Option String

-- P2002 is the code of a violated unique key.
abbrev pub is_duplicate : Error → Bool
is_duplicate (prisma m) = str_eq m "P2002"
is_duplicate (message m) = false
is_duplicate (because p e) = false

abbrev pub status_of : String → String → Option ℕ → SyncStatusEnum → ℕ → Option Error → SyncStatus
status_of user exchange time status trades failure = record {
  user_uid = user;
  exchange = exchange;
  last_sync_time = time;
  status = status;
  total_trades = trades;
  error_message = failure;
}

abbrev pub no_credentials : Error
no_credentials = message "Failed to get exchange credentials"

abbrev pub not_supported : Error
not_supported = message "Exchange not supported"

abbrev pub already_there : AddAnswer
already_there = record {
  success = false;
  text = message "Connection already exists";
  connection_id = none;
}

-- `lower` is `toLowerCase`, `ccxt_has` tells which exchanges the library of connectors has, and
-- `start_of_day` gives the beginning of a time's day.
module _ (lower : String → String) (ccxt_has : String → Bool) (start_of_day : ℕ → ℕ)
    (outside : Outside) (table : Table SyncStatus) where
  open outside use {State}
  open table use {Db}

  abbrev pub Job : Type 0 → Type 0
  Job = Act (SyncState State Db)

  abbrev pub ensure_user : String → Job (Unit {0})
  ensure_user user =
      catch (on_rest (outside.create_user user)) (λ e. if is_duplicate e then pure tt else throw e)

  abbrev pub fetch_trade_count : ConnectionCredentials → ℕ → Act State ℕ
  fetch_trade_count c start =
      if is_supported lower ccxt_has (lower c.exchange)
      then (outside.get_trades (lower c.exchange) c start >>= λ trades. pure (length trades))
      else throw not_supported

  abbrev pub test_connection_unified : ConnectionCredentials → Act State Bool
  test_connection_unified c =
      if is_supported lower ccxt_has (lower c.exchange)
      then outside.test_connector (lower c.exchange) c
      else pure false

  abbrev pub write_status :
      String → String → Option ℕ → SyncStatusEnum → ℕ → Option Error → Job (Unit {0})
  write_status user exchange time status trades failure =
      on_statuses (upsert_sync_status table (status_of user exchange time status trades failure))

  -- The clock is read three times: at the start, for the day, and at the end.
  abbrev pub count_and_record : ℕ → String → ConnectionCredentials → Job ℕ
  count_and_record now user c =
      catch
        (do
          n ← on_rest (fetch_trade_count c (start_of_day now))
          write_status user c.exchange (some now) completed n none
          pure n)
        (λ e. write_status user c.exchange (some now) error 0 (some e) >>= λ u. throw e)

  abbrev pub sync_with : ℕ → String → Option ConnectionCredentials → Job ℕ
  sync_with now user none = throw no_credentials
  sync_with now user (some c) =
      write_status user c.exchange (some now) syncing 0 none >>= λ u. count_and_record now user c

  unfoldable pub sync_exchange_trades : ℕ → String → String → Job ℕ
  sync_exchange_trades now user id =
      on_rest (outside.get_decrypted_credentials id) >>= sync_with now user

  -- The jobs of the connections run together; each writes the status of its own exchange alone, and of
  -- their orders this is one after the other. One that throws counts as 0.
  abbrev pub sync_each : ℕ → String → List ConnectionRow → Job ℕ
  sync_each now user [] = pure 0
  sync_each now user (r ∷ rs) = catch (sync_exchange_trades now user r.id) (λ e. pure 0) >>= λ n.
      sync_each now user rs >>= λ m. pure (n + m)

  abbrev pub sync_unique : ℕ → String → List ConnectionRow → Job SyncAnswer
  sync_unique now user [] = pure (record {
    success = false;
    synced = 0;
    text = message "No active exchange connections found";
  })
  sync_unique now user (r ∷ rs) = on_rest (outside.get_connections_by_user user) >>= λ all.
      sync_each now user (r ∷ rs) >>= λ n.
      pure (record { success = true; synced = n; text = message "Processed trades" })

  abbrev pub sync_failed : Error → SyncAnswer
  sync_failed e = record { success = false; synced = 0; text = because "Sync failed" e }

  unfoldable pub sync_trades_for_statistics : ℕ → String → Job SyncAnswer
  sync_trades_for_statistics now user =
      catch (on_rest (outside.get_unique_credentials_for_user user) >>= sync_unique now user)
        (λ e. pure (sync_failed e))

  unfoldable pub sync_user_trades : ℕ → String → Job SyncAnswer
  sync_user_trades now user =
      catch
        (do
          ensure_user user
          r ← sync_trades_for_statistics now user
          pure (record { success = r.success; synced = r.synced; text = message "Sync completed" }))
        (λ e. pure (sync_failed e))

  abbrev pub sync_listed : ℕ → List SyncStatus → Job (Unit {0})
  sync_listed now [] = pure tt
  sync_listed now (s ∷ ss) =
      catch (sync_user_trades now s.user_uid >>= λ r. pure tt) (λ e. pure tt) >>= λ u.
      sync_listed now ss

  unfoldable pub sync_all_users : ℕ → Job (Unit {0})
  sync_all_users now =
      catch (on_statuses (get_all_sync_statuses table) >>= sync_listed now) (λ e. pure tt)

  abbrev pub add_tested : ConnectionCredentials → Bool → Job AddAnswer
  add_tested c false =
      pure
        (record { success = false; text = message "Invalid API credentials"; connection_id = none })
  add_tested c true = do
    id ← on_rest (outside.create_connection c)
    write_status c.user_uid c.exchange none pending 0 none
    pure (record {
      success = true;
      text = message "Exchange connection added - snapshots will be created automatically";
      connection_id = some id;
    })

  -- Connections with the same credentials are looked up for a warning alone.
  abbrev pub add_unless_existing : ConnectionCredentials → Option ConnectionRow → Job AddAnswer
  add_unless_existing c (some r) = pure already_there
  add_unless_existing c none =
      on_rest (outside.get_connections_by_credentials_hash c.user_uid c) >>= λ same.
      on_rest (test_connection_unified c) >>= add_tested c

  abbrev pub add_failed : Bool → Error → AddAnswer
  add_failed true e = already_there
  add_failed false e = record {
    success = false;
    text = because "Failed to add connection" e;
    connection_id = none;
  }

  -- `is_unique_failure` tests a text for 'UNIQUE constraint failed'.
  unfoldable pub add_exchange_connection : (Error → Bool) → ConnectionCredentials → Job AddAnswer
  add_exchange_connection is_unique_failure c =
      catch
        (do
          ensure_user c.user_uid
          existing ← on_rest (outside.find_existing_connection c.user_uid c.exchange c.label)
          add_unless_existing c existing)
        (λ e. pure (add_failed (is_unique_failure e) e))
