-- ===== src/SyncStatuses.antt =====
-- src/core/repositories/sync-status-repository.ts: the state of each user's synchronisation with each
-- exchange, over the table SyncStatus. Generated ids, the times of creation and change, and the order of
-- rows are left out.
use zero_knowledge_aggregato.Base.{
  ℕ, String, Bool, true, false, Option, none, List, ltb, str_eq, if◌then◌else◌, Error, message, Act,
  pure, throw, ◌>>=◌,
}
use zero_knowledge_aggregato.Prisma.{Table, World, query, execute, call}
use zero_knowledge_aggregato.Prisma.Keyed.{same_pair}
use zero_knowledge_aggregato.Aggregator.Snapshots.{keep_if_none}

pub data SyncStatusEnum : Type 0 where
  pending : SyncStatusEnum
  syncing : SyncStatusEnum
  completed : SyncStatusEnum
  error : SyncStatusEnum

pub record SyncStatus : Type 0 where
  pub user_uid : String
  pub exchange : String
  pub last_sync_time : Option ℕ
  pub status : SyncStatusEnum
  pub total_trades : ℕ
  pub error_message : Option Error

-- The compound unique key `userUid_exchange`.
abbrev pub key_of : SyncStatus → String × String
key_of r = (r.user_uid, r.exchange)

abbrev pub has_key : String → String → SyncStatus → Bool
has_key user exchange r = same_pair (key_of r) (user, exchange)

-- An update keeps the stored value where the new one is `undefined`.
abbrev pub overwrite : SyncStatus → SyncStatus → SyncStatus
overwrite s r = record r {
  last_sync_time = keep_if_none s.last_sync_time r.last_sync_time;
  status = s.status;
  total_trades = s.total_trades;
  error_message = keep_if_none s.error_message r.error_message;
}

abbrev pub is_waiting : SyncStatusEnum → Bool
is_waiting pending = true
is_waiting syncing = true
is_waiting completed = false
is_waiting error = false

abbrev pub is_failed : SyncStatusEnum → Bool
is_failed error = true
is_failed pending = false
is_failed syncing = false
is_failed completed = false

abbrev pub reset : SyncStatus → SyncStatus
reset r = record r { status = pending; last_sync_time = none; error_message = none }

abbrev pub no_status : Error
no_status = message "Record not found"

module _ (table : Table SyncStatus) where
  open table use {Db}

  unfoldable pub upsert_sync_status : SyncStatus → Act (World Db) (Unit {0})
  upsert_sync_status s = execute (table.upsert (has_key s.user_uid s.exchange) (overwrite s) s)

  unfoldable pub get_sync_status : String → String → Act (World Db) (Option SyncStatus)
  get_sync_status user exchange = query (table.find_first (has_key user exchange))

  unfoldable pub get_all_sync_statuses : Act (World Db) (List SyncStatus)
  get_all_sync_statuses = query (table.find_many (λ r. true))

  unfoldable pub get_sync_statuses_by_user : String → Act (World Db) (List SyncStatus)
  get_sync_statuses_by_user user = query (table.find_many (λ r. str_eq r.user_uid user))

  unfoldable pub get_pending_syncs : Act (World Db) (List SyncStatus)
  get_pending_syncs = query (table.find_many (λ r. is_waiting r.status))

  unfoldable pub get_error_syncs : Act (World Db) (List SyncStatus)
  get_error_syncs = query (table.find_many (λ r. is_failed r.status))

  -- `delete` and `update` throw where no row has the key.
  unfoldable pub delete_sync_status : String → String → Act (World Db) (Unit {0})
  delete_sync_status user exchange = do
    n ←
        call (λ d.
          (table.count (has_key user exchange) d, table.delete_many (has_key user exchange) d))
    if ltb 0 n then pure tt else throw no_status

  unfoldable pub reset_sync_status : String → String → Act (World Db) (Unit {0})
  reset_sync_status user exchange = do
    n ← call (λ d.
        (table.count (has_key user exchange) d, table.update_many (has_key user exchange) reset d))
    if ltb 0 n then pure tt else throw no_status
