-- ===== src/RateLimiter.antt =====
-- src/services/sync-rate-limiter.service.ts: the cooldown between two syncs of one user and
-- exchange, over the table SyncRateLimitLog. Times are milliseconds; `new Date()` is the argument
-- `now`. The logger's calls are left out.
pub mod Store
pub mod Cooldown
pub mod Retention
pub mod Tests
use zero_knowledge_aggregato.Base.{
  ℕ, ◌+◌, ◌-◌, ◌*◌, String, Bool, true, false, ◌&&◌, Option, none, some, List, map, leb, ltb,
  str_eq, if◌then◌else◌, pure, ◌>>=◌, ◌>>◌, catch, Act, length,
}
use zero_knowledge_aggregato.Prisma.Keyed.{same_pair}
use zero_knowledge_aggregato.Prisma.{Table, World, query, execute, call}

abbrev pub rate_limit_hours : ℕ
rate_limit_hours = 23

abbrev pub log_retention_days : ℕ
log_retention_days = 7

abbrev pub hour_ms : ℕ
hour_ms = 1000 * 60 * 60

abbrev pub day_ms : ℕ
day_ms = 24 * 60 * 60 * 1000

-- A row of SyncRateLimitLog.
pub record RateLimitLog : Type 0 where
  pub user_uid : String
  pub exchange : String
  pub last_sync_time : ℕ
  pub sync_count : ℕ

abbrev pub log_key : RateLimitLog → String × String
log_key log = (log.user_uid, log.exchange)

-- The compound unique key `userUid_exchange`.
abbrev pub is_log_of : String → String → RateLimitLog → Bool
is_log_of user exchange log = same_pair (log_key log) (user, exchange)

-- The numbers that the refusal's text is made of, in milliseconds.
pub record Refusal : Type 0 where
  pub since_last : ℕ
  pub remaining : ℕ
  pub next_allowed : ℕ

pub record Decision : Type 0 where
  pub allowed : Bool
  pub refusal : Option Refusal

abbrev pub allow : Decision
allow = record { allowed = true; refusal = none }

-- `hoursSinceLastSync >= RATE_LIMIT_HOURS`, with both sides in milliseconds. A last sync in the
-- future gives a negative time there, and 0 here: neither reaches the limit.
unfoldable pub decide : ℕ → Option RateLimitLog → Decision
decide now none = allow
decide now (some last) =
    let since = now - last.last_sync_time in
    let limit = rate_limit_hours * hour_ms in
    if leb limit since then allow else (record {
      allowed = false;
      refusal = some (record {
        since_last = since;
        remaining = limit - since;
        next_allowed = last.last_sync_time + limit;
      });
    })

pub record LogStat : Type 0 where
  pub exchange : String
  pub last_sync_time : ℕ
  pub sync_count : ℕ

abbrev pub stat_of : RateLimitLog → LogStat
stat_of log = record {
  exchange = log.exchange;
  last_sync_time = log.last_sync_time;
  sync_count = log.sync_count;
}

abbrev pub first_log : ℕ → String → String → RateLimitLog
first_log now user exchange = record {
  user_uid = user;
  exchange = exchange;
  last_sync_time = now;
  sync_count = 1;
}

abbrev pub bump_log : ℕ → RateLimitLog → RateLimitLog
bump_log now log = record log { last_sync_time = now; sync_count = log.sync_count + 1 }

abbrev pub is_stale : ℕ → RateLimitLog → Bool
is_stale now log = ltb (log.last_sync_time + log_retention_days * day_ms) now

module _ (table : Table RateLimitLog) where
  open table use {Db}

  -- Any error lets the sync through (fail-open).
  unfoldable pub check_rate_limit : ℕ → String → String → Act (World Db) Decision
  check_rate_limit now user exchange =
      catch (do last ← query (table.find_first (is_log_of user exchange)); pure (decide now last))
        (λ e. pure allow)

  unfoldable pub record_sync : ℕ → String → String → Act (World Db) (Unit {0})
  record_sync now user exchange =
      catch
        (execute
          (table.upsert (is_log_of user exchange) (bump_log now) (first_log now user exchange)))
        (λ e. pure tt)

  -- `deleteMany` of the rows before the cutoff date; the count of removed rows is returned.
  unfoldable pub cleanup_old_logs : ℕ → Act (World Db) ℕ
  cleanup_old_logs now =
      catch (call (λ d. (table.count (is_stale now) d, table.delete_many (is_stale now) d)))
        (λ e. pure 0)

  -- The rows of one user; their order by time is not modelled.
  unfoldable pub get_user_rate_limit_stats : String → Act (World Db) (List LogStat)
  get_user_rate_limit_stats user =
      catch
        (do
          logs ← query (table.find_many (λ log. str_eq log.user_uid user))
          pure (map stat_of logs))
        (λ e. pure List.[])

  -- `delete` throws when no row has the key, and the error is only logged.
  unfoldable pub override_rate_limit : String → String → Act (World Db) (Unit {0})
  override_rate_limit user exchange =
      catch (execute (table.delete_many (is_log_of user exchange))) (λ e. pure tt)
