-- ===== src/Scheduler.antt =====
-- src/services/daily-sync-scheduler.service.ts: the daily run over all users. The repositories and
-- the aggregator that it calls are arguments, whose calls may throw. The pauses between exchanges
-- and the logger's calls are left out. Times are milliseconds and the clock is an argument.
pub mod Attempts
pub mod Running
pub mod Tests
use zero_knowledge_aggregato.Base.{
  ℕ, suc, ◌+◌, ◌-◌, ◌%◌, String, Bool, true, false, List, [], ◌∷◌, if◌then◌else◌, Result, ok, err,
  Act,
}
use zero_knowledge_aggregato.Aggregator.Rounding.{day_ms}

-- What a run calls: the users, the exchanges of a user's active connections, the snapshot.
pub record Calls (S : Type 0) : Type 0 where
  pub get_all_users : Act S (List String)
  pub get_connections_by_user : String → Act S (List String)
  pub update_current_snapshot : String → String → Act S (Unit {0})

pub record Tally : Type 0 where
  pub total_synced : ℕ
  pub total_failed : ℕ

abbrev pub count_synced : Tally → Tally
count_synced t = record t { total_synced = t.total_synced + 1 }

abbrev pub count_failed : Tally → Tally
count_failed t = record t { total_failed = t.total_failed + 1 }

module _ {S : Type 0} (calls : Calls S) where
  abbrev pub count_outcome : Tally → Result (Unit {0}) × S → Tally × S
  count_outcome t (ok u, s) = (count_synced t, s)
  count_outcome t (err e, s) = (count_failed t, s)

  abbrev pub sync_exchanges : String → List String → Tally × S → Tally × S
  sync_exchanges user [] (t, s) = (t, s)
  sync_exchanges user (ex ∷ exs) (t, s) =
      sync_exchanges user exs (count_outcome t (calls.update_current_snapshot user ex s))

  -- An error before the loop over the exchanges counts once.
  abbrev pub sync_connections : String → Tally → Result (List String) × S → Tally × S
  sync_connections user t (ok exs, s) = sync_exchanges user exs (t, s)
  sync_connections user t (err e, s) = (count_failed t, s)

  abbrev pub sync_users : List String → Tally × S → Tally × S
  sync_users [] (t, s) = (t, s)
  sync_users (user ∷ users) (t, s) =
      sync_users users (sync_connections user t (calls.get_connections_by_user user s))

  abbrev pub no_tally : Tally
  no_tally = record { total_synced = 0; total_failed = 0 }

  abbrev pub sync_listed : Result (List String) × S → Tally × S
  sync_listed (ok users, s) = sync_users users (no_tally, s)
  sync_listed (err e, s) = (no_tally, s)

  -- The body of `executeDailySync`, between setting the flag and taking it back.
  unfoldable pub daily_sync : S → Tally × S
  daily_sync s = sync_listed (calls.get_all_users s)

-- The fields of the service, and the number of runs of `executeDailySync` that await something.
pub record Scheduler : Type 0 where
  pub cron_job : Bool
  pub is_running : Bool
  pub runs : ℕ

abbrev pub stopped : Scheduler
stopped = record { cron_job = false; is_running = false; runs = 0 }

unfoldable pub start : Scheduler → Scheduler
start s = record s { cron_job = true }

unfoldable pub stop : Scheduler → Scheduler
stop s = record s { cron_job = false }

-- `executeDailySync` up to its first await.
unfoldable pub begin_run : Scheduler → Scheduler
begin_run s = if s.is_running then s else record s { is_running = true; runs = s.runs + 1 }

-- The end of a run, whether it failed or not.
unfoldable pub end_run : Scheduler → Scheduler
end_run s = record s { is_running = false; runs = s.runs - 1 }

-- Midnight UTC of the next day.
unfoldable pub get_next_sync_time : ℕ → ℕ
get_next_sync_time now = now + day_ms - (now + day_ms) % day_ms

-- `isRunning` of the status tells whether the job is scheduled.
pub record Status : Type 0 where
  pub is_running : Bool
  pub sync_in_progress : Bool
  pub next_sync_time : ℕ

unfoldable pub get_status : ℕ → Scheduler → Status
get_status now s = record {
  is_running = s.cron_job;
  sync_in_progress = s.is_running;
  next_sync_time = get_next_sync_time now;
}
