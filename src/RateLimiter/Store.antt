-- ===== src/RateLimiter/Store.antt =====
-- What the calls of the rate limiter do to the stored logs.
use zero_knowledge_aggregato.Base.{ℕ, ◌≡◌, refl, String, List, keep, find, not, ok}
use zero_knowledge_aggregato.Prisma.{Table, healthy, upsert_rows}
use zero_knowledge_aggregato.Prisma.Keyed.{
  same_pair, same_pair_iff, IsUnique, upsert-IsUnique, keep-IsUnique,
}
use zero_knowledge_aggregato.RateLimiter.{
  RateLimitLog, log_key, is_log_of, is_stale, first_log, bump_log, decide, check_rate_limit,
  record_sync, cleanup_old_logs, override_rate_limit,
}

abbrev pub LogsUnique : List RateLimitLog → Type 0
LogsUnique = IsUnique log_key same_pair same_pair_iff

module _ (table : Table RateLimitLog) where
  open table use {Db, rows}

  pub check_of_healthy :
      (now : ℕ) (user exchange : String) (d : Db)
      → check_rate_limit table now user exchange (healthy d)
        ≡ (ok (decide now (find (is_log_of user exchange) (rows d))), healthy d)
  unfolding check_rate_limit
  check_of_healthy now user exchange d = rw (table.find_first_lem (is_log_of user exchange) d)

  -- The database that a call leaves, where no call fails.
  abbrev pub after_record : ℕ → String → String → Db → Db
  after_record now user exchange d = (record_sync table now user exchange (healthy d)).1.db

  abbrev pub after_cleanup : ℕ → Db → Db
  after_cleanup now d = (cleanup_old_logs table now (healthy d)).1.db

  abbrev pub after_override : String → String → Db → Db
  after_override user exchange d = (override_rate_limit table user exchange (healthy d)).1.db

  pub rows-record :
      (now : ℕ) (user exchange : String) (d : Db)
      → rows (after_record now user exchange d)
        ≡ upsert_rows
            (is_log_of user exchange)
            (bump_log now)
            (first_log now user exchange)
            (rows d)
  unfolding record_sync
  rows-record now user exchange d = table.upsert_lem _ _ _ _

  pub rows-cleanup :
      (now : ℕ) (d : Db) → rows (after_cleanup now d) ≡ keep (λ r. not (is_stale now r)) (rows d)
  unfolding cleanup_old_logs
  rows-cleanup now d = table.delete_many_lem _ _

  pub rows-override :
      (user exchange : String) (d : Db)
      → rows (after_override user exchange d) ≡ keep (λ r. not (is_log_of user exchange r)) (rows d)
  unfolding override_rate_limit
  rows-override user exchange d = table.delete_many_lem _ _

  -- Recording a sync, in a database that answers, keeps one log for each user and exchange.
  record-LogsUnique :
      (now : ℕ) (user exchange : String) (d : Db)
      → LogsUnique (rows d)
      → LogsUnique (rows (after_record now user exchange d))
  record-LogsUnique now user exchange d u = rw (rows-record now user exchange d) (
      upsert-IsUnique log_key same_pair same_pair_iff (user, exchange) (bump_log now)
        (first_log now user exchange) (rows d) (λ r. refl) refl u)

  pub cleanup-LogsUnique :
      (now : ℕ) (d : Db) → LogsUnique (rows d) → LogsUnique (rows (after_cleanup now d))
  cleanup-LogsUnique now d u =
      rw (rows-cleanup now d) (keep-IsUnique log_key same_pair same_pair_iff _ (rows d) u)

  pub override-LogsUnique :
      (user exchange : String) (d : Db)
      → LogsUnique (rows d)
      → LogsUnique (rows (after_override user exchange d))
  override-LogsUnique user exchange d u =
      rw (rows-override user exchange d)
        (keep-IsUnique log_key same_pair same_pair_iff _ (rows d) u)
