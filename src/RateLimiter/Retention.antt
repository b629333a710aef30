-- ===== src/RateLimiter/Retention.antt =====
-- Cleaning up old logs never opens the cooldown.
use zero_knowledge_aggregato.Base.{ℕ, ◌≤◌, ◌≡◌, refl, String, not, Option, none, some, find, arith}
use zero_knowledge_aggregato.Prisma.{Table, healthy}
use zero_knowledge_aggregato.Prisma.Keyed.{same_pair, same_pair_iff, find-keep, only_if}
use zero_knowledge_aggregato.RateLimiter.{
  RateLimitLog, log_key, is_log_of, is_stale, decide, check_rate_limit,
}
use zero_knowledge_aggregato.RateLimiter.Store.{
  LogsUnique, check_of_healthy, after_cleanup, rows-cleanup,
}

decide-only_if :
    (now later : ℕ) (log : Option RateLimitLog)
    → now ≤ later
    → decide later (only_if (λ r. not (is_stale now r)) log) ≡ decide later log
unfolding decide
decide-only_if now later none h = refl
decide-only_if now later (some log) h = ground arith

module _ (table : Table RateLimitLog) where
  open table use {Db, rows}

  -- Where no call of the database fails, a cleanup changes the answer of no check made at the same
  -- time or later, as long as each user and exchange has one log: the retention of 7 days is longer
  -- than the cooldown.
  pub check-cleanup :
      (now later : ℕ) (user exchange : String) (d : Db)
      → now ≤ later
      → LogsUnique (rows d)
      → (check_rate_limit table later user exchange (healthy (after_cleanup table now d))).0
        ≡ (check_rate_limit table later user exchange (healthy d)).0
  check-cleanup now later user exchange d h u = rw (
    check_of_healthy table later user exchange (after_cleanup table now d),
    check_of_healthy table later user exchange d,
    rows-cleanup table now d,
    find-keep log_key same_pair same_pair_iff (user, exchange) (λ r. not (is_stale now r)) (rows d)
        u,
    decide-only_if now later (find (is_log_of user exchange) (rows d)) h,
  )
