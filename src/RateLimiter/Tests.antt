-- ===== src/RateLimiter/Tests.antt =====
-- Runs of the rate limiter, and its theorems at concrete inputs.
use zero_knowledge_aggregato.Base.{
  ◌+◌, ◌*◌, ◌≡◌, ◌≢◌, refl, String, List, [], ◌∷◌, ok, arith, eq_iff, ap, if◌then◌else◌, ltb,
}
use zero_knowledge_aggregato.Prisma.{healthy}
use zero_knowledge_aggregato.Prisma.ListTable.{list_table}
use zero_knowledge_aggregato.RateLimiter.{
  RateLimitLog, allow, check_rate_limit, record_sync, decide, hour_ms, cleanup_old_logs,
  override_rate_limit,
}
use zero_knowledge_aggregato.RateLimiter.Store.{LogsUnique, after_record, after_cleanup}
use zero_knowledge_aggregato.RateLimiter.Cooldown.{cooldown, refused, check-record}
use zero_knowledge_aggregato.RateLimiter.Retention.{check-cleanup}

abbrev ann_binance : RateLimitLog
ann_binance = record { user_uid = "ann"; exchange = "binance"; last_sync_time = 10; sync_count = 3 }

abbrev two_logs : List RateLimitLog
two_logs = ann_binance ∷ record ann_binance { exchange = "okx" } ∷ []

two_logs-LogsUnique : LogsUnique two_logs
two_logs-LogsUnique = (refl, (refl, tt))

limiter : Unit {0}
unfolding check_rate_limit record_sync cleanup_old_logs override_rate_limit decide
limiter = tt

-- Twenty-two hours later the sync is refused, with an hour to wait.
refused_run :
    (check_rate_limit
      (list_table RateLimitLog)
      (10 + 22 * hour_ms)
      "ann"
      "binance"
      (healthy two_logs)).0
    ≡ ok (refused 10 (10 + 22 * hour_ms))
unfolding limiter
refused_run = refl

check-record_example :
    (check_rate_limit
      (list_table RateLimitLog)
      2000
      "ann"
      "binance"
      (healthy (after_record (list_table RateLimitLog) 1000 "ann" "binance" two_logs))).0
    ≡ ok (if ltb 2000 (1000 + cooldown) then refused 1000 2000 else allow)
check-record_example =
    check-record (list_table RateLimitLog) 1000 2000 "ann" "binance" two_logs (omega arith)

bob_is_other : ◌≢◌ {A = String × String} ("bob", "binance") ("ann", "binance")
bob_is_other e = ground (arith, eq_iff "bob" "ann", ap (λ p. p.0) e)

check-cleanup_example :
    (check_rate_limit
      (list_table RateLimitLog)
      700000000
      "ann"
      "binance"
      (healthy (after_cleanup (list_table RateLimitLog) 700000000 two_logs))).0
    ≡ (check_rate_limit (list_table RateLimitLog) 700000000 "ann" "binance" (healthy two_logs)).0
check-cleanup_example =
    check-cleanup (list_table RateLimitLog) 700000000 700000000 "ann" "binance" two_logs
      (omega arith) two_logs-LogsUnique
