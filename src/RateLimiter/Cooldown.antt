-- ===== src/RateLimiter/Cooldown.antt =====
-- How long a recorded sync blocks the next one, and what it does not block.
use zero_knowledge_aggregato.Base.{
  ℕ, ◌+◌, ◌*◌, ◌≤◌, ◌≡◌, refl, ◌≢◌, String, false, none, some, ok, find, arith, Option, ltb,
  if◌then◌else◌, ap, keep, not, List, [], ◌∷◌, Bool-cases, inl, inr, ◌-◌,
}
use zero_knowledge_aggregato.Prisma.{Table, World, healthy, failing}
use zero_knowledge_aggregato.Prisma.Keyed.{
  same_pair, same_pair_iff, find-upsert_self, find-upsert_other, upserted,
}
use zero_knowledge_aggregato.RateLimiter.{
  RateLimitLog, log_key, is_log_of, first_log, bump_log, Decision, decide, check_rate_limit, allow,
  rate_limit_hours, hour_ms,
}
use zero_knowledge_aggregato.RateLimiter.Store.{
  check_of_healthy, after_record, after_override, rows-record, rows-override,
}

abbrev pub cooldown : ℕ
cooldown = rate_limit_hours * hour_ms

-- The refusal at `now` after a sync at `last`: the wait ends exactly when the cooldown does.
abbrev pub refused : ℕ → ℕ → Decision
refused last now = record {
  allowed = false;
  refusal = some (record {
    since_last = now - last;
    remaining = last + cooldown - now;
    next_allowed = last + cooldown;
  });
}

decide_lem :
    (last now : ℕ) (log : RateLimitLog)
    → log.last_sync_time ≡ last
    → last ≤ now
    → decide now (some log) ≡ (if ltb now (last + cooldown) then refused last now else allow)
unfolding decide
decide_lem last now log e h = ground arith

stamped_at :
    (now : ℕ) (user exchange : String) (old : Option RateLimitLog)
    → (upserted (bump_log now) (first_log now user exchange) old).last_sync_time ≡ now
stamped_at now user exchange none = refl
stamped_at now user exchange (some log) = refl

module _ (table : Table RateLimitLog) where
  open table use {Db, rows}

  -- Where no call of the database fails: after a sync recorded at `now`, a later check of the same
  -- user and exchange is refused until 23 hours have passed, with the time left and the next
  -- allowed time, and is allowed from then on.
  pub check-record :
      (now later : ℕ) (user exchange : String) (d : Db)
      → now ≤ later
      → (check_rate_limit table later user exchange
          (healthy (after_record table now user exchange d))).0
        ≡ ok (if ltb later (now + cooldown) then refused now later else allow)
  check-record now later user exchange d h =
      rw
        (
          check_of_healthy table later user exchange (after_record table now user exchange d),
          rows-record table now user exchange d,
          find-upsert_self log_key same_pair same_pair_iff (user, exchange) (bump_log now)
              (first_log now user exchange) (rows d) (λ r. refl) refl,
        )
        (ap ok (
          decide_lem now later
            (upserted (bump_log now) (first_log now user exchange)
              (find (is_log_of user exchange) (rows d)))
            (stamped_at now user exchange (find (is_log_of user exchange) (rows d))) h))

  -- Where no call of the database fails, a recorded sync changes no check of another user or
  -- another exchange.
  pub check-record_other :
      (now later : ℕ) (user exchange user' exchange' : String) (d : Db)
      → ◌≢◌ {A = String × String} (user', exchange') (user, exchange)
      → (check_rate_limit table later user' exchange'
          (healthy (after_record table now user exchange d))).0
        ≡ (check_rate_limit table later user' exchange' (healthy d)).0
  check-record_other now later user exchange user' exchange' d ne = rw (
    check_of_healthy table later user' exchange' (after_record table now user exchange d),
    check_of_healthy table later user' exchange' d,
    rows-record table now user exchange d,
    find-upsert_other log_key same_pair same_pair_iff (user', exchange') (user, exchange)
        (bump_log now) (first_log now user exchange) (rows d) (λ r. refl) refl ne,
  )

  find-none_of_removed :
      (user exchange : String) (rs : List RateLimitLog)
      → find (is_log_of user exchange) (keep (λ r. not (is_log_of user exchange r)) rs) ≡ none
  find-none_of_removed user exchange [] = refl
  find-none_of_removed user exchange (r ∷ rs) = elim (Bool-cases (is_log_of user exchange r)) [
    | inl h ↦ rw h (find-none_of_removed user exchange rs)
    | inr h ↦ rw (h, h) (find-none_of_removed user exchange rs)
  ]

  -- Where no call of the database fails, the check after an override is allowed, whatever was
  -- recorded.
  pub check-override :
      (now : ℕ) (user exchange : String) (d : Db)
      → (check_rate_limit table now user exchange
          (healthy (after_override table user exchange d))).0
        ≡ ok allow
  unfolding decide
  check-override now user exchange d = rw (
    check_of_healthy table now user exchange (after_override table user exchange d),
    rows-override table user exchange d,
    find-none_of_removed user exchange (rows d),
  )

  -- A check whose database call fails is allowed (fail-open), and no call of the limiter throws.
  pub check-failing :
      (now : ℕ) (user exchange : String) (w : World Db)
      → (check_rate_limit table now user exchange (failing w)).0 ≡ ok allow
  unfolding check_rate_limit
  check-failing now user exchange w = refl
