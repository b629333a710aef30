-- ===== src/Scheduler/Running.antt =====
-- Interleavings of the scheduler: ticks of the clock, manual triggers and ends of runs.
use zero_knowledge_aggregato.Base.{
  ℕ, ◌+◌, ◌%◌, ◌≤◌, ◌<◌, ◌≡◌, refl, true, if◌then◌else◌, arith, Bool-cases, inl, inr,
}
use zero_knowledge_aggregato.Aggregator.Rounding.{day_ms}
use zero_knowledge_aggregato.Scheduler.{
  Scheduler, stopped, start, stop, begin_run, end_run, get_next_sync_time, get_status,
}

-- What can happen next. The clock ticks only for a started job; a run that awaits may end.
pub data Step : Scheduler → Scheduler → Type 0 where
  starts : (s : Scheduler) → Step s (start s)
  stops : (s : Scheduler) → Step s (stop s)
  ticks : (s : Scheduler) → s.cron_job ≡ true → Step s (begin_run s)
  triggers : (s : Scheduler) → Step s (begin_run s)
  ends : (s : Scheduler) → 1 ≤ s.runs → Step s (end_run s)

-- The states that a new service can come to.
pub data Reachable : Scheduler → Type 0 where
  new : Reachable stopped
  then_step : (s s' : Scheduler) → Reachable s → Step s s' → Reachable s'

abbrev pub counted : Scheduler → ℕ
counted s = if s.is_running then 1 else 0

begin_run_counted :
    (s : Scheduler) → s.runs ≡ counted s → (begin_run s).runs ≡ counted (begin_run s)
unfolding begin_run
begin_run_counted s h = elim (Bool-cases s.is_running) [
  | inl e ↦ rw e (ground (arith, h, e))
  | inr e ↦ rw e (ground (arith, h, e))
]

Step-counted : (s s' : Scheduler) → Step s s' → s.runs ≡ counted s → s'.runs ≡ counted s'
unfolding start stop end_run
Step-counted s _ (starts _) h = h
Step-counted s _ (stops _) h = h
Step-counted s _ (ticks _ e) h = begin_run_counted s h
Step-counted s _ (triggers _) h = begin_run_counted s h
Step-counted s _ (ends _ e) h = ground (arith, h)

-- In every reachable state at most one daily run is under way, and the flag tells whether one is,
-- however ticks, triggers, starts, stops and ends of runs follow each other.
pub Reachable-counted : (s : Scheduler) → Reachable s → s.runs ≡ counted s
Reachable-counted _ new = refl
Reachable-counted s' (then_step s _ r st) = Step-counted s s' st (Reachable-counted s r)

-- The next run that the status shows is at midnight UTC, after now and at most a day ahead.
next_sync_time-bounds :
    (now : ℕ) (s : Scheduler)
    → let next = (get_status now s).next_sync_time in
      (next % day_ms ≡ 0) × (now < next) × (next ≤ now + day_ms)
unfolding get_status get_next_sync_time
next_sync_time-bounds now s = (omega arith, omega arith, omega arith)
