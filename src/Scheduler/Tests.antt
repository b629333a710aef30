-- ===== src/Scheduler/Tests.antt =====
-- Runs of the scheduler, and its theorems at concrete inputs.
use zero_knowledge_aggregato.Base.{
  ℕ, ◌+◌, ◌≡◌, refl, String, List, [], ◌∷◌, Result, ok, err, message, pure, map, str_eq,
  if◌then◌else◌,
}
use zero_knowledge_aggregato.Scheduler.{Calls, Scheduler, stopped, start, begin_run, daily_sync}
use zero_knowledge_aggregato.Scheduler.Running.{
  Reachable, counted, Reachable-counted, starts, ticks, triggers, new, then_step,
}
use zero_knowledge_aggregato.Scheduler.Attempts.{
  attempts, all_due, logged, Answered, events_of, daily_sync-attempts,
}

abbrev connections : String → Result (List String)
connections user = if str_eq user "bob" then err (message "lost") else ok ("okx" ∷ "kraken" ∷ [])

-- The state counts the snapshots; those of kraken fail.
abbrev calls : Calls ℕ
calls = record {
  get_all_users = pure ("ann" ∷ "bob" ∷ "eve" ∷ []);
  get_connections_by_user = λ user s. (connections user, s);
  update_current_snapshot =
      λ user ex s. if str_eq ex "kraken" then (err (message "down"), s) else (ok tt, s + 1);
}

two_snapshots : (daily_sync calls 0) ≡ (record { total_synced = 2; total_failed = 3 }, 2)
unfolding daily_sync
two_snapshots = refl

daily_sync-attempts_example :
    let users : List String = "ann" ∷ "bob" ∷ "eve" ∷ [] in
    let run = daily_sync (logged calls) (0, []) in
    (answers : List Answered) × (map (λ (p : Answered). p.0) answers ≡ users)
    × (run ≡ ((daily_sync calls 0).0, ((daily_sync calls 0).1, events_of answers)))
    × (attempts run.0 ≡ all_due answers)
daily_sync-attempts_example = daily_sync-attempts calls ("ann" ∷ "bob" ∷ "eve" ∷ []) 0 refl

-- A started service, a tick, and a trigger while the run of the tick awaits.
abbrev busy : Scheduler
busy = begin_run (begin_run (start stopped))

busy-Reachable : Reachable busy
unfolding start
busy-Reachable =
    then_step _ _ (then_step _ _ (then_step _ _ new (starts stopped)) (ticks (start stopped) refl))
      (triggers _)

Reachable-counted_example : busy.runs ≡ counted busy
Reachable-counted_example = Reachable-counted busy busy-Reachable
