-- ===== src/Scheduler/Attempts.antt =====
-- What a daily run attempts.
use mathlib.Core.List.{append-nil, append_assoc}
use zero_knowledge_aggregato.Base.{
  ℕ, ◌+◌, ◌≡◌, refl, sym, ap, ◌∙◌, String, List, [], ◌∷◌, ◌++◌, map, length, Result, ok, err, arith,
}
use zero_knowledge_aggregato.Scheduler.{
  Calls, Tally, count_outcome, sync_exchanges, sync_connections, sync_users, sync_listed,
  daily_sync, no_tally,
}

-- A read of a user's active connections with its answer, and an attempt at a snapshot.
pub data Event : Type 0 where
  listed : String → Result (List String) → Event
  attempted : String → String → Event

-- What is called for after an answer: one attempt for each exchange, or none where it was an error.
abbrev pub attempts_for : String → Result (List String) → List Event
attempts_for user (ok exs) = map (attempted user) exs
attempts_for user (err e) = []

-- A user with the answer of the read of the user's connections.
abbrev pub Answered : Type 0
Answered = String × Result (List String)

-- Each user in turn: the read, then the attempts that its answer calls for.
abbrev pub events_of : List Answered → List Event
events_of [] = []
events_of ((user, r) ∷ rest) = listed user r ∷ (attempts_for user r ++ events_of rest)

-- The outcomes that are counted: one for each attempt, or one failure for a read that throws.
abbrev pub due : Result (List String) → ℕ
due (ok exs) = length exs
due (err e) = 1

abbrev pub all_due : List Answered → ℕ
all_due [] = 0
all_due ((user, r) ∷ rest) = due r + all_due rest

abbrev pub attempts : Tally → ℕ
attempts t = t.total_synced + t.total_failed

module _ {S : Type 0} (calls : Calls S) where
  -- The same calls, with a log of those on connections and snapshots.
  abbrev pub logged : Calls (S × List Event)
  logged = record {
    get_all_users = λ (s, log). ((calls.get_all_users s).0, ((calls.get_all_users s).1, log));
    get_connections_by_user = λ user (s, log).
        let r = calls.get_connections_by_user user s in (r.0, (r.1, log ++ (listed user r.0 ∷ [])));
    update_current_snapshot = λ user ex (s, log).
        let r = calls.update_current_snapshot user ex s in
        (r.0, (r.1, log ++ (attempted user ex ∷ [])));
  }

  -- The end of a logged run, where the run itself ends in `r` and logs `log`.
  abbrev with_log : Tally × S → List Event → Tally × (S × List Event)
  with_log r log = (r.0, (r.1, log))

  count_outcome-with_log :
      (t : Tally) (r : Result (Unit {0}) × S) (log : List Event)
      → count_outcome logged t (r.0, (r.1, log)) ≡ with_log (count_outcome calls t r) log
  count_outcome-with_log t (ok u, s) log = refl
  count_outcome-with_log t (err e, s) log = refl

  sync_exchanges-with_log :
      (user : String) (exs : List String) (t : Tally) (s : S) (log : List Event)
      → sync_exchanges logged user exs (t, (s, log))
        ≡ with_log (sync_exchanges calls user exs (t, s)) (log ++ map (attempted user) exs)
  sync_exchanges-with_log user [] t s log = ap (with_log (t, s)) (sym (append-nil log))
  sync_exchanges-with_log user (ex ∷ exs) t s log =
      let r = calls.update_current_snapshot user ex s in
      let next = count_outcome calls t r in
      let more = log ++ (attempted user ex ∷ []) in
      ap (sync_exchanges logged user exs) (count_outcome-with_log t r more)
      ∙ sync_exchanges-with_log user exs next.0 next.1 more
      ∙ ap (with_log (sync_exchanges calls user exs next))
          (append_assoc log (attempted user ex ∷ []) (map (attempted user) exs))

  sync_connections-with_log :
      (user : String) (t : Tally) (r : Result (List String) × S) (log : List Event)
      → sync_connections logged user t (r.0, (r.1, log))
        ≡ with_log (sync_connections calls user t r) (log ++ attempts_for user r.0)
  sync_connections-with_log user t (ok exs, s) log = sync_exchanges-with_log user exs t s log
  sync_connections-with_log user t (err e, s) log =
      ap (with_log (sync_connections calls user t (err e, s))) (sym (append-nil log))

  attempts-outcome :
      (t : Tally) (r : Result (Unit {0}) × S)
      → attempts (count_outcome calls t r).0 ≡ attempts t + 1
  attempts-outcome t (ok u, s) = omega arith
  attempts-outcome t (err e, s) = omega arith

  attempts-exchanges :
      (user : String) (exs : List String) (t : Tally) (s : S)
      → attempts (sync_exchanges calls user exs (t, s)).0 ≡ attempts t + length exs
  attempts-exchanges user [] t s = omega arith
  attempts-exchanges user (ex ∷ exs) t s =
      let r = count_outcome calls t (calls.update_current_snapshot user ex s) in
      omega (
        arith,
        attempts-exchanges user exs r.0 r.1,
        attempts-outcome t (calls.update_current_snapshot user ex s),
      )

  attempts-connections :
      (user : String) (t : Tally) (r : Result (List String) × S)
      → attempts (sync_connections calls user t r).0 ≡ attempts t + due r.0
  attempts-connections user t (ok exs, s) = attempts-exchanges user exs t s
  attempts-connections user t (err e, s) = omega arith

  -- The users in turn with what the reads of their connections answer in this run.
  abbrev pub answers_of : List String → Tally × S → List Answered
  answers_of [] p = []
  answers_of (user ∷ users) (t, s) =
      let r = calls.get_connections_by_user user s in
      (user, r.0) ∷ answers_of users (sync_connections calls user t r)

  answers-users :
      (users : List String) (t : Tally) (s : S)
      → map (λ (p : Answered). p.0) (answers_of users (t, s)) ≡ users
  answers-users [] t s = refl
  answers-users (user ∷ users) t s =
      let next = sync_connections calls user t (calls.get_connections_by_user user s) in
      ap (λ l. user ∷ l) (answers-users users next.0 next.1)

  attempts-users :
      (users : List String) (t : Tally) (s : S)
      → attempts (sync_users calls users (t, s)).0 ≡ attempts t + all_due (answers_of users (t, s))
  attempts-users [] t s = omega arith
  attempts-users (user ∷ users) t s =
      let r = calls.get_connections_by_user user s in
      let next = sync_connections calls user t r in
      omega (arith, attempts-users users next.0 next.1, attempts-connections user t r)

  sync_users-with_log :
      (users : List String) (t : Tally) (s : S) (log : List Event)
      → sync_users logged users (t, (s, log))
        ≡ with_log (sync_users calls users (t, s)) (log ++ events_of (answers_of users (t, s)))
  sync_users-with_log [] t s log = ap (with_log (t, s)) (sym (append-nil log))
  sync_users-with_log (user ∷ users) t s log =
      let r = calls.get_connections_by_user user s in
      let next = sync_connections calls user t r in
      let read = log ++ (listed user r.0 ∷ []) in
      let rest = events_of (answers_of users next) in
      ap (sync_users logged users) (sync_connections-with_log user t r read)
      ∙ sync_users-with_log users next.0 next.1 (read ++ attempts_for user r.0)
      ∙ ap (with_log (sync_users calls users next)) (
          append_assoc read (attempts_for user r.0) rest
          ∙ append_assoc log (listed user r.0 ∷ []) (attempts_for user r.0 ++ rest))

  sync_listed-attempts :
      (users : List String) (r : Result (List String) × S)
      → r.0 ≡ ok users
      → let run = sync_listed logged (r.0, (r.1, [])) in
        (answers : List Answered) × (map (λ (p : Answered). p.0) answers ≡ users)
        × (run ≡ with_log (sync_listed calls r) (events_of answers))
        × (attempts run.0 ≡ all_due answers)
  sync_listed-attempts users (x, s) e =
      let same = sync_users-with_log users (no_tally calls) s [] in
      rw e (
        answers_of users (no_tally calls, s),
        answers-users users (no_tally calls) s,
        same,
        omega (arith, ap (λ p. attempts p.0) same, attempts-users users (no_tally calls) s),
      )

  -- Where the users are read, a daily run, whichever reads of connections and whichever snapshots
  -- fail, makes for each user in turn one read of the active connections, and right after it one
  -- attempt at a snapshot of each exchange that this read answered, in its order, and no other. The
  -- successes and failures that are counted make up the attempts, with one for each read that threw.
  pub daily_sync-attempts :
      (users : List String) (s : S)
      → (calls.get_all_users s).0 ≡ ok users
      → let run = daily_sync logged (s, []) in
        (answers : List Answered) × (map (λ (p : Answered). p.0) answers ≡ users)
        × (run ≡ ((daily_sync calls s).0, ((daily_sync calls s).1, events_of answers)))
        × (attempts run.0 ≡ all_due answers)
  unfolding daily_sync
  daily_sync-attempts users s e = sync_listed-attempts users (calls.get_all_users s) e
