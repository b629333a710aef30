-- ===== src/Worker/Stored/Answers.antt =====
-- The jobs of the worker over its repositories.
use zero_knowledge_aggregato.Base.{
  ◌≡◌, refl, sym, ap, ◌∙◌, String, Bool, true, false, Option, none, some, List, [], ◌∷◌, map, keep,
  Memᴰ, subst, Bool-cases, All, ok, arith, ℕ, inl, inr,
}
use zero_knowledge_aggregato.Prisma.{Table}
use zero_knowledge_aggregato.Keys.Crypto.{Crypto}
use zero_knowledge_aggregato.Keys.Repository.{WrappedDek}
use zero_knowledge_aggregato.Aggregator.Data.{Numbers}
use zero_knowledge_aggregato.Aggregator.Snapshots.{
  SnapshotData, SnapshotRow, latest_in, later_of, is_named, get_latest_snapshot_data,
}
use zero_knowledge_aggregato.Connections.{ConnectionRow, is_of_user, get_connections_by_user}
use zero_knowledge_aggregato.SyncStatuses.{SyncStatus, get_sync_status, has_key}
use zero_knowledge_aggregato.Worker.{Services, SyncJobResponse, newest, targets, process_sync_job}
use zero_knowledge_aggregato.Worker.Refusal.{process_sync_job-blocked}
use zero_knowledge_aggregato.Worker.Metrics.{Metrics, get_aggregated_metrics}
use zero_knowledge_aggregato.Worker.Metrics.Totals.{
  Answering, total_of, covered, get_aggregated_metrics-Sums,
}
use zero_knowledge_aggregato.Worker.Stored.{
  Jobs, Repos, rows_of, active_in, stored_in, services_of, query-answers, continue-answered,
  continue-state, on_store, on_statuses, total_of_status,
}

module _ {Num : Type 0} where
  -- Of a list with a snapshot there is a latest one, which is not earlier.
  latest_in-some :
      (s : SnapshotData Num) (xs : List (SnapshotData Num))
      → Memᴰ s xs
      → (t : SnapshotData Num) × (latest_in xs ≡ some t)
  latest_in-some s [] m = elim m [ ]
  latest_in-some s (x ∷ xs) m = (later_of x (latest_in xs), refl)

  mem-kept :
      (p : SnapshotRow Num → Bool) (r : SnapshotRow Num) (rs : List (SnapshotRow Num))
      → Memᴰ r rs
      → p r ≡ true
      → Memᴰ r.snapshot (map (λ (x : SnapshotRow Num). x.snapshot) (keep p rs))
  mem-kept p r [] m h = elim m [ ]
  mem-kept p r (x ∷ xs) (Memᴰ.head e) h =
      rw (sym (ap p e) ∙ h) (Memᴰ.head (ap (λ (y : SnapshotRow Num). y.snapshot) e))
  mem-kept p r (x ∷ xs) (Memᴰ.tail m) h = elim (Bool-cases (p x)) [
    | inl e ↦ rw e (Memᴰ.tail (mem-kept p r xs m h))
    | inr e ↦ rw e (mem-kept p r xs m h)
  ]

module _ (lower : String → String) (numbers : Numbers) (crypto : Crypto) (deks : Table WrappedDek)
    (connections : Table ConnectionRow) (snapshots : Table (SnapshotRow (numbers.Num)))
    (statuses : Table SyncStatus)
    (jobs : Jobs (Repos numbers crypto deks connections snapshots statuses)) where
  open numbers use {Num, nought}

  abbrev pub Repositories : Type 0
  Repositories = Repos numbers crypto deks connections snapshots statuses

  abbrev pub services : Services Num
  services = services_of numbers crypto deks connections snapshots statuses jobs

  abbrev rows : Repositories → List ConnectionRow × List (SnapshotRow Num)
  rows = rows_of numbers crypto deks connections snapshots statuses

  abbrev pub exchanges : Option String → Repositories → String → List String
  exchanges exchange w user =
      targets exchange (active_in numbers crypto deks connections snapshots statuses (rows w) user)

  -- Over the repositories, whatever the sync, the backfill and the update of a snapshot would do: a
  -- job of a user who has a stored snapshot of the named exchange, or of any active connection's if
  -- none is named, is answered by a failure with nothing synced and nothing generated, even where a
  -- read throws, and the rows of connections and snapshots are as they were.
  pub process_sync_job-refused :
      (user ex : String) (exchange : Option String) (w : Repositories) (r : SnapshotRow Num)
      → Memᴰ ex (exchanges exchange w user)
      → Memᴰ r (snapshots.rows w.snapshots.db)
      → is_named numbers snapshots user ex r ≡ true
      → let j = process_sync_job lower numbers services user exchange w in
        (response : SyncJobResponse Num) × (j.0 ≡ ok response)
        × (response.success ≡ false)
        × (response.synced ≡ 0)
        × (response.snapshots_generated ≡ 0)
        × (rows j.1 ≡ rows w)
  process_sync_job-refused user ex exchange w r m stored named =
      let (t, found) = latest_in-some r.snapshot _ (
        mem-kept (is_named numbers snapshots user ex) r (snapshots.rows w.snapshots.db) stored
          named) in
      process_sync_job-blocked lower numbers services user ex exchange w t m found

  -- None of the three connections to the database fails.
  pub record Answers (w : Repositories) : Type 0 where
    pub connections_answer : w.store.world.faults ≡ []
    pub snapshots_answer : w.snapshots.faults ≡ []
    pub statuses_answer : w.statuses.faults ≡ []

  answering : Answering lower numbers services
  unfolding get_connections_by_user get_latest_snapshot_data get_sync_status
  answering = record {
    Good = Answers;
    connections = λ u s g.
        let asked =
          query-answers (connections.find_many (is_of_user true u)) s.store.world
            g.connections_answer in
        let read = on_store (get_connections_by_user crypto deks connections u true) s in
        (
          _,
          continue-answered (map (λ (r : ConnectionRow). r.exchange)) read _ asked.0,
          subst Answers (sym (continue-state (map (λ (r : ConnectionRow). r.exchange)) read))
              (record {
                connections_answer = asked.1;
                snapshots_answer = g.snapshots_answer;
                statuses_answer = g.statuses_answer;
              }),
        );
    latest = λ u e s g.
        let asked =
          query-answers
            (λ d. latest_in (
              map (λ (r : SnapshotRow Num). r.snapshot)
                (snapshots.find_many (is_named numbers snapshots u e) d)))
            s.snapshots g.snapshots_answer in
        (
          _,
          asked.0,
          record {
            connections_answer = g.connections_answer;
            snapshots_answer = asked.1;
            statuses_answer = g.statuses_answer;
          },
        );
    trades = λ u e s g.
        let asked =
          query-answers (statuses.find_first (has_key u e)) s.statuses g.statuses_answer in
        let read = on_statuses (get_sync_status statuses u e) s in
        (
          _,
          continue-answered total_of_status read _ asked.0,
          subst Answers (sym (continue-state total_of_status read)) (record {
            connections_answer = g.connections_answer;
            snapshots_answer = g.snapshots_answer;
            statuses_answer = asked.1;
          }),
        );
  }

  abbrev pub IsCovered : Option ℕ → SnapshotData Num → Type 0
  IsCovered last s = covered lower numbers services (some s) last ≡ true

  covered-later_of :
      (s : SnapshotData Num) (o : Option (SnapshotData Num)) (last : Option ℕ)
      → IsCovered last (later_of s o)
      → IsCovered last s × (covered lower numbers services o last ≡ true)
  covered-later_of s none last h = (h, refl)
  covered-later_of s (some t) none h = absurd (cc h)
  covered-later_of s (some t) (some n) h = (ground (arith, h), ground (arith, h))

  All-IsCovered :
      (xs : List (SnapshotData Num)) (last : Option ℕ)
      → covered lower numbers services (latest_in xs) last ≡ true
      → All (IsCovered last) xs
  All-IsCovered [] last h = tt
  All-IsCovered (s ∷ xs) last h =
      let (here, there) = covered-later_of s (latest_in xs) last h in
      (here, All-IsCovered xs last there)

  All-stored :
      (w : Repositories) (user : String) (last : Option ℕ) (exs : List String)
      → All
          (λ ex. covered lower numbers services (newest services (rows w) user ex) last ≡ true)
          exs
      → All
          (λ ex.
            All
              (IsCovered last)
              (stored_in numbers crypto deks connections snapshots statuses (rows w) user ex))
          exs
  All-stored w user last [] h = tt
  All-stored w user last (ex ∷ exs) (h, k) = (All-IsCovered _ last h, All-stored w user last exs k)

  -- Over repositories that answer, the metrics are returned: equity, balance and unrealized profit are
  -- the sums over the latest stored snapshots of the named exchange, or of the exchanges of the user's
  -- active connections if none is named, and no stored snapshot of these is later than the last sync.
  -- The rows of connections and snapshots are as they were.
  pub get_aggregated_metrics-sums :
      (user : String) (exchange : Option String) (w : Repositories)
      → Answers w
      → let v = rows w in
        let exs = exchanges exchange w user in
        let r = get_aggregated_metrics lower numbers services user exchange w in
        (m : Metrics Num) × (r.0 ≡ ok m)
        × (m.total_equity ≡ total_of lower numbers services (λ s. s.total_equity) v user exs nought)
        × (m.total_balance
            ≡ total_of lower numbers services (λ s. s.realized_balance) v user exs nought)
        × (m.total_unrealized_pnl
            ≡ total_of lower numbers services (λ s. s.unrealized_pnl) v user exs nought)
        × All
            (λ ex.
              All
                (IsCovered m.last_sync)
                (stored_in numbers crypto deks connections snapshots statuses v user ex))
            exs
        × (rows r.1 ≡ v)
  unfolding answering
  get_aggregated_metrics-sums user exchange w g =
      let (m, done, equity, balance, unrealized, last, kept) =
        get_aggregated_metrics-Sums lower numbers services answering user exchange w g in
      (m, done, equity, balance, unrealized, All-stored w user m.last_sync _ last, kept)
