-- ===== src/Worker/Stored.antt =====
-- src/enclave-worker.ts over the repositories: the worker's services are the tables of connections,
-- snapshots and statuses, each with a connection that may fail. The sync, the backfill and the update
-- of a snapshot are arguments, which may do anything.
pub mod Answers
pub mod Tests
use zero_knowledge_aggregato.Base.{
  ◌≡◌, refl, sym, ap, ◌∙◌, String, Bool, true, false, Option, none, some, List, [], ◌∷◌, map, keep,
  Result, ok, err, Act, continue, pure, ◌>>=◌, ok-injective, ℕ,
}
use zero_knowledge_aggregato.Prisma.{Table, World, query, call, call_with}
use zero_knowledge_aggregato.Keys.Crypto.{Crypto}
use zero_knowledge_aggregato.Keys.Repository.{WrappedDek}
use zero_knowledge_aggregato.Aggregator.Data.{Numbers}
use zero_knowledge_aggregato.Aggregator.Snapshots.{
  SnapshotData, SnapshotRow, latest_in, is_named, get_latest_snapshot_data,
  count_snapshot_data_by_user,
}
use zero_knowledge_aggregato.Connections.{ConnectionRow, Store, is_of_user, get_connections_by_user}
use zero_knowledge_aggregato.SyncStatuses.{SyncStatus, get_sync_status}
use zero_knowledge_aggregato.Worker.{Services, SyncResult}

pub record Repositories (K D S T : Type 0) : Type 0 where
  pub store : Store K D
  pub snapshots : World S
  pub statuses : World T

-- What the worker sets off, and what it changes.
pub record Jobs (State : Type 0) : Type 0 where
  pub sync_user_trades : String → Act State SyncResult
  pub backfill_ibkr_historical_snapshots : String → String → Act State (Unit {0})
  pub update_current_snapshot : String → String → Act State (Unit {0})

module _ {K D S T A : Type 0} where
  abbrev pub on_store : Act (Store K D) A → Act (Repositories K D S T) A
  on_store m s = ((m s.store).0, record s { store = (m s.store).1 })

  abbrev pub on_snapshots : Act (World S) A → Act (Repositories K D S T) A
  on_snapshots m s = ((m s.snapshots).0, record s { snapshots = (m s.snapshots).1 })

  abbrev pub on_statuses : Act (World T) A → Act (Repositories K D S T) A
  on_statuses m s = ((m s.statuses).0, record s { statuses = (m s.statuses).1 })

-- A query, whether the call fails or not, leaves the rows, and returns what it reads.
module _ {Db A : Type 0} (f : Db → A) (w : World Db) where
  call_with-db : (fs : List Bool) → (call_with fs (λ d. (f d, d)) w).1.db ≡ w.db
  call_with-db [] = refl
  call_with-db (true ∷ fs) = refl
  call_with-db (false ∷ fs) = refl

  call_with-ok : (fs : List Bool) (a : A) → (call_with fs (λ d. (f d, d)) w).0 ≡ ok a → a ≡ f w.db
  call_with-ok [] a e = sym (ok-injective e)
  call_with-ok (true ∷ fs) a e = absurd (cc e)
  call_with-ok (false ∷ fs) a e = sym (ok-injective e)

  pub query-answers : w.faults ≡ [] → ((query f w).0 ≡ ok (f w.db)) × ((query f w).1.faults ≡ [])
  query-answers e = rw e (refl, refl)

-- Where a query is followed by a map of its answer.
module _ {S A B : Type 0} (g : A → B) where
  pub continue-state : (r : Result A × S) → (continue (λ a. pure (g a)) r).1 ≡ r.1
  continue-state (ok a, s) = refl
  continue-state (err e, s) = refl

  pub continue-map :
      (r : Result A × S) (b : B)
      → (continue (λ a. pure (g a)) r).0 ≡ ok b
      → (a : A) × (r.0 ≡ ok a) × (b ≡ g a)
  continue-map (ok a, s) b e = (a, refl, sym (ok-injective e))
  continue-map (err x, s) b e = absurd (cc e)

  pub continue-answered :
      (r : Result A × S) (a : A) → r.0 ≡ ok a → (continue (λ x. pure (g x)) r).0 ≡ ok (g a)
  continue-answered (r, s) a e = rw e refl

abbrev pub total_of_status : Option SyncStatus → Option ℕ
total_of_status none = none
total_of_status (some r) = some r.total_trades

module _ (numbers : Numbers) (crypto : Crypto) (deks : Table WrappedDek)
    (connections : Table ConnectionRow) (snapshots : Table (SnapshotRow (numbers.Num)))
    (statuses : Table SyncStatus) where
  open numbers use {Num}

  abbrev pub Repos : Type 0
  Repos = Repositories deks.Db connections.Db snapshots.Db statuses.Db

  -- The rows of the connections and of the snapshots.
  abbrev pub Rows : Type 0
  Rows = List ConnectionRow × List (SnapshotRow Num)

  abbrev pub rows_of : Repos → Rows
  rows_of s = (connections.rows s.store.world.db, snapshots.rows s.snapshots.db)

  abbrev pub active_in : Rows → String → List String
  active_in v user = map (λ (r : ConnectionRow). r.exchange) (keep (is_of_user true user) v.0)

  abbrev pub stored_in : Rows → String → String → List (SnapshotData Num)
  stored_in v user exchange =
      map (λ (r : SnapshotRow Num). r.snapshot)
        (keep (is_named numbers snapshots user exchange) v.1)

  abbrev pub list_exchanges : String → Act Repos (List String)
  list_exchanges user =
      on_store (get_connections_by_user crypto deks connections user true) >>= λ rs.
      pure (map (λ (r : ConnectionRow). r.exchange) rs)

  pub list_exchanges-rows : (u : String) (s : Repos) → rows_of (list_exchanges u s).1 ≡ rows_of s
  unfolding get_connections_by_user
  list_exchanges-rows u s =
      ap rows_of
        (continue-state _ (on_store (get_connections_by_user crypto deks connections u true) s))
      ∙ ap (λ d. (connections.rows d, snapshots.rows s.snapshots.db))
          (call_with-db (connections.find_many (is_of_user true u)) s.store.world
            s.store.world.faults)

  pub list_exchanges-ok :
      (u : String) (s : Repos) (exs : List String)
      → (list_exchanges u s).0 ≡ ok exs
      → exs ≡ active_in (rows_of s) u
  unfolding get_connections_by_user
  list_exchanges-ok u s exs e =
      let (rs, got, same) =
        continue-map _ (on_store (get_connections_by_user crypto deks connections u true) s) exs
          e in
      same
      ∙ ap (map (λ (r : ConnectionRow). r.exchange)) (
          call_with-ok (connections.find_many (is_of_user true u)) s.store.world
            s.store.world.faults rs got
          ∙ connections.find_many_lem (is_of_user true u) s.store.world.db)

  pub latest-rows :
      (u e : String) (s : Repos)
      → rows_of (on_snapshots (get_latest_snapshot_data numbers snapshots u e) s).1 ≡ rows_of s
  unfolding get_latest_snapshot_data
  latest-rows u e s =
      ap (λ d. (connections.rows s.store.world.db, snapshots.rows d))
        (call_with-db _ s.snapshots s.snapshots.faults)

  pub latest-ok :
      (u e : String) (s : Repos) (o : Option (SnapshotData Num))
      → (on_snapshots (get_latest_snapshot_data numbers snapshots u e) s).0 ≡ ok o
      → o ≡ latest_in (stored_in (rows_of s) u e)
  unfolding get_latest_snapshot_data
  latest-ok u e s o h =
      call_with-ok _ s.snapshots s.snapshots.faults o h
      ∙ ap (λ l. latest_in (map (λ (r : SnapshotRow Num). r.snapshot) l))
          (snapshots.find_many_lem (is_named numbers snapshots u e) s.snapshots.db)

  abbrev pub total_trades : String → String → Act Repos (Option ℕ)
  total_trades user exchange =
      on_statuses (get_sync_status statuses user exchange) >>= λ r. pure (total_of_status r)

  pub total_trades-rows : (u e : String) (s : Repos) → rows_of (total_trades u e s).1 ≡ rows_of s
  total_trades-rows u e s =
      ap rows_of (continue-state total_of_status (on_statuses (get_sync_status statuses u e) s))

  abbrev pub services_of : Jobs Repos → Services Num
  services_of jobs = record {
    State = Repos;
    View = Rows;
    view = rows_of;
    active_exchanges = active_in;
    stored = stored_in;
    get_connections_by_user = list_exchanges;
    get_latest_snapshot_data = λ u e. on_snapshots (get_latest_snapshot_data numbers snapshots u e);
    count_snapshot_data =
        λ u e. on_snapshots (count_snapshot_data_by_user numbers snapshots u (some e));
    get_total_trades = total_trades;
    sync_user_trades = jobs.sync_user_trades;
    backfill_ibkr_historical_snapshots = jobs.backfill_ibkr_historical_snapshots;
    update_current_snapshot = jobs.update_current_snapshot;
    connections-view = list_exchanges-rows;
    connections_lem = list_exchanges-ok;
    latest-view = latest-rows;
    latest_lem = latest-ok;
    trades-view = total_trades-rows;
  }
