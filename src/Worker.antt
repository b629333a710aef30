-- ===== src/Worker.antt =====
-- src/enclave-worker.ts: the jobs of the enclave, over the services it calls. Texts of errors are
-- shortened to the part that does not depend on the job; the logger's calls are left out.
pub mod Refusal
pub mod Metrics
pub mod Stored
pub mod Registration
pub mod Tests
use zero_knowledge_aggregato.Base.{
  ℕ, ◌+◌, ◌≡◌, String, Bool, true, false, ◌&&◌, Option, none, some, List, [], ◌∷◌, ltb, ◌==◌,
  str_eq, if◌then◌else◌, Result, ok, err, Error, message, Act, pure, throw, ◌>>=◌, ◌>>◌, catch,
}
use zero_knowledge_aggregato.Aggregator.Data.{Numbers}
use zero_knowledge_aggregato.Aggregator.Snapshots.{SnapshotData, latest_in}

-- The answer of `syncUserTrades`.
pub record SyncResult : Type 0 where
  pub success : Bool
  pub text : String
  pub synced : ℕ

-- The services: each call may throw. `view` is what is stored of the users' connections and
-- snapshots; a read returns what the view holds and leaves it as it is.
pub record Services (Num : Type 0) : Type 1 where
  pub State : Type 0
  pub View : Type 0
  pub view : State → View
  pub active_exchanges : View → String → List String
  pub stored : View → String → String → List (SnapshotData Num)
  pub get_connections_by_user : String → Act State (List String)
  pub get_latest_snapshot_data : String → String → Act State (Option (SnapshotData Num))
  pub count_snapshot_data : String → String → Act State ℕ
  pub get_total_trades : String → String → Act State (Option ℕ)
  pub sync_user_trades : String → Act State SyncResult
  pub backfill_ibkr_historical_snapshots : String → String → Act State (Unit {0})
  pub update_current_snapshot : String → String → Act State (Unit {0})
  pub connections-view : (u : String) (s : State) → view ((get_connections_by_user u s).1) ≡ view s
  pub connections_lem :
      (u : String) (s : State) (exs : List String)
      → (get_connections_by_user u s).0 ≡ ok exs
      → exs ≡ active_exchanges (view s) u
  pub latest-view : (u e : String) (s : State) → view ((get_latest_snapshot_data u e s).1) ≡ view s
  pub latest_lem :
      (u e : String) (s : State) (o : Option (SnapshotData Num))
      → (get_latest_snapshot_data u e s).0 ≡ ok o
      → o ≡ latest_in (stored (view s) u e)
  pub trades-view : (u e : String) (s : State) → view ((get_total_trades u e s).1) ≡ view s

-- The latest of the stored snapshots of a user and an exchange.
abbrev pub newest :
    {Num : Type 0} (services : Services Num)
    → services.View
    → String
    → String
    → Option (SnapshotData Num)
newest services v user exchange = latest_in (services.stored v user exchange)

-- The user of a response is that of the request; the source copies balance, equity and time from the
-- latest snapshot, which stands here whole.
pub record SyncJobResponse (Num : Type 0) : Type 0 where
  pub success : Bool
  pub exchange : Option String
  pub synced : ℕ
  pub snapshots_generated : ℕ
  pub latest_snapshot : Option (SnapshotData Num)
  pub error : Option Error

abbrev pub build_error_response : {Num : Type 0} → Option String → Error → SyncJobResponse Num
build_error_response exchange e = record {
  success = false;
  exchange = exchange;
  synced = 0;
  snapshots_generated = 0;
  latest_snapshot = none;
  error = some e;
}

-- `exchange ? [exchange] : connections`; the empty text is no exchange.
abbrev pub targets : Option String → List String → List String
targets none listed = listed
targets (some ex) listed = if str_eq ex "" then listed else ex ∷ []

module _ (lower : String → String) (numbers : Numbers) (services : Services (numbers.Num)) where
  open numbers use {Num, nought, plus}
  open services use {State}

  abbrev pub Response : Type 0
  Response = SyncJobResponse Num

  abbrev pub blocked : String → Response
  blocked ex = build_error_response (some ex) (message "Manual sync disabled")

  -- The first exchange with a snapshot ends the loop of `checkManualSyncAllowed`.
  abbrev pub refuse_or :
      String → Act State (Option Response) → Option (SnapshotData Num) → Act State (Option Response)
  refuse_or ex rest none = rest
  refuse_or ex rest (some snapshot) = pure (some (blocked ex))

  abbrev pub check_exchanges : String → List String → Act State (Option Response)
  check_exchanges user [] = pure none
  check_exchanges user (ex ∷ rest) =
      services.get_latest_snapshot_data user ex >>= refuse_or ex (check_exchanges user rest)

  unfoldable pub check_manual_sync_allowed : String → Option String → Act State (Option Response)
  check_manual_sync_allowed user exchange = do
    listed ← services.get_connections_by_user user
    check_exchanges user (targets exchange listed)

  -- The variables of `updateSnapshotsForExchanges`, which an error in the loop leaves as they are.
  pub record Progress : Type 0 where
    pub snapshots_count : ℕ
    pub latest_snapshot : Option (SnapshotData Num)

  abbrev pub add_count : ℕ → Progress → Progress
  add_count n acc = record acc { snapshots_count = acc.snapshots_count + n }

  abbrev pub later : SnapshotData Num → Option (SnapshotData Num) → SnapshotData Num
  later s none = s
  later s (some latest) = if ltb latest.timestamp s.timestamp then s else latest

  abbrev pub take_latest : Progress → Result (Option (SnapshotData Num)) × State → Progress × State
  take_latest acc (ok (some s), w) =
      (record acc { latest_snapshot = some (later s acc.latest_snapshot) }, w)
  take_latest acc (ok none, w) = (acc, w)
  take_latest acc (err e, w) = (acc, w)

  abbrev pub after_update :
      String → String → Progress → Result (Unit {0}) × State → Progress × State
  after_update user ex acc (ok u, w) =
      take_latest (add_count 1 acc) (services.get_latest_snapshot_data user ex w)
  after_update user ex acc (err e, w) = (acc, w)

  abbrev pub after_backfill : String → String → Progress → Result ℕ × State → Progress × State
  after_backfill user ex acc (ok n, w) =
      after_update user ex (add_count n acc) (services.update_current_snapshot user ex w)
  after_backfill user ex acc (err e, w) = (acc, w)

  -- The number of snapshots that the backfill brought: only IBKR, and only if there were none.
  abbrev pub backfill_first : String → String → ℕ → Act State ℕ
  backfill_first user ex n =
      if n == 0
      then (do
        services.backfill_ibkr_historical_snapshots user ex
        services.count_snapshot_data user ex)
      else pure 0

  abbrev pub backfill : String → String → Act State ℕ
  backfill user ex =
      if str_eq (lower ex) "ibkr"
      then services.count_snapshot_data user ex >>= backfill_first user ex
      else pure 0

  abbrev pub update_exchanges : String → List String → Progress → State → Progress × State
  update_exchanges user [] acc w = (acc, w)
  update_exchanges user (ex ∷ rest) acc w =
      let next = after_backfill user ex acc (backfill user ex w) in
      update_exchanges user rest next.0 next.1

  abbrev pub no_progress : Progress
  no_progress = record { snapshots_count = 0; latest_snapshot = none }

  abbrev pub exchanges_to_update : String → Option String → Act State (List String)
  exchanges_to_update user none = services.get_connections_by_user user
  exchanges_to_update user (some ex) =
      if str_eq ex "" then services.get_connections_by_user user else pure (ex ∷ [])

  unfoldable pub update_snapshots_for_exchanges : String → Option String → Act State Progress
  update_snapshots_for_exchanges user exchange = do
    exchanges ← exchanges_to_update user exchange
    λ w. (
      ok (update_exchanges user exchanges no_progress w).0,
      (update_exchanges user exchanges no_progress w).1,
    )

  abbrev pub build_success_response : Option String → ℕ → Progress → Response
  build_success_response exchange synced p = record {
    success = true;
    exchange = exchange;
    synced = synced;
    snapshots_generated = p.snapshots_count;
    latest_snapshot = p.latest_snapshot;
    error = none;
  }

  abbrev pub after_sync : String → Option String → SyncResult → Act State Response
  after_sync user exchange r =
      if r.success
      then (do
        p ← update_snapshots_for_exchanges user exchange
        pure (build_success_response exchange r.synced p))
      else pure (build_error_response exchange (message r.text))

  abbrev pub unless_blocked : String → Option String → Option Response → Act State Response
  unless_blocked user exchange (some response) = pure response
  unless_blocked user exchange none = services.sync_user_trades user >>= after_sync user exchange

  -- `handleSyncError` turns what was thrown into a response.
  unfoldable pub process_sync_job : String → Option String → Act State Response
  process_sync_job user exchange =
      catch (check_manual_sync_allowed user exchange >>= unless_blocked user exchange)
        (λ e. pure (build_error_response exchange e))
