-- ===== src/Worker/Tests.antt =====
-- The worker over services that keep a list of snapshots, newest first.
use zero_knowledge_aggregato.Base.{
  ℕ, ◌+◌, ◌-◌, ◌*◌, ◌≡◌, refl, sym, String, Bool, true, ◌&&◌, none, some, List, [], ◌∷◌, keep,
  count_if, ltb, str_eq, ok, ok-injective,
}
use zero_knowledge_aggregato.Aggregator.Data.{Numbers}
use zero_knowledge_aggregato.Aggregator.Snapshots.{SnapshotData, latest_in}
use zero_knowledge_aggregato.Worker.{
  Services, process_sync_job, check_manual_sync_allowed, update_snapshots_for_exchanges,
}
use zero_knowledge_aggregato.Worker.Metrics.{get_aggregated_metrics}

abbrev pub amounts : Numbers
amounts = record {
  Num = ℕ;
  nought = 0;
  plus = λ a b. a + b;
  minus = λ a b. a - b;
  times = λ a b. a * b;
  truthy = λ a. ltb 0 a;
  positive = λ a. ltb 0 a;
}

abbrev pub snapshot_at : ℕ → String → String → SnapshotData ℕ
snapshot_at time user exchange = record {
  user_uid = user;
  timestamp = time;
  exchange = exchange;
  total_equity = 100;
  realized_balance = 90;
  unrealized_pnl = 10;
  deposits = 0;
  withdrawals = 0;
  breakdown_by_market = none;
}

abbrev is_of : String → String → SnapshotData ℕ → Bool
is_of user exchange s = str_eq s.user_uid user && str_eq s.exchange exchange

abbrev exchanges_of : List (SnapshotData ℕ) → String → List String
exchanges_of v user = "okx" ∷ "kraken" ∷ []

abbrev services : Services ℕ
services = record {
  State = List (SnapshotData ℕ);
  View = List (SnapshotData ℕ);
  view = λ s. s;
  active_exchanges = exchanges_of;
  stored = λ v u e. keep (is_of u e) v;
  get_connections_by_user = λ u s. (ok (exchanges_of s u), s);
  get_latest_snapshot_data = λ u e s. (ok (latest_in (keep (is_of u e) s)), s);
  count_snapshot_data = λ u e s. (ok (count_if (is_of u e) s), s);
  get_total_trades = λ u e s. (ok (some 3), s);
  sync_user_trades = λ u s. (ok (record { success = true; text = ""; synced = 5 }), s);
  backfill_ibkr_historical_snapshots = λ u e s. (ok tt, snapshot_at 1 u e ∷ s);
  update_current_snapshot = λ u e s. (ok tt, snapshot_at 2 u e ∷ s);
  connections-view = λ u s. refl;
  connections_lem = λ u s exs e. sym (ok-injective e);
  latest-view = λ u e s. refl;
  latest_lem = λ u e s o h. sym (ok-injective h);
  trades-view = λ u e s. refl;
}

abbrev pub same_text : String → String
same_text s = s

worker : Unit {0}
unfolding process_sync_job check_manual_sync_allowed update_snapshots_for_exchanges
    get_aggregated_metrics
worker = tt

-- The first job backfills IBKR and updates it: two snapshots, the newest of which is returned.
first_job :
    (process_sync_job same_text amounts services "ann" (some "ibkr") []).0
    ≡ ok (record {
      success = true;
      exchange = some "ibkr";
      synced = 5;
      snapshots_generated = 2;
      latest_snapshot = some (snapshot_at 2 "ann" "ibkr");
      error = none;
    })
unfolding worker
first_job = refl

-- The total of the two exchanges, of which one has a snapshot.
totals :
    (get_aggregated_metrics same_text amounts services "ann" none
      (snapshot_at 2 "ann" "kraken" ∷ [])).0
    ≡ ok (record {
      total_balance = 90;
      total_equity = 100;
      total_realized_pnl = 0;
      total_unrealized_pnl = 10;
      total_fees = 0;
      total_trades = 6;
      last_sync = some 2;
    })
unfolding worker
totals = refl
