-- ===== src/Worker/Stored/Tests.antt =====
-- The worker over tables that are lists.
use zero_knowledge_aggregato.Base.{
  ℕ, ◌≡◌, refl, String, true, false, none, List, [], ◌∷◌, Memᴰ, All, ok, err, message,
}
use zero_knowledge_aggregato.Prisma.{healthy}
use zero_knowledge_aggregato.Prisma.ListTable.{list_table}
use zero_knowledge_aggregato.Keys.ToyCipher.{toy}
use zero_knowledge_aggregato.Keys.Repository.{WrappedDek}
use zero_knowledge_aggregato.Aggregator.Snapshots.{SnapshotRow}
use zero_knowledge_aggregato.Connections.{ConnectionRow}
use zero_knowledge_aggregato.SyncStatuses.{SyncStatus}
use zero_knowledge_aggregato.Worker.{SyncJobResponse, process_sync_job}
use zero_knowledge_aggregato.Worker.Metrics.{Metrics, get_aggregated_metrics}
use zero_knowledge_aggregato.Worker.Metrics.Totals.{total_of}
use zero_knowledge_aggregato.Worker.Tests.{amounts, snapshot_at, same_text}
use zero_knowledge_aggregato.Worker.Stored.{Jobs, Repos, rows_of, stored_in, services_of}
use zero_knowledge_aggregato.Worker.Stored.Answers.{
  Answers, IsCovered, process_sync_job-refused, get_aggregated_metrics-sums,
}

abbrev Rows : Type 0
Rows = List (SnapshotRow ℕ)

abbrev State : Type 0
State =
    Repos amounts toy (list_table WrappedDek) (list_table ConnectionRow)
      (list_table (SnapshotRow ℕ)) (list_table SyncStatus)

-- Jobs that fail.
abbrev jobs : Jobs State
jobs = record {
  sync_user_trades = λ u s. (err (message "down"), s);
  backfill_ibkr_historical_snapshots = λ u e s. (err (message "down"), s);
  update_current_snapshot = λ u e s. (err (message "down"), s);
}

abbrev connection : ConnectionRow
connection = record {
  id = "c1";
  user_uid = "ann";
  exchange = "kraken";
  label = "main";
  encrypted_api_key = [];
  encrypted_api_secret = [];
  encrypted_passphrase = none;
  credentials_hash = "";
  is_active = true;
}

abbrev row_at : ℕ → SnapshotRow ℕ
row_at time = record { snapshot = snapshot_at time "ann" "kraken"; created_at = 0; updated_at = 0 }

abbrev stored : State
stored = record {
  store = record {
    keys = record { world = healthy []; cached_dek = none };
    world = healthy (connection ∷ []);
  };
  snapshots = healthy (row_at 2 ∷ row_at 5 ∷ []);
  statuses = healthy [];
}

process_sync_job-refused_example :
    let services =
      services_of amounts toy
        (list_table WrappedDek)
        (list_table ConnectionRow)
        (list_table (SnapshotRow ℕ))
        (list_table SyncStatus)
        jobs in
    let j = process_sync_job same_text amounts services "ann" none stored in
    (response : SyncJobResponse ℕ) × (j.0 ≡ ok response)
    × (response.success ≡ false)
    × (response.synced ≡ 0)
    × (response.snapshots_generated ≡ 0)
    × (rows_of amounts toy
          (list_table WrappedDek)
          (list_table ConnectionRow)
          (list_table (SnapshotRow ℕ))
          (list_table SyncStatus)
          j.1
        ≡ (connection ∷ [], row_at 2 ∷ row_at 5 ∷ []))
process_sync_job-refused_example =
    process_sync_job-refused same_text amounts toy (list_table WrappedDek)
      (list_table ConnectionRow) (list_table (SnapshotRow ℕ)) (list_table SyncStatus) jobs "ann"
      "kraken" none stored (row_at 2) (Memᴰ.head refl) (Memᴰ.head refl) refl

answers :
    Answers same_text amounts toy
      (list_table WrappedDek)
      (list_table ConnectionRow)
      (list_table (SnapshotRow ℕ))
      (list_table SyncStatus)
      jobs
      stored
answers = record { connections_answer = refl; snapshots_answer = refl; statuses_answer = refl }

get_aggregated_metrics-sums_example :
    let services =
      services_of amounts toy
        (list_table WrappedDek)
        (list_table ConnectionRow)
        (list_table (SnapshotRow ℕ))
        (list_table SyncStatus)
        jobs in
    let v : List ConnectionRow × Rows = (connection ∷ [], row_at 2 ∷ row_at 5 ∷ []) in
    let exs : List String = "kraken" ∷ [] in
    let r = get_aggregated_metrics same_text amounts services "ann" none stored in
    (m : Metrics ℕ) × (r.0 ≡ ok m)
    × (m.total_equity ≡ total_of same_text amounts services (λ s. s.total_equity) v "ann" exs 0)
    × (m.total_balance
        ≡ total_of same_text amounts services (λ s. s.realized_balance) v "ann" exs 0)
    × (m.total_unrealized_pnl
        ≡ total_of same_text amounts services (λ s. s.unrealized_pnl) v "ann" exs 0)
    × All
        (λ ex.
          All
            (IsCovered same_text amounts toy
              (list_table WrappedDek)
              (list_table ConnectionRow)
              (list_table (SnapshotRow ℕ))
              (list_table SyncStatus)
              jobs
              m.last_sync)
            (stored_in amounts toy
              (list_table WrappedDek)
              (list_table ConnectionRow)
              (list_table (SnapshotRow ℕ))
              (list_table SyncStatus)
              v
              "ann"
              ex))
        exs
    × (rows_of amounts toy
          (list_table WrappedDek)
          (list_table ConnectionRow)
          (list_table (SnapshotRow ℕ))
          (list_table SyncStatus)
          r.1
        ≡ v)
get_aggregated_metrics-sums_example =
    get_aggregated_metrics-sums same_text amounts toy (list_table WrappedDek)
      (list_table ConnectionRow) (list_table (SnapshotRow ℕ)) (list_table SyncStatus) jobs "ann"
      none stored answers
