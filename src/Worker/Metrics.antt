-- ===== src/Worker/Metrics.antt =====
-- src/enclave-worker.ts, `getAggregatedMetrics`: the totals of a user over the newest snapshots.
pub mod Totals
use zero_knowledge_aggregato.Base.{
  ℕ, ◌+◌, String, Bool, true, false, Option, none, some, List, [], ◌∷◌, ltb, if◌then◌else◌, Act,
  pure, ◌>>=◌, ◌>>◌,
}
use zero_knowledge_aggregato.Aggregator.Data.{Numbers}
use zero_knowledge_aggregato.Aggregator.Snapshots.{SnapshotData}
use zero_knowledge_aggregato.Worker.{Services, exchanges_to_update}

pub record Metrics (Num : Type 0) : Type 0 where
  pub total_balance : Num
  pub total_equity : Num
  pub total_realized_pnl : Num
  pub total_unrealized_pnl : Num
  pub total_fees : Num
  pub total_trades : ℕ
  pub last_sync : Option ℕ

module _ (lower : String → String) (numbers : Numbers) (services : Services (numbers.Num)) where
  open numbers use {Num, nought, plus}
  open services use {State}

  abbrev pub no_metrics : Metrics Num
  no_metrics = record {
    total_balance = nought;
    total_equity = nought;
    total_realized_pnl = nought;
    total_unrealized_pnl = nought;
    total_fees = nought;
    total_trades = 0;
    last_sync = none;
  }

  abbrev pub later_time : ℕ → Option ℕ → ℕ
  later_time t none = t
  later_time t (some last) = if ltb last t then t else last

  abbrev pub add_snapshot : Option (SnapshotData Num) → Metrics Num → Metrics Num
  add_snapshot none m = m
  add_snapshot (some s) m = record m {
    total_balance = plus m.total_balance s.realized_balance;
    total_equity = plus m.total_equity s.total_equity;
    total_realized_pnl = plus m.total_realized_pnl nought;
    total_unrealized_pnl = plus m.total_unrealized_pnl s.unrealized_pnl;
    total_fees = plus m.total_fees nought;
    last_sync = some (later_time s.timestamp m.last_sync);
  }

  -- `syncStatus?.totalTrades || 0`
  abbrev pub trades_or_zero : Option ℕ → ℕ
  trades_or_zero none = 0
  trades_or_zero (some n) = n

  abbrev pub add_trades : Option ℕ → Metrics Num → Metrics Num
  add_trades n m = record m { total_trades = m.total_trades + trades_or_zero n }

  abbrev pub add_exchanges : String → List String → Metrics Num → Act State (Metrics Num)
  add_exchanges user [] m = pure m
  add_exchanges user (ex ∷ rest) m = services.get_latest_snapshot_data user ex >>= λ s.
      services.get_total_trades user ex >>= λ n.
      add_exchanges user rest (add_trades n (add_snapshot s m))

  unfoldable pub get_aggregated_metrics : String → Option String → Act State (Metrics Num)
  get_aggregated_metrics user exchange = do
    exchanges ← exchanges_to_update lower numbers services user exchange
    add_exchanges user exchanges no_metrics
