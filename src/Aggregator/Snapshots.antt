-- ===== src/Aggregator/Snapshots.antt =====
-- src/core/repositories/snapshot-data-repository.ts, and from equity-snapshot-aggregator.ts the
-- writing of a snapshot: `saveSnapshot` and `updateCurrentSnapshot` from its connector on. Times are
-- milliseconds. But for the latest snapshot, the order of a query's rows is left out, and so are the
-- rows' generated ids and the logger's calls.
pub mod Daily
use zero_knowledge_aggregato.Base.{
  ℕ, ◌+◌, ◌≡◌, refl, ◌↔◌, String, Bool, true, false, ◌&&◌, ◌||◌, map, Option, none, some, List, [],
  ◌∷◌, ltb, leb, ◌==◌, str_eq, eq_iff, if◌then◌else◌, pure, throw, ◌>>=◌, ◌>>◌, catch, Act, Error,
  arith,
}
use zero_knowledge_aggregato.Prisma.{Table, World, query, execute, call}
use zero_knowledge_aggregato.Aggregator.Data.{Numbers, Market, Object}
use zero_knowledge_aggregato.Aggregator.Breakdown.{or_nought, build_market_breakdown}
use zero_knowledge_aggregato.Aggregator.Rounding.{get_start_of_day_utc}
use zero_knowledge_aggregato.Aggregator.Balances.{
  Answers, Balances, fetch_balances_by_market, Trades, fetch_trades_by_market,
  calculate_funding_fees, calculate_unrealized_pnl,
}

-- A snapshot as it is handed to the repository.
pub record SnapshotData (Num : Type 0) : Type 0 where
  pub user_uid : String
  pub timestamp : ℕ
  pub exchange : String
  pub total_equity : Num
  pub realized_balance : Num
  pub unrealized_pnl : Num
  pub deposits : Num
  pub withdrawals : Num
  pub breakdown_by_market : Option (Object (Market Num))

-- A row of the table: a snapshot with the times of its creation and of its last change.
pub record SnapshotRow (Num : Type 0) : Type 0 where
  pub snapshot : SnapshotData Num
  pub created_at : ℕ
  pub updated_at : ℕ

-- The compound unique key `userUid_timestamp_exchange`.
abbrev pub SnapshotKey : Type 0
SnapshotKey = String × ℕ × String

abbrev pub same_key : SnapshotKey → SnapshotKey → Bool
same_key (u, t, e) (v, s, f) = str_eq u v && (t == s) && str_eq e f

pub same_key_iff : (a b : SnapshotKey) → (same_key a b ≡ true) ↔ (a ≡ b)
same_key_iff (u, t, e) (v, s, f) = ground (arith, eq_iff u v, eq_iff e f)

-- `x || undefined` on an update leaves the stored value where there is no new one.
abbrev pub keep_if_none : {A : Type 0} → Option A → Option A → Option A
keep_if_none none old = old
keep_if_none (some a) old = some a

module _ {Num : Type 0} where
  abbrev pub key_of : SnapshotData Num → SnapshotKey
  key_of s = (s.user_uid, s.timestamp, s.exchange)

  abbrev pub row_key : SnapshotRow Num → SnapshotKey
  row_key r = key_of r.snapshot

  abbrev pub if_exchange : Option String → SnapshotRow Num → Bool
  if_exchange none r = true
  if_exchange (some e) r = str_eq r.snapshot.exchange e

  abbrev pub is_from : Option ℕ → SnapshotRow Num → Bool
  is_from none r = true
  is_from (some start) r = leb start r.snapshot.timestamp

  abbrev pub is_until : Option ℕ → SnapshotRow Num → Bool
  is_until none r = true
  is_until (some stop) r = leb r.snapshot.timestamp stop

  abbrev pub is_of_user : String → Option String → SnapshotRow Num → Bool
  is_of_user user exchange r = str_eq r.snapshot.user_uid user && if_exchange exchange r

  abbrev pub update_row : ℕ → SnapshotData Num → SnapshotRow Num → SnapshotRow Num
  update_row now s r = record r {
    snapshot = record (r.snapshot) {
      total_equity = s.total_equity;
      realized_balance = s.realized_balance;
      unrealized_pnl = s.unrealized_pnl;
      deposits = s.deposits;
      withdrawals = s.withdrawals;
      breakdown_by_market = keep_if_none s.breakdown_by_market r.snapshot.breakdown_by_market;
    };
    updated_at = now;
  }

module _ {Num : Type 0} where
  abbrev pub later_of : SnapshotData Num → Option (SnapshotData Num) → SnapshotData Num
  later_of s none = s
  later_of s (some t) = if ltb s.timestamp t.timestamp then t else s

  -- The first by descending time.
  abbrev pub latest_in : List (SnapshotData Num) → Option (SnapshotData Num)
  latest_in [] = none
  latest_in (s ∷ rest) = some (later_of s (latest_in rest))

module _ (numbers : Numbers) (table : Table (SnapshotRow (numbers.Num))) where
  open numbers use {Num, nought, minus}
  open table use {Db}

  -- `deposits || 0` and `withdrawals || 0` for a new row.
  abbrev pub new_row : ℕ → SnapshotData Num → SnapshotRow Num
  new_row now s = record {
    snapshot = record s {
      deposits = or_nought numbers (some s.deposits);
      withdrawals = or_nought numbers (some s.withdrawals);
    };
    created_at = now;
    updated_at = now;
  }

  unfoldable pub upsert_snapshot_data : ℕ → SnapshotData Num → Act (World Db) (Unit {0})
  upsert_snapshot_data now s =
      execute
        (table.upsert (λ r. same_key (row_key r) (key_of s)) (update_row now s) (new_row now s))

  unfoldable pub get_snapshot_data :
      String → Option ℕ → Option ℕ → Option String → Act (World Db) (List (SnapshotRow Num))
  get_snapshot_data user start stop exchange =
      query
        (table.find_many (λ r. is_of_user user exchange r && is_from start r && is_until stop r))

  -- Of a user, and of an exchange where one is named; the empty text is none.
  abbrev pub is_named : String → String → SnapshotRow Num → Bool
  is_named user exchange r =
      str_eq r.snapshot.user_uid user && (str_eq exchange "" || str_eq r.snapshot.exchange exchange)

  unfoldable pub get_latest_snapshot_data :
      String → String → Act (World Db) (Option (SnapshotData Num))
  get_latest_snapshot_data user exchange = query (λ d.
      latest_in
        (map (λ (r : SnapshotRow Num). r.snapshot) (table.find_many (is_named user exchange) d)))

  unfoldable pub delete_old_data : ℕ → Act (World Db) ℕ
  delete_old_data before =
      let old : SnapshotRow Num → Bool = λ r. ltb r.created_at before in
      call (λ d. (table.count old d, table.delete_many old d))

  unfoldable pub delete_all_for_user : String → Option String → Act (World Db) ℕ
  delete_all_for_user user exchange = call (λ d.
      (table.count (is_of_user user exchange) d, table.delete_many (is_of_user user exchange) d))

  unfoldable pub count_snapshot_data_by_user : String → Option String → Act (World Db) ℕ
  count_snapshot_data_by_user user exchange = query (table.count (is_of_user user exchange))

  -- The snapshot that `saveSnapshot` writes.
  abbrev pub snapshot_of : String → String → ℕ → Num → Num → Object (Market Num) → SnapshotData Num
  snapshot_of user exchange time equity pnl breakdown = record {
    user_uid = user;
    timestamp = time;
    exchange = exchange;
    total_equity = equity;
    realized_balance = minus equity pnl;
    unrealized_pnl = pnl;
    deposits = nought;
    withdrawals = nought;
    breakdown_by_market = some breakdown;
  }

  -- The breakdown and the profit of the balances that were read.
  abbrev pub figures : String → String → ℕ → Answers Num → Balances numbers → SnapshotData Num
  figures user exchange time answers b =
      let since = get_start_of_day_utc time in
      let ts = fetch_trades_by_market numbers since b.filtered_types answers in
      let funding = calculate_funding_fees numbers answers ts.swap_symbols since in
      snapshot_of user exchange time b.global_equity
        (calculate_unrealized_pnl numbers answers b.by_market)
        (build_market_breakdown numbers b.by_market ts.trades_by_market funding b.global_equity
          b.global_margin)

  abbrev pub save_fetched :
      ℕ → String → String → ℕ → Answers Num → Option (Balances numbers) → Act (World Db) (Unit {0})
  save_fetched now user exchange time answers none = throw (Error.message "exchange error")
  save_fetched now user exchange time answers (some b) =
      upsert_snapshot_data now (figures user exchange time answers b)

  -- `time` is the rounded time of the snapshot. Nothing is written before all has been read.
  unfoldable pub update_current_snapshot :
      (String → String) → ℕ → String → String → ℕ → Answers Num → Act (World Db) (Unit {0})
  update_current_snapshot lower now user exchange time answers =
      save_fetched now user exchange time answers
        (fetch_balances_by_market numbers lower exchange answers)
