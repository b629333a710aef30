-- ===== src/Server.antt =====
-- src/enclave-server.ts: the handlers of the gRPC service, over an interface of the enclave's worker.
-- The logger's calls are left out, and a refusal carries no text. The transport is not modelled: a
-- handler's answer is the reply or the status that its callback gets.
pub mod Schemas
pub mod Texts
pub mod Untrusted
pub mod Tests
use zero_knowledge_aggregato.Base.{
  ℕ, String, Bool, true, false, ◌&&◌, Option, none, some, List, [], ◌∷◌, map, str_eq, if◌then◌else◌,
  Result, ok, err, Error, Act, pure, ◌>>=◌, catch,
}
use zero_knowledge_aggregato.Keys.Crypto.{Text}
use zero_knowledge_aggregato.Aggregator.Data.{Numbers, Symbol, Market, Object, lookup}
use zero_knowledge_aggregato.Aggregator.Breakdown.{or_nought}
use zero_knowledge_aggregato.Aggregator.Snapshots.{SnapshotData}
use zero_knowledge_aggregato.Connections.{ConnectionCredentials}
use zero_knowledge_aggregato.Factory.{includes}
use zero_knowledge_aggregato.Worker.{SyncJobResponse}
use zero_knowledge_aggregato.Worker.Metrics.{Metrics}
use zero_knowledge_aggregato.Worker.Registration.{RegistrationResponse}
use zero_knowledge_aggregato.Server.Schemas.{
  user_uid_schema, exchange_schema, timestamp_schema, optional, sync_types, is_range, of_length,
}

pub record Health : Type 0 where
  pub status : String
  pub enclave : Bool
  pub version : String
  pub uptime : ℕ

-- The worker as the server calls it. Each call may throw.
pub record EnclaveWorker (Num : Type 0) : Type 1 where
  pub State : Type 0
  pub process_sync_job : String → Option String → Act State (SyncJobResponse Num)
  pub get_aggregated_metrics : String → Option String → Act State (Metrics Num)
  pub get_snapshot_time_series :
      String → Option String → Option ℕ → Option ℕ → Act State (List (SnapshotData Num))
  pub create_user_connection : ConnectionCredentials → Act State RegistrationResponse
  pub health_check : Act State Health

-- The requests as gRPC decodes them: a field that is not sent is the empty text, or "0" for a time.
pub record SyncJobRequest : Type 0 where
  pub user_uid : String
  pub exchange : String
  pub sync_type : String

pub record MetricsRequest : Type 0 where
  pub user_uid : String
  pub exchange : String

pub record TimeSeriesRequest : Type 0 where
  pub user_uid : String
  pub exchange : String
  pub start_date : String
  pub end_date : String

pub record ConnectionRequest : Type 0 where
  pub user_uid : String
  pub exchange : String
  pub label : String
  pub api_key : Text
  pub api_secret : Text
  pub passphrase : Text

pub data Request : Type 0 where
  process_sync_job : SyncJobRequest → Request
  get_aggregated_metrics : MetricsRequest → Request
  get_snapshot_time_series : TimeSeriesRequest → Request
  create_user_connection : ConnectionRequest → Request
  health_check : Request

pub record MarketMessage (Num : Type 0) : Type 0 where
  pub equity : Num
  pub available_margin : Num
  pub volume : Num
  pub trades : ℕ
  pub trading_fees : Num
  pub funding_fees : Num

pub record BreakdownMessage (Num : Type 0) : Type 0 where
  pub global : Option (MarketMessage Num)
  pub spot : Option (MarketMessage Num)
  pub swap : Option (MarketMessage Num)
  pub stocks : Option (MarketMessage Num)
  pub futures : Option (MarketMessage Num)
  pub cfd : Option (MarketMessage Num)
  pub forex : Option (MarketMessage Num)
  pub commodities : Option (MarketMessage Num)
  pub options : Option (MarketMessage Num)

-- The other fields of a snapshot are sent as they are.
pub record SnapshotMessage (Num : Type 0) : Type 0 where
  pub snapshot : SnapshotData Num
  pub breakdown : Option (BreakdownMessage Num)

pub record LatestMessage (Num : Type 0) : Type 0 where
  pub balance : Num
  pub equity : Num
  pub timestamp : ℕ

-- An error that is not there is sent as the empty text, and so is a user.
pub data Reply (Num : Type 0) : Type 0 where
  sync_job_reply :
      Bool → String → String → ℕ → ℕ → Option (LatestMessage Num) → Option Error → Reply Num
  metrics_reply : Metrics Num → ℕ → Reply Num
  time_series_reply : List (SnapshotMessage Num) → Reply Num
  connection_reply : Bool → String → Option Error → Reply Num
  health_reply : ℕ → Bool → String → ℕ → Reply Num
  invalid_argument : Reply Num
  internal : Error → Reply Num

-- `x === '' ? undefined : x`, and `x || ''`.
abbrev pub unless_empty : String → Option String
unless_empty s = if str_eq s "" then none else some s

abbrev pub or_empty : Option String → String
or_empty none = ""
or_empty (some s) = s

abbrev pub or_zero : Option ℕ → ℕ
or_zero none = 0
or_zero (some n) = n

-- `type || 'incremental'`
abbrev pub or_incremental : String → String
or_incremental s = if str_eq s "" then "incremental" else s

abbrev pub unless_zero : String → Option String
unless_zero s = if str_eq s "0" then none else some s

abbrev pub passphrase_of : Text → Option Text
passphrase_of [] = none
passphrase_of (c ∷ s) = some (c ∷ s)

abbrev pub if_passed : Option ℕ → Option (Option ℕ)
if_passed none = none
if_passed (some t) = some (some t)

module _ (units : String → Symbol) (numbers : Numbers) where
  open numbers use {Num}

  abbrev pub map_metrics : Option (Market Num) → Option (MarketMessage Num)
  map_metrics none = none
  map_metrics (some m) = some (record {
    equity = or_nought numbers m.equity;
    available_margin = or_nought numbers m.available_margin;
    volume = or_nought numbers m.volume;
    trades = or_zero m.trades;
    trading_fees = or_nought numbers m.trading_fees;
    funding_fees = or_nought numbers m.funding_fees;
  })

  abbrev pub breakdown_message : Option (Object (Market Num)) → Option (BreakdownMessage Num)
  breakdown_message none = none
  breakdown_message (some bd) = some (record {
    global = map_metrics (lookup "global" bd);
    spot = map_metrics (lookup "spot" bd);
    swap = map_metrics (lookup "swap" bd);
    stocks = map_metrics (lookup "stocks" bd);
    futures = map_metrics (lookup "futures" bd);
    cfd = map_metrics (lookup "cfd" bd);
    forex = map_metrics (lookup "forex" bd);
    commodities = map_metrics (lookup "commodities" bd);
    options = map_metrics (lookup "options" bd);
  })

  abbrev pub snapshot_message : SnapshotData Num → SnapshotMessage Num
  snapshot_message s = record { snapshot = s; breakdown = breakdown_message s.breakdown_by_market }

  abbrev pub latest_message : Option (SnapshotData Num) → Option (LatestMessage Num)
  latest_message none = none
  latest_message (some s) =
      some
        (record { balance = s.realized_balance; equity = s.total_equity; timestamp = s.timestamp })

  abbrev pub sync_job_message : String → SyncJobResponse Num → Reply Num
  sync_job_message user r =
      sync_job_reply r.success user (or_empty r.exchange) r.synced r.snapshots_generated
        (latest_message r.latest_snapshot) r.error

  -- The tests of the schemas on a user and an exchange.
  abbrev pub is_user : String → Bool
  is_user s = user_uid_schema (units s)

  abbrev pub is_exchange : String → Bool
  is_exchange s = exchange_schema (units s)

  -- A time that is sent must pass its schema: `none` where it does not.
  abbrev pub time_of : ℕ → Option String → Option (Option ℕ)
  time_of now none = some none
  time_of now (some s) = if_passed (timestamp_schema now (units s))

  module _ (worker : EnclaveWorker Num) where
    open worker use {State}

    -- A handler after its validation: what is thrown is answered as INTERNAL.
    abbrev pub if_valid :
        {A : Type 0} → Bool → Act State A → (A → Reply Num) → Act State (Reply Num)
    if_valid false job reply = pure invalid_argument
    if_valid true job reply = catch (job >>= λ a. pure (reply a)) (λ e. pure (internal e))

    unfoldable pub handle_sync_job : SyncJobRequest → Act State (Reply Num)
    handle_sync_job q =
        if_valid
          (is_user q.user_uid
            && optional is_exchange (unless_empty q.exchange)
            && includes sync_types (or_incremental q.sync_type))
          (worker.process_sync_job q.user_uid (unless_empty q.exchange))
          (sync_job_message q.user_uid)

    unfoldable pub handle_metrics : MetricsRequest → Act State (Reply Num)
    handle_metrics q =
        if_valid (is_user q.user_uid && optional is_exchange (unless_empty q.exchange))
          (worker.get_aggregated_metrics q.user_uid (unless_empty q.exchange))
          (λ m. metrics_reply m (or_zero m.last_sync))

    abbrev pub series_between :
        TimeSeriesRequest → Option (Option ℕ) → Option (Option ℕ) → Act State (Reply Num)
    series_between q (some start) (some stop) =
        if_valid (is_range start stop)
          (worker.get_snapshot_time_series q.user_uid (unless_empty q.exchange) start stop)
          (λ ss. time_series_reply (map snapshot_message ss))
    series_between q (some start) none = pure invalid_argument
    series_between q none stop = pure invalid_argument

    unfoldable pub handle_time_series : ℕ → TimeSeriesRequest → Act State (Reply Num)
    handle_time_series now q =
        if is_user q.user_uid && optional is_exchange (unless_empty q.exchange)
        then series_between q (time_of now (unless_zero q.start_date))
            (time_of now (unless_zero q.end_date))
        else pure invalid_argument

    abbrev pub credentials_of : ConnectionRequest → ConnectionCredentials
    credentials_of q = record {
      user_uid = q.user_uid;
      exchange = q.exchange;
      label = q.label;
      api_key = q.api_key;
      api_secret = q.api_secret;
      passphrase = passphrase_of q.passphrase;
      is_active = none;
    }

    unfoldable pub handle_connection : ConnectionRequest → Act State (Reply Num)
    handle_connection q =
        if_valid
          (is_user q.user_uid
            && is_exchange q.exchange
            && of_length 1 100 (units q.label)
            && of_length 1 500 q.api_key
            && of_length 1 500 q.api_secret
            && optional (of_length 0 500) (passphrase_of q.passphrase))
          (worker.create_user_connection (credentials_of q))
          (λ r. connection_reply r.success (or_empty r.user_uid) r.error)

    abbrev pub health_message : Health → Reply Num
    health_message h =
        health_reply (if str_eq h.status "healthy" then 0 else 1) h.enclave h.version h.uptime

    unfoldable pub handle_health : Act State (Reply Num)
    handle_health =
        catch (worker.health_check >>= λ h. pure (health_message h))
          (λ e. pure (health_reply 1 true "error" 0))

    -- The service that the constructor registers.
    unfoldable pub handle : ℕ → Request → Act State (Reply Num)
    unfolding handle_sync_job handle_metrics handle_time_series handle_connection handle_health
    handle now (process_sync_job q) = handle_sync_job q
    handle now (get_aggregated_metrics q) = handle_metrics q
    handle now (get_snapshot_time_series q) = handle_time_series now q
    handle now (create_user_connection q) = handle_connection q
    handle now health_check = handle_health
