-- ===== src/MetricsService.antt =====
-- src/services/metrics.service.ts: the registry of metrics and its text for Prometheus. The HTTP server,
-- the reading of memory and time, and the logger's calls are left out. A Map is a list in insertion
-- order; `show` prints a number, and `precedes` is `localeCompare` being negative.
pub mod Counting
pub mod Tests
use zero_knowledge_aggregato.Base.{
  ℕ, String, Bool, true, false, ◌&&◌, Option, none, some, List, [], ◌∷◌, ◌++◌, map, str_eq,
  if◌then◌else◌, Result, ok, err, Error, Act,
}
use zero_knowledge_aggregato.Aggregator.Data.{Numbers, Symbol, symbol, Object, lookup, set_key}
use zero_knowledge_aggregato.Aggregator.Symbols.{same_symbol}
use zero_knowledge_aggregato.Aggregator.Breakdown.{or_nought}

pub data MetricType : Type 0 where
  counter : MetricType
  gauge : MetricType
  histogram : MetricType

-- One number, or a number for each text of labels.
pub data MetricValue (Num : Type 0) : Type 0 where
  single : Num → MetricValue Num
  labelled : List (Symbol × Num) → MetricValue Num

pub record Metric (Num : Type 0) : Type 0 where
  pub type_of : MetricType
  pub help : String
  pub value : MetricValue Num
  pub labels : List String

abbrev pub same_type : MetricType → MetricType → Bool
same_type counter counter = true
same_type counter gauge = false
same_type counter histogram = false
same_type gauge counter = false
same_type gauge gauge = true
same_type gauge histogram = false
same_type histogram counter = false
same_type histogram gauge = false
same_type histogram histogram = true

abbrev pub type_name : MetricType → String
type_name counter = "counter"
type_name gauge = "gauge"
type_name histogram = "histogram"

abbrev pub find_value : {A : Type 0} → Symbol → List (Symbol × A) → Option A
find_value k [] = none
find_value k ((j, a) ∷ rest) = if same_symbol j k then some a else find_value k rest

abbrev pub set_value : {A : Type 0} → Symbol → A → List (Symbol × A) → List (Symbol × A)
set_value k a [] = (k, a) ∷ []
set_value k a ((j, b) ∷ rest) =
    if same_symbol j k then (j, a) ∷ rest else (j, b) ∷ set_value k a rest

-- The labels sorted by name, as `k="v"` with commas between.
abbrev pub insert_label : (String → String → Bool) → String × String → Object String → Object String
insert_label precedes x [] = x ∷ []
insert_label precedes x (y ∷ ys) =
    if precedes y.0 x.0 then y ∷ insert_label precedes x ys else x ∷ y ∷ ys

abbrev pub sort_labels : (String → String → Bool) → Object String → Object String
sort_labels precedes [] = []
sort_labels precedes (x ∷ xs) = insert_label precedes x (sort_labels precedes xs)

abbrev pub quoted : String × String → Symbol
quoted (k, v) = symbol k ++ (symbol "=\"" ++ (symbol v ++ symbol "\""))

abbrev pub join_with : Symbol → List Symbol → Symbol
join_with mark [] = []
join_with mark (x ∷ []) = x
join_with mark (x ∷ y ∷ ys) = x ++ (mark ++ join_with mark (y ∷ ys))

unfoldable pub get_label_key : (String → String → Bool) → Object String → Symbol
get_label_key precedes ls = join_with (symbol ",") (map quoted (sort_labels precedes ls))

module _ (numbers : Numbers) (one : numbers.Num) (precedes : String → String → Bool) where
  open numbers use {Num, nought, plus}

  abbrev pub Registry : Type 0
  Registry = Object (Metric Num)

  -- Each call changes the value of a metric that is there and has the type; another is let be.
  abbrev pub change_if :
      MetricType
      → (MetricValue Num → MetricValue Num)
      → Option (Metric Num)
      → String
      → Registry
      → Registry
  change_if t f none name ms = ms
  change_if t f (some m) name ms =
      if same_type m.type_of t then set_key name (record m { value = f m.value }) ms else ms

  abbrev pub change :
      MetricType → (MetricValue Num → MetricValue Num) → String → Registry → Registry
  change t f name ms = change_if t f (lookup name ms) name ms

  -- Without labels a labelled metric stays as it is, and with labels a single one counts.
  abbrev pub incremented : Option (Object String) → MetricValue Num → MetricValue Num
  incremented ls (single n) = single (plus n one)
  incremented none (labelled vs) = labelled vs
  incremented (some ls) (labelled vs) =
      let k = get_label_key precedes ls in
      labelled (set_value k (plus (or_nought numbers (find_value k vs)) one) vs)

  unfoldable pub increment_counter : String → Option (Object String) → Registry → Registry
  increment_counter name ls = change counter (incremented ls) name

  -- Without labels a labelled gauge becomes a single number.
  abbrev pub gauge_set : Num → Option (Object String) → MetricValue Num → MetricValue Num
  gauge_set n ls (single m) = single n
  gauge_set n none (labelled vs) = single n
  gauge_set n (some ls) (labelled vs) = labelled (set_value (get_label_key precedes ls) n vs)

  unfoldable pub set_gauge : String → Num → Option (Object String) → Registry → Registry
  set_gauge name n ls = change gauge (gauge_set n ls) name

  -- The latest observation alone is kept.
  abbrev pub observed : Num → Option (Object String) → MetricValue Num → MetricValue Num
  observed n ls (single m) = single m
  observed n none (labelled vs) = labelled vs
  observed n (some ls) (labelled vs) = labelled (set_value (get_label_key precedes ls) n vs)

  unfoldable pub observe_histogram : String → Num → Option (Object String) → Registry → Registry
  observe_histogram name n ls = change histogram (observed n ls) name

  unfoldable pub update_system_metrics : Num → Num → Registry → Registry
  unfolding set_gauge
  update_system_metrics heap cpu ms =
      set_gauge "process_cpu_usage_percent" cpu none (set_gauge "process_memory_bytes" heap none ms)

  -- The duration of a call is observed whether it returns or throws, with one more label then.
  abbrev pub observe_outcome :
      {A : Type 0} → String → Object String → Num → Result A → Registry → Registry
  observe_outcome name ls duration (ok a) = observe_histogram name duration (some ls)
  observe_outcome name ls duration (err e) =
      observe_histogram name duration (some (set_key "error" "true" ls))

  unfoldable pub measure_async :
      {A : Type 0} → String → Object String → Num → Result A → Act Registry A
  unfolding observe_histogram
  measure_async name ls duration r ms = (r, observe_outcome name ls duration r ms)

  abbrev pub metric : MetricType → String → MetricValue Num → List String → Metric Num
  metric t help value labels = record { type_of = t; help = help; value = value; labels = labels }

  unfoldable pub initialize_metrics : Registry
  initialize_metrics =
      (
        "grpc_requests_total",
        metric counter "Total number of gRPC requests" (labelled []) ("method" ∷ "status" ∷ []),
      )
      ∷ (
        "grpc_request_duration_seconds",
        metric histogram "gRPC request duration in seconds" (labelled []) ("method" ∷ []),
      )
      ∷ (
        "grpc_active_connections",
        metric gauge "Number of active gRPC connections" (single nought) [],
      )
      ∷ (
        "db_queries_total",
        metric counter "Total number of database queries" (labelled []) ("operation" ∷ []),
      )
      ∷ (
        "db_query_duration_seconds",
        metric histogram "Database query duration in seconds" (labelled []) ("operation" ∷ []),
      )
      ∷ ("process_memory_bytes", metric gauge "Process memory usage in bytes" (single nought) [])
      ∷ (
        "process_cpu_usage_percent",
        metric gauge "Process CPU usage percentage" (single nought) [],
      )
      ∷ (
        "enclave_attestation_success_total",
        metric counter "Total number of successful attestations" (single nought) [],
      )
      ∷ (
        "enclave_attestation_failure_total",
        metric counter "Total number of failed attestations" (single nought) [],
      )
      ∷ (
        "sync_jobs_total",
        metric counter "Total number of sync jobs processed" (labelled []) ("status" ∷ []),
      )
      ∷ (
        "snapshots_created_total",
        metric counter "Total number of snapshots created" (single nought) [],
      )
      ∷ (
        "exchange_connections_total",
        metric gauge "Total number of active exchange connections" (single nought) [],
      )
      ∷ []

  module _ (show : Num → Symbol) where
    abbrev pub value_lines : String → MetricValue Num → List Symbol
    value_lines name (single n) = (symbol name ++ (symbol " " ++ show n)) ∷ []
    value_lines name (labelled vs) =
        map
          (λ (e : Symbol × Num). symbol name ++ (symbol "{" ++ (e.0 ++ (symbol "} " ++ show e.1))))
          vs

    abbrev pub metric_lines : Registry → List Symbol
    metric_lines [] = []
    metric_lines ((name, m) ∷ rest) =
        (symbol "# HELP " ++ (symbol name ++ (symbol " " ++ symbol m.help)))
        ∷ (symbol "# TYPE " ++ (symbol name ++ (symbol " " ++ symbol (type_name m.type_of))))
        ∷ (value_lines name m.value ++ ([] ∷ metric_lines rest))

    -- The text, with what reading memory and time gave.
    unfoldable pub export_metrics : Num → Num → Act Registry Symbol
    unfolding update_system_metrics
    export_metrics heap cpu ms =
        let updated = update_system_metrics heap cpu ms in
        (ok (join_with (symbol "\n") (metric_lines updated)), updated)
