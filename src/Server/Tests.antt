-- ===== src/Server/Tests.antt =====
-- The schemas at concrete texts, and the server over a worker that counts its calls.
use zero_knowledge_aggregato.Base.{
  ℕ, ◌+◌, ◌-◌, ◌*◌, ◌≡◌, refl, ◌⊎◌, String, true, false, Option, none, some, [], ltb, ok, err,
  message,
}
use zero_knowledge_aggregato.Aggregator.Data.{Numbers, symbol}
use zero_knowledge_aggregato.Server.Schemas.{user_uid_schema, exchange_schema, timestamp_schema}
use zero_knowledge_aggregato.Server.{
  EnclaveWorker, Request, Reply, get_aggregated_metrics, invalid_argument, handle, handle_metrics,
  get_snapshot_time_series, TimeSeriesRequest, unless_empty,
}
use zero_knowledge_aggregato.Server.Untrusted.{
  HasSafeNames, handle-HasSafeNames, IsWithinReach, AreOrdered, answered,
  handle_time_series-AreOrdered,
}

clerk : user_uid_schema (symbol "user_2NNEqL2nrIRdJ194") ≡ true
unfolding user_uid_schema
clerk = refl

uuid : user_uid_schema (symbol "550E8400-e29b-41d4-a716-446655440000") ≡ true
unfolding user_uid_schema
uuid = refl

cuid : user_uid_schema (symbol "ckopqwooh000001la8mbi2im9") ≡ true
unfolding user_uid_schema
cuid = refl

injected : user_uid_schema (symbol "user_2NNEqL2nrIRdJ194'--") ≡ false
unfolding user_uid_schema
injected = refl

upper_case_exchange : exchange_schema (symbol "Binance") ≡ false
unfolding exchange_schema
upper_case_exchange = refl

tomorrow : timestamp_schema 1000 (symbol "86401000") ≡ none
unfolding timestamp_schema
tomorrow = refl

abbrev amounts : Numbers
amounts = record {
  Num = ℕ;
  nought = 0;
  plus = λ a b. a + b;
  minus = λ a b. a - b;
  times = λ a b. a * b;
  truthy = λ a. ltb 0 a;
  positive = λ a. ltb 0 a;
}

-- The state is the number of calls.
abbrev worker : EnclaveWorker ℕ
worker = record {
  State = ℕ;
  process_sync_job = λ u e n. (err (message "busy"), n + 1);
  get_aggregated_metrics = λ u e n. (err (message "busy"), n + 1);
  get_snapshot_time_series = λ u e a b n. (ok [], n + 1);
  create_user_connection =
      λ c n. (ok (record { success = true; user_uid = some c.user_uid; error = none }), n + 1);
  health_check =
      λ n. (ok (record { status = "healthy"; enclave = true; version = "1.0.0"; uptime = 5 }), n);
}

abbrev metrics_of : String → Request
metrics_of user = get_aggregated_metrics (record { user_uid = user; exchange = "" })

unnamed : handle symbol amounts worker 1000 (metrics_of "ann") 7 ≡ (ok invalid_argument, 7)
unfolding handle handle_metrics user_uid_schema
unnamed = refl

handle-HasSafeNames_example :
    let q = metrics_of "user_2NNEqL2nrIRdJ194" in
    let r = handle symbol amounts worker 1000 q 7 in
    ((reply : Reply ℕ) × (r.0 ≡ ok reply))
    × ((r ≡ (ok invalid_argument, 7)) ⊎ HasSafeNames symbol amounts worker q)
handle-HasSafeNames_example =
    handle-HasSafeNames symbol amounts worker 1000 (metrics_of "user_2NNEqL2nrIRdJ194") 7

abbrev series_of : TimeSeriesRequest
series_of = record {
  user_uid = "user_2NNEqL2nrIRdJ194";
  exchange = "okx";
  start_date = "5";
  end_date = "0";
}

handle_time_series-AreOrdered_example :
    let r = handle symbol amounts worker 1000 (get_snapshot_time_series series_of) 7 in
    (r ≡ (ok invalid_argument, 7))
    ⊎ ((start stop : Option ℕ) × IsWithinReach symbol amounts worker 1000 start
        × IsWithinReach symbol amounts worker 1000 stop
        × AreOrdered symbol amounts worker start stop
        × (r
            ≡ answered symbol amounts worker (
                worker.get_snapshot_time_series series_of.user_uid
                  (unless_empty series_of.exchange)
                  start
                  stop
                  7)))
handle_time_series-AreOrdered_example =
    handle_time_series-AreOrdered symbol amounts worker 1000 series_of 7
