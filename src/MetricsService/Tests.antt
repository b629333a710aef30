-- ===== src/MetricsService/Tests.antt =====
-- The counters of the service as it starts.
use zero_knowledge_aggregato.Base.{
  ◌+◌, ◌≡◌, refl, String, Bool, ◌&&◌, none, some, List, [], ◌∷◌, count_if, str_eq,
}
use zero_knowledge_aggregato.Aggregator.Data.{symbol, Object}
use zero_knowledge_aggregato.MetricsService.{
  initialize_metrics, get_label_key, labelled, metric, counter,
}
use zero_knowledge_aggregato.MetricsService.Counting.{
  counts, Call, increment_call, gauge_call, call_all, is_increment, Shows, call_all-Shows,
}

-- The order of the names used here.
abbrev before : String → String → Bool
before a b = str_eq a "method" && str_eq b "status"

-- The order in which labels are given does not show.
sorted :
    get_label_key before (("status", "OK") ∷ ("method", "Sync") ∷ [])
    ≡ symbol "method=\"Sync\",status=\"OK\""
unfolding get_label_key
sorted = refl

abbrev succeeded : Object String
succeeded = ("status", "success") ∷ []

abbrev calls : List (Call before)
calls =
    increment_call ("sync_jobs_total", some succeeded)
    ∷ gauge_call "process_memory_bytes" 5 none
    ∷ increment_call ("sync_jobs_total", some succeeded)
    ∷ increment_call ("sync_jobs_total", none)
    ∷ []

at_start :
    Shows before "sync_jobs_total"
      (symbol "status=\"success\"")
      (initialize_metrics counts 1 before)
      0
unfolding initialize_metrics
at_start = record {
  metric =
      metric counts 1 before counter "Total number of sync jobs processed" (labelled [])
        ("status" ∷ []);
  values = [];
  there = refl;
  typed = refl;
  valued = refl;
  shown = refl;
}

call_all-Shows_example :
    Shows before "sync_jobs_total"
      (symbol "status=\"success\"")
      (call_all before calls (initialize_metrics counts 1 before))
      (0 + count_if (is_increment before "sync_jobs_total" (symbol "status=\"success\"")) calls)
call_all-Shows_example =
    call_all-Shows before "sync_jobs_total" (symbol "status=\"success\"") calls
      (initialize_metrics counts 1 before) 0 at_start
