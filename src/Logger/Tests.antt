-- ===== src/Logger/Tests.antt =====
-- Runs of the logger, and its theorems at concrete inputs.
use zero_knowledge_aggregato.Base.{◌≤◌, ◌≡◌, refl, String, true, false, List, [], ◌∷◌, length}
use zero_knowledge_aggregato.Aggregator.Data.{symbol}
use zero_knowledge_aggregato.Logger.Metadata.{
  Fields, text, number, arr, obj, nil, item, end, field, redacted, filter_sensitive_data,
  filter_fields,
}
use zero_knowledge_aggregato.Logger.Patterns.{should_redact_field}
use zero_knowledge_aggregato.Logger.{
  LogEntry, LogState, info_level, debug_level, an_error, emit, error, get_log_buffer,
  clear_log_buffer, set_log_level, max_log_buffer_size,
}
use zero_knowledge_aggregato.Logger.Redaction.{
  AlikeFields, Alike, hidden, shown, no_fields, arrays, objects, items, no_items, renamed,
  emit-AlikeFields,
}
use zero_knowledge_aggregato.Logger.Buffer.{
  LogCall, logged, cleared, leveled, Lines, run, run_lines, last_up_to, run-Refines,
}

abbrev message_only : LogEntry → String
message_only e = e.message

abbrev fresh : LogState
fresh = record {
  global_level = info_level;
  log_buffer = [];
  registered = true;
  stdout = [];
  stderr = [];
  broadcast = [];
}

redacts : should_redact_field (symbol "API_Key") ≡ true
unfolding should_redact_field
redacts = refl

shows : should_redact_field (symbol "attempt") ≡ false
unfolding should_redact_field
shows = refl

hides_user : should_redact_field (symbol "userUid") ≡ true
unfolding should_redact_field
hides_user = refl

abbrev job_of : String → Fields
job_of user =
    field (symbol "attempt") (number "1")
      (field (symbol "jobs") (arr (item (obj (field (symbol "userUid") (text user) end)) nil)) end)

filtered :
    filter_fields should_redact_field (job_of "ann")
    ≡ field
        (symbol "attempt")
        (number "1")
        (field (symbol "jobs") (arr (item (obj (field (symbol "userUid") redacted end)) nil)) end)
unfolding filter_sensitive_data should_redact_field
filtered = refl

jobs_Alike : AlikeFields should_redact_field (job_of "ann") (job_of "bob")
jobs_Alike = shown _ _ _ _ _ (Alike.same _) (
    shown _ _ _ _ _
      (arrays _ _ (items _ _ _ _ (objects _ _ (hidden _ _ _ _ _ hides_user no_fields)) no_items))
      no_fields)

emit-AlikeFields_example :
    (emit message_only 0 "Worker" info_level "done" (job_of "ann") fresh
      ≡ emit message_only 0 "Worker" info_level "done" (job_of "bob") fresh)
    × (error message_only 0 "Worker" "done"
          (an_error (text "A") (text "m") (text "s"))
          (job_of "ann")
          fresh
        ≡ error message_only 0 "Worker" "done"
            (an_error (text "B") (text "m") (text "s"))
            (job_of "bob")
            fresh)
emit-AlikeFields_example =
    emit-AlikeFields message_only 0 "Worker" info_level "done" (job_of "ann") (job_of "bob")
      (an_error (text "A") (text "m") (text "s")) (an_error (text "B") (text "m") (text "s")) fresh
      jobs_Alike (renamed (text "A") (text "B") (text "m") (text "s"))

abbrev calls : List LogCall
calls =
    logged 1 "Worker" info_level "one" end
    ∷ cleared
    ∷ logged 2 "Worker" debug_level "two" end
    ∷ leveled debug_level
    ∷ logged 3 "Worker" debug_level "three" end
    ∷ []

buffered : get_log_buffer (run message_only calls fresh) ≡ "three" ∷ []
unfolding get_log_buffer emit clear_log_buffer set_log_level
buffered = refl

abbrev no_lines : Lines
no_lines = record { level = info_level; lines = [] }

empty_buffer : get_log_buffer fresh ≡ []
unfolding get_log_buffer
empty_buffer = refl

run-Refines_example :
    (get_log_buffer (run message_only calls fresh)
      ≡ last_up_to max_log_buffer_size (run_lines message_only calls no_lines).lines)
    × (length (get_log_buffer (run message_only calls fresh)) ≤ max_log_buffer_size)
run-Refines_example = run-Refines message_only calls fresh no_lines refl empty_buffer
