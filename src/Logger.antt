-- ===== src/Logger.antt =====
-- src/utils/secure-enclave-logger.ts: the log lines that leave the enclave. `JSON.stringify` is a
-- parameter, the clock is an argument, and the two streams are the lists of their lines. The three
-- lines that are written when the module is loaded are left out.
pub mod Metadata
pub mod Patterns
pub mod Redaction
pub mod Buffer
pub mod Tests
use zero_knowledge_aggregato.Base.{
  ℕ, ◌+◌, String, Bool, true, false, Option, none, some, List, [], ◌∷◌, ◌++◌, leb, ltb, length,
  drop, str_eq, if◌then◌else◌,
}
use zero_knowledge_aggregato.Prisma.{upsert_rows}
use zero_knowledge_aggregato.Aggregator.Data.{Symbol, symbol}
use zero_knowledge_aggregato.Logger.Metadata.{
  Value, Fields, text, obj, end, field, set_field, filter_fields, string_of, is_truthy,
}
use zero_knowledge_aggregato.Logger.Patterns.{should_redact_field}

pub data LogLevel : Type 0 where
  error_level warn_level info_level debug_level : LogLevel

abbrev pub log_level_priority : LogLevel → ℕ
log_level_priority error_level = 0
log_level_priority warn_level = 1
log_level_priority info_level = 2
log_level_priority debug_level = 3

-- LOG_LEVEL of the environment, in capitals.
abbrev pub level_of_env : Option String → LogLevel
level_of_env none = info_level
level_of_env (some s) =
    if str_eq s "ERROR"
    then error_level
    else if str_eq s "WARN"
    then warn_level
    else if str_eq s "DEBUG"
    then debug_level
    else info_level

-- An entry is always marked as the enclave's.
pub record LogEntry : Type 0 where
  pub timestamp : ℕ
  pub level : LogLevel
  pub context : String
  pub message : String
  pub metadata : Option Fields

-- The state of the module: its level, its buffer, whether a broadcast is registered, and what was
-- written so far to the two streams and to the broadcast.
pub record LogState : Type 0 where
  pub global_level : LogLevel
  pub log_buffer : List String
  pub registered : Bool
  pub stdout : List String
  pub stderr : List String
  pub broadcast : List String

abbrev pub max_log_buffer_size : ℕ
max_log_buffer_size = 500

abbrev pub should_log : LogLevel → LogState → Bool
should_log level s = leb (log_level_priority level) (log_level_priority s.global_level)

-- `push`, then `shift` where the buffer is too long.
abbrev pub push_log : String → List String → List String
push_log line buffer =
    let pushed = buffer ++ (line ∷ []) in
    if ltb max_log_buffer_size (length pushed) then drop 1 pushed else pushed

unfoldable pub add_log_to_buffer : String → LogState → LogState
add_log_to_buffer line s = record s {
  log_buffer = push_log line s.log_buffer;
  broadcast = if s.registered then s.broadcast ++ (line ∷ []) else s.broadcast;
}

unfoldable pub get_log_buffer : LogState → List String
get_log_buffer s = s.log_buffer

unfoldable pub clear_log_buffer : LogState → LogState
clear_log_buffer s = record s { log_buffer = [] }

unfoldable pub register_sse_broadcast : LogState → LogState
register_sse_broadcast s = record s { registered = true }

unfoldable pub set_log_level : LogLevel → LogState → LogState
set_log_level level s = record s { global_level = level }

-- Metadata with no field is left out.
abbrev pub filtered_metadata : Fields → Option Fields
filtered_metadata end = none
filtered_metadata (field k v rest) = some (filter_fields should_redact_field (field k v rest))

abbrev pub entry_of : ℕ → String → LogLevel → String → Fields → LogEntry
entry_of now context level message metadata = record {
  timestamp = now;
  level = level;
  context = context;
  message = message;
  metadata = filtered_metadata metadata;
}

-- Errors go to the error stream.
abbrev pub write_line : LogLevel → String → LogState → LogState
write_line error_level line s = record s { stderr = s.stderr ++ (line ∷ []) }
write_line _ line s = record s { stdout = s.stdout ++ (line ∷ []) }

-- What `error` is given: an Error, another value, or nothing.
pub data Thrown : Type 0 where
  nothing : Thrown
  an_error : Value → Value → Value → Thrown
  other : Value → Thrown

abbrev pub enriched : Thrown → Fields → Fields
enriched nothing metadata = metadata
enriched (an_error name message stack) metadata =
    set_field (symbol "error")
      (obj (
        field (symbol "name") name
          (field (symbol "message") message (field (symbol "stack") stack end))))
      metadata
enriched (other value) metadata =
    if is_truthy value
    then set_field (symbol "error") (text (string_of value)) metadata
    else metadata

module _ (stringify : LogEntry → String) where
  unfoldable pub emit : ℕ → String → LogLevel → String → Fields → LogState → LogState
  unfolding add_log_to_buffer
  emit now context level message metadata s =
      let line = stringify (entry_of now context level message metadata) in
      if should_log level s then add_log_to_buffer line (write_line level line s) else s

  unfoldable pub error : ℕ → String → String → Thrown → Fields → LogState → LogState
  unfolding emit
  error now context message thrown metadata =
      emit now context error_level message (enriched thrown metadata)
