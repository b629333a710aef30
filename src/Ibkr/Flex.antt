-- ===== src/Ibkr/Flex.antt =====
-- src/external/ibkr-flex-service.ts: asking for a report, waiting for it, and the cache of reports. The
-- HTTP client and the XML parser are an interface: a call of the client may throw, and of a parsed
-- document there is what the service reads. The logger and the waits between attempts are left out.
pub mod Retries
pub mod Caching
pub mod Tests
use zero_knowledge_aggregato.Base.{
  ℕ, zero, suc, ◌-◌, ◌*◌, String, Bool, true, false, ◌&&◌, not, Option, none, some, List, [], ◌∷◌,
  ◌++◌, keep, ltb, str_eq, if◌then◌else◌, Result, ok, err, Error, message, because, Act, pure,
  throw, lift, ◌>>=◌, ◌>>◌, catch,
}
use zero_knowledge_aggregato.Aggregator.Data.{Symbol, symbol, Object}
use zero_knowledge_aggregato.Aggregator.Symbols.{contains, same_symbol}

-- The lists of a FlexStatement, each entry with its attributes. `equity_by_date` stands directly in it,
-- the other two in the first AccountInformation and the first EquitySummaryInBase.
pub record Statement : Type 0 where
  pub trades : Option (List (Object String))
  pub open_positions : Option (List (Object String))
  pub cash_transactions : Option (List (Object String))
  pub equity_by_date : Option (List (Object String))
  pub account_information : Option (List (Object String))
  pub equity_in_base : Option (List (Object String))

-- The fields of FlexStatementResponse, and the first statement of FlexQueryResponse.
pub record Document : Type 0 where
  pub status : Option String
  pub error_code : Option String
  pub reference_code : Option String
  pub statement : Option Statement

pub record Client : Type 1 where
  pub Net : Type 0
  -- A request for a report by token and query, and one for a statement by token and reference code.
  pub send_request : String → String → Act Net String
  pub get_statement : String → String → Act Net String
  pub parse_string : String → Result Document

pub record FlexCache : Type 0 where
  pub xml_data : String
  pub timestamp : ℕ

-- The service: its cache as a map in insertion order, and the outside that its client calls.
pub record FlexState (Net : Type 0) : Type 0 where
  pub flex_cache : List (Symbol × FlexCache)
  pub net : Net

abbrev pub cache_ttl_ms : ℕ
cache_ttl_ms = 30 * 60 * 1000

abbrev pub max_retries : ℕ
max_retries = 20

abbrev pub is_text : String → Option String → Bool
is_text s none = false
is_text s (some t) = str_eq s t

abbrev pub cache_key : String → String → Symbol
cache_key token query = symbol token ++ (symbol ":" ++ symbol query)

abbrev pub find_report : Symbol → List (Symbol × FlexCache) → Option FlexCache
find_report k [] = none
find_report k ((j, c) ∷ rest) = if same_symbol j k then some c else find_report k rest

abbrev pub set_report : Symbol → FlexCache → List (Symbol × FlexCache) → List (Symbol × FlexCache)
set_report k c [] = (k, c) ∷ []
set_report k c ((j, b) ∷ rest) =
    if same_symbol j k then (j, c) ∷ rest else (j, b) ∷ set_report k c rest

abbrev pub is_live : ℕ → FlexCache → Bool
is_live now c = ltb (now - c.timestamp) cache_ttl_ms

-- The report that the cache answers with.
abbrev pub live_report : ℕ → Option FlexCache → Option FlexCache
live_report now none = none
live_report now (some c) = if is_live now c then some c else none

abbrev pub is_old : ℕ → Symbol × FlexCache → Bool
is_old now (k, c) = ltb (60 * 60 * 1000) (now - c.timestamp)

abbrev pub drop_old : ℕ → List (Symbol × FlexCache) → List (Symbol × FlexCache)
drop_old now = keep (λ e. not (is_old now e))

abbrev pub api_error : Error
api_error = message "Flex API Error"

abbrev pub timed_out : Error
timed_out = message "Flex statement generation timeout - report not ready after retries"

abbrev pub is_statement : String → Bool
is_statement xml = contains (symbol "<FlexQueryResponse") (symbol xml)

-- What one answer says: the statement is there, the request failed, it is not ready, or neither.
pub data Answer : Type 0 where
  ready : Answer
  refused : Answer
  not_ready : Answer
  unclear : Answer

abbrev pub answer_of_status : Document → Answer
answer_of_status d =
    if is_text "Success" d.status
    then ready
    else if is_text "Fail" d.status
    then if is_text "1019" d.error_code then not_ready else refused
    else unclear

abbrev pub parsed_answer : Result Document → Result Answer
parsed_answer (ok d) = ok (answer_of_status d)
parsed_answer (err e) = err e

module _ (client : Client) where
  open client use {Net}

  -- An empty reference code is none.
  abbrev pub reference_or_throw : Option String → Act Net String
  reference_or_throw none = throw (message "No reference code received from Flex API")
  reference_or_throw (some r) =
      if str_eq r "" then throw (message "No reference code received from Flex API") else pure r

  abbrev pub reference_of : Document → Act Net String
  reference_of d =
      if is_text "Fail" d.status then throw api_error else reference_or_throw d.reference_code

  unfoldable pub request_flex_report : String → String → Act Net String
  request_flex_report token query =
      catch
        (do
          response ← client.send_request token query
          parsed ← lift (client.parse_string response)
          reference_of parsed)
        (λ e. throw (because "Flex request failed" e))

  abbrev pub answer_of : String → Result Answer
  answer_of xml = if is_statement xml then ok ready else parsed_answer (client.parse_string xml)

  -- After an answer, with the attempts that are left.
  abbrev pub go_on : ℕ → Act Net String → String → Answer → Act Net String
  go_on left rest xml ready = pure xml
  go_on left rest xml refused = throw api_error
  go_on zero rest xml not_ready = throw api_error
  go_on (suc n) rest xml not_ready = rest
  go_on left rest xml unclear = rest

  -- The loop, with the number of attempts that remain.
  abbrev pub attempt : String → String → ℕ → Act Net String
  attempt token reference zero = throw timed_out
  attempt token reference (suc n) = client.get_statement token reference >>= λ xml.
      lift (answer_of xml) >>= go_on n (attempt token reference n) xml

  unfoldable pub get_flex_statement : String → String → Act Net String
  get_flex_statement token reference =
      catch (attempt token reference max_retries) (λ e. throw (because "Flex retrieval failed" e))

  unfoldable pub test_connection : String → String → Act Net Bool
  test_connection token query =
      catch
        (do
          reference ← request_flex_report token query
          get_flex_statement token reference
          pure true)
        (λ e. pure false)

  abbrev pub on_net : {A : Type 0} → Act Net A → Act (FlexState Net) A
  on_net m s = ((m s.net).0, record s { net = (m s.net).1 })

  abbrev pub store_report : ℕ → Symbol → String → Act (FlexState Net) String
  store_report now k xml s = (
    ok xml,
    record s {
      flex_cache =
          drop_old now (set_report k (record { xml_data = xml; timestamp = now }) s.flex_cache);
    },
  )

  abbrev pub fetch_report : ℕ → String → String → Act (FlexState Net) String
  fetch_report now token query = do
    reference ← on_net (request_flex_report token query)
    xml ← on_net (get_flex_statement token reference)
    store_report now (cache_key token query) xml

  abbrev pub serve_or_fetch :
      Option FlexCache → Act (FlexState Net) String → Act (FlexState Net) String
  serve_or_fetch (some c) fetch = pure c.xml_data
  serve_or_fetch none fetch = fetch

  unfoldable pub get_flex_data_cached : ℕ → String → String → Act (FlexState Net) String
  get_flex_data_cached now token query s =
      serve_or_fetch (live_report now (find_report (cache_key token query) s.flex_cache))
        (fetch_report now token query) s
