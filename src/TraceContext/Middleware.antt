-- ===== src/TraceContext/Middleware.antt =====
-- backend/app/platform/middleware/request_logging.py, with the log records and the span's exception of
-- http_request.py. Headers are functions from lowercase names. The duration of a request, and the
-- traceback of an exception, are left out of the records.
pub mod Traced
use live_data_architecture.Base.{
  ℕ, String, Bool, true, false, Option, none, some, List, [], ◌∷◌, leb, ◌==◌, if◌then◌else◌,
}
use live_data_architecture.TraceContext.{
  ActiveSpan, TraceContext, should_skip_request_log, resolve_request_id, resolve_trace_context,
}

abbrev pub Headers : Type 0
Headers = String → Option String

pub record Request : Type 0 where
  pub headers : Headers
  pub method : String
  pub path : String
  -- what `_resolve_endpoint_name` finds in the scope
  pub endpoint : Option String

pub record Response : Type 0 where
  pub status_code : ℕ
  pub headers : Headers

-- What the next handler does: a response, or an exception, by its text.
pub data Handled : Type 0 where
  returned : Response → Handled
  raised : String → Handled

pub data Level : Type 0 where
  error info : Level

pub record LogRecord : Type 0 where
  pub level : Level
  pub message : String
  pub event : String
  pub request_id : String
  pub correlation_id : String
  pub trace_id : Option String
  pub span_id : Option String
  pub tracer_error : Option String
  pub http_method : String
  pub path : String
  pub status_code : ℕ
  pub func : Option String

-- `response.headers[key] = value`
abbrev pub with_header : String → String → Headers → Headers
with_header key value headers name = if key == name then some value else headers name

abbrev pub with_trace_id : Option String → Headers → Headers
with_trace_id none headers = headers
with_trace_id (some trace_id) headers = with_header "x-trace-id" trace_id headers

-- `_response_headers`, put over the headers that are there
unfoldable pub apply_response_headers : String → Option String → Headers → Headers
apply_response_headers request_id trace_id headers =
    with_trace_id trace_id (with_header "x-request-id" request_id headers)

abbrev pub no_headers : Headers
no_headers name = none

-- `_request_log_metadata`: level, event and message
unfoldable pub request_log_metadata : ℕ → Level × String × String
request_log_metadata status_code =
    if leb 500 status_code
    then (Level.error, "request_server_error", "request completed with server error")
    else (Level.info, "request_completed", "request completed")

-- `_record_tracer_exception`: the exception that the span then holds, and the tracer's own error
unfoldable pub record_tracer_exception : ActiveSpan → String → Option String × Option String
record_tracer_exception ActiveSpan.no_span exc = (none, none)
record_tracer_exception (ActiveSpan.span trace_id span_id) exc = (some exc, none)
record_tracer_exception (ActiveSpan.tracer_error e) exc = (none, some e)

-- `log_request_outcome` and `log_request_exception`
abbrev pub log_record :
    Request → String → TraceContext → Option String → ℕ → Level → String → String → LogRecord
log_record request request_id context tracer_error status_code level event message = record {
  level = level;
  message = message;
  event = event;
  request_id = request_id;
  correlation_id = request_id;
  trace_id = context.trace_id;
  span_id = context.span_id;
  tracer_error = tracer_error;
  http_method = request.method;
  path = request.path;
  status_code = status_code;
  func = request.endpoint;
}

-- The record of a response
unfoldable pub outcome_record : Request → String → TraceContext → ℕ → LogRecord
unfolding request_log_metadata
outcome_record request request_id context status_code =
    let (level, event, message) = request_log_metadata status_code in
    log_record request request_id context context.error status_code level event message

-- What the middleware leaves: the response, the records that it logged, and the exception that it
-- put on the span.
pub record Logged : Type 0 where
  pub response : Response
  pub records : List LogRecord
  pub span_exception : Option String

-- `active` is the active span before the handler runs, `active_after` the one after it.
unfoldable pub answer : Request → String → TraceContext → ActiveSpan → Handled → Logged
unfolding outcome_record record_tracer_exception apply_response_headers
answer request request_id context active_after (Handled.raised exc) =
    let (span_exception, tracer_error) = record_tracer_exception active_after exc in
    record {
      response = record {
        status_code = 500;
        headers = apply_response_headers request_id context.trace_id no_headers;
      };
      records =
          log_record request request_id context tracer_error 500 Level.error "request_failed"
            "request failed"
          ∷ [];
      span_exception = span_exception;
    }
answer request request_id context active_after (Handled.returned response) = record {
  response = record response {
    headers = apply_response_headers request_id context.trace_id response.headers;
  };
  records =
      if should_skip_request_log request.path response.status_code
      then []
      else outcome_record request request_id context response.status_code ∷ [];
  span_exception = none;
}

unfoldable pub json_request_logging_middleware :
    (String → String) → Request → String → ActiveSpan → ActiveSpan → Handled → Logged
unfolding answer
json_request_logging_middleware strip request new_id active active_after handled =
    answer request (resolve_request_id request.headers new_id)
      (resolve_trace_context strip request.headers active) active_after handled
