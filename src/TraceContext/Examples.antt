-- ===== src/TraceContext/Examples.antt =====
-- The header of the standard's own example.
use live_data_architecture.Base.{
  String, ◌≡◌, ◌↔◌, refl, true, false, none, some, ◌==◌, if◌then◌else◌,
}
use live_data_architecture.TraceContext.{
  ActiveSpan, TraceContext, should_skip_request_log, parse_traceparent, resolve_request_id,
  resolve_trace_context,
}
use live_data_architecture.TraceContext.Traceparent.{IsTraceparent, parse_traceparent_iff}
use live_data_architecture.TraceContext.Middleware.{
  Request, Handled, Logged, json_request_logging_middleware,
}
use live_data_architecture.TraceContext.Middleware.Traced.{Identifies, IsLogged, middleware_traces}

abbrev header : String
header = "00-4bf92f3577b34da6a3ce929d0e0e4736-00f067aa0ba902b7-01"

abbrev same_text : String → String
same_text s = s

skipped :
    (should_skip_request_log "/health/ready" 503 ≡ true)
    × (should_skip_request_log "/health/ready" 500 ≡ false)
unfolding should_skip_request_log
skipped = (refl, refl)

parse_traceparent_iff_example :
    (parse_traceparent same_text (some header)
      ≡ some ("4bf92f3577b34da6a3ce929d0e0e4736", "00f067aa0ba902b7"))
    ↔ IsTraceparent header "4bf92f3577b34da6a3ce929d0e0e4736" "00f067aa0ba902b7"
parse_traceparent_iff_example =
    parse_traceparent_iff same_text header "4bf92f3577b34da6a3ce929d0e0e4736" "00f067aa0ba902b7"

abbrev request : Request
request = record {
  headers = λ name. if name == "traceparent" then some header else none;
  method = "GET";
  path = "/analytics/datasets";
  endpoint = some "list_datasets";
}

abbrev trace : TraceContext
trace = resolve_trace_context same_text request.headers ActiveSpan.no_span

abbrev logged : Logged
logged =
    json_request_logging_middleware same_text request "id-1" ActiveSpan.no_span ActiveSpan.no_span
      (Handled.raised "KeyError: 'x'")

middleware_traces_example :
    Identifies
      (resolve_request_id request.headers "id-1")
      trace.trace_id
      (Handled.raised "KeyError: 'x'")
      logged.response
    × IsLogged
        (resolve_request_id request.headers "id-1")
        trace.trace_id
        request.path
        (Handled.raised "KeyError: 'x'")
        logged.records
middleware_traces_example =
    middleware_traces same_text request "id-1" ActiveSpan.no_span ActiveSpan.no_span
      (Handled.raised "KeyError: 'x'")
