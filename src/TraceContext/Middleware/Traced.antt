-- ===== src/TraceContext/Middleware/Traced.antt =====
-- What a response and its log record say of the request.
use live_data_architecture.Base.{
  ℕ, ◌≤◌, ◌<◌, String, ◌≡◌, ◌⊎◌, ◌↔◌, inl, inr, refl, true, Option, none, some, List, [], ◌∷◌,
  arith, contains, Bool-cases,
}
use live_data_architecture.TraceContext.{
  ActiveSpan, TraceContext, healthcheck_paths, should_skip_request_log, resolve_request_id,
  resolve_trace_context,
}
use live_data_architecture.TraceContext.Middleware.{
  Headers, Request, Response, Handled, Level, LogRecord, apply_response_headers,
  request_log_metadata, outcome_record, answer, json_request_logging_middleware,
}

-- The status code that goes out.
abbrev pub status_of : Handled → ℕ
status_of (Handled.returned response) = response.status_code
status_of (Handled.raised exc) = 500

-- The response has the request's ids in its headers and the handler's status.
pub record Identifies (id : String) (trace_id : Option String) (handled : Handled)
    (response : Response) : Type 0 where
  pub status_code : response.status_code ≡ status_of handled
  pub request_id : response.headers "x-request-id" ≡ some id
  pub trace_id_header : (t : String) → trace_id ≡ some t → response.headers "x-trace-id" ≡ some t

-- The record has them too, and is an error exactly for a server error.
pub record Describes (id : String) (trace_id : Option String) (status_code : ℕ) (r : LogRecord)
    : Type 0 where
  pub same_request : r.request_id ≡ id
  pub same_correlation : r.correlation_id ≡ id
  pub same_trace : r.trace_id ≡ trace_id
  pub same_status : r.status_code ≡ status_code
  pub severity : (r.level ≡ Level.error) ↔ (500 ≤ status_code)

-- One record, or none for a health check that answered what is expected of it.
abbrev pub IsLogged : String → Option String → String → Handled → List LogRecord → Type 0
IsLogged id trace_id path handled records =
    ((r : LogRecord) × (records ≡ r ∷ []) × Describes id trace_id (status_of handled) r)
    ⊎ ((records ≡ [])
        × (contains healthcheck_paths path ≡ true)
        × ((status_of handled < 500) ⊎ (status_of handled ≡ 503)))

applied-request_id :
    (id : String) (trace_id : Option String) (headers : Headers)
    → apply_response_headers id trace_id headers "x-request-id" ≡ some id
unfolding apply_response_headers
applied-request_id id none headers = refl
applied-request_id id (some t) headers = refl

applied-trace_id :
    (id : String) (trace_id : Option String) (headers : Headers) (t : String)
    → trace_id ≡ some t
    → apply_response_headers id trace_id headers "x-trace-id" ≡ some t
unfolding apply_response_headers
applied-trace_id id none headers t h = cc
applied-trace_id id (some u) headers t h = h

severity_iff : (status : ℕ) → ((request_log_metadata status).0 ≡ Level.error) ↔ (500 ≤ status)
unfolding request_log_metadata
severity_iff status = ground arith

skipped_status :
    (path : String) (status : ℕ)
    → should_skip_request_log path status ≡ true
    → (contains healthcheck_paths path ≡ true) × ((status < 500) ⊎ (status ≡ 503))
unfolding should_skip_request_log
skipped_status path status h = ground arith

-- Every response carries the request id and, if there is one, the trace id of the request, and has
-- the status that the handler gave it, or 500 if it raised. There is one log record with the same
-- ids and that status, an error exactly for a status from 500 on; it is missing only for a health
-- check whose status is below 500 or is 503.
pub middleware_traces :
    (strip : String → String) (request : Request) (new_id : String)
    (active active_after : ActiveSpan) (handled : Handled)
    → let logged =
        json_request_logging_middleware strip request new_id active active_after handled in
      let id = resolve_request_id request.headers new_id in
      let trace_id = TraceContext.trace_id (resolve_trace_context strip request.headers active) in
      Identifies id trace_id handled logged.response
      × IsLogged id trace_id request.path handled logged.records
unfolding json_request_logging_middleware answer outcome_record
middleware_traces strip request new_id active active_after (Handled.raised exc) = (
  record {
    status_code = refl;
    request_id = applied-request_id _ _ _;
    trace_id_header = applied-trace_id _ _ _;
  },
  inl (
    _,
    refl,
    record {
      same_request = refl;
      same_correlation = refl;
      same_trace = refl;
      same_status = refl;
      severity = (λ e. omega arith, λ h. refl);
    },
  ),
)
middleware_traces strip request new_id active active_after (Handled.returned response) = (
  record {
    status_code = refl;
    request_id = applied-request_id _ _ _;
    trace_id_header = applied-trace_id _ _ _;
  },
  elim (Bool-cases (should_skip_request_log request.path response.status_code)) [
    | inl skip ↦
        (let (healthcheck, fine) = skipped_status request.path response.status_code skip in
          inr (rw skip refl, healthcheck, fine))
    | inr kept ↦ inl (
      outcome_record request (resolve_request_id request.headers new_id)
          (resolve_trace_context strip request.headers active) response.status_code,
      rw kept refl,
      record {
        same_request = refl;
        same_correlation = refl;
        same_trace = refl;
        same_status = refl;
        severity = severity_iff response.status_code;
      },
    )
  ],
)
