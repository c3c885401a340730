-- ===== src/TraceContext.antt =====
-- backend/app/platform/logging/context/http_request.py: which requests are logged, and the request and
-- trace ids that their log records carry. The headers of a request are a function from lowercase
-- names; `str.strip`, the new request id and the active OpenTelemetry span are parameters.
pub mod Traceparent
pub mod Middleware
mod Examples
use Prim.Native.Char.{Char, IsScalar, code}
use Prim.Native.String
use Prim.Native.String.{count}
use live_data_architecture.Base.{
  ℕ, ◌+◌, ◌*◌, ◌%◌, ◌^◌, String, Bool, true, false, not, ◌&&◌, ◌||◌, Option, none, some, List, [],
  ◌∷◌, arith, ltb, leb, eqb, contains, if◌then◌else◌,
}
use live_data_architecture.Generator.Hex.{format_hex}

abbrev pub healthcheck_paths : List String
healthcheck_paths = "/health/live" ∷ "/health/ready" ∷ "/health/heartbeat" ∷ []

unfoldable pub should_skip_request_log : String → ℕ → Bool
should_skip_request_log path status_code =
    contains healthcheck_paths path && (ltb status_code 500 || eqb status_code 503)

-- A text that Python takes as false is missing here: `if value:` of an optional text.
abbrev pub given : Option String → Option String
given none = none
given (some String.[]) = none
given (some (String.◌∷◌ c s)) = some (String.◌∷◌ c s)

abbrev pub or_next {ℓ} : {A : Type ℓ} → Option A → A → A
or_next none next = next
or_next (some a) next = a

unfoldable pub resolve_request_id : (String → Option String) → String → String
resolve_request_id headers new_id =
    or_next (given (headers "x-request-id")) (or_next (given (headers "x-correlation-id")) new_id)

abbrev pub is_lower_hex_digit : Char → Bool
is_lower_hex_digit c =
    (leb b'0' (code c) && leb (code c) b'9') || (leb b'a' (code c) && leb (code c) b'f')

abbrev pub all_chars : (Char → Bool) → String → Bool
all_chars p String.[] = true
all_chars p (String.◌∷◌ c s) = p c && all_chars p s

unfoldable pub is_lower_hex : String → ℕ → Bool
is_lower_hex value length = eqb (count value) length && all_chars is_lower_hex_digit value

-- `set(value) == {"0"}`
unfoldable pub is_all_zero : String → Bool
is_all_zero String.[] = false
is_all_zero (String.◌∷◌ c s) = all_chars (λ d. eqb (code d) b'0') (String.◌∷◌ c s)

-- The arguments of `_traceparent_hex_validator`, and the validator that it returns.
pub record FieldRule : Type 0 where
  pub length : ℕ
  pub allow_all_zero : Bool
  pub forbidden_values : List String

unfoldable pub validate_field : FieldRule → String → Bool
unfolding is_lower_hex is_all_zero
validate_field rule value =
    is_lower_hex value rule.length
    && not (contains rule.forbidden_values value)
    && not (not rule.allow_all_zero && is_all_zero value)

abbrev pub version_rule : FieldRule
version_rule = record { length = 2; allow_all_zero = true; forbidden_values = "ff" ∷ [] }

abbrev pub trace_id_rule : FieldRule
trace_id_rule = record { length = 32; allow_all_zero = false; forbidden_values = [] }

abbrev pub parent_id_rule : FieldRule
parent_id_rule = record { length = 16; allow_all_zero = false; forbidden_values = [] }

abbrev pub trace_flags_rule : FieldRule
trace_flags_rule = record { length = 2; allow_all_zero = true; forbidden_values = [] }

-- `split("-")`
abbrev pub push : Char → List String → List String
push c [] = String.◌∷◌ c "" ∷ []
push c (part ∷ parts) = String.◌∷◌ c part ∷ parts

unfoldable pub split_dashes : String → List String
split_dashes String.[] = "" ∷ []
split_dashes (String.◌∷◌ c s) =
    let parts = split_dashes s in if eqb (code c) b'-' then "" ∷ parts else push c parts

-- The parts, if there are four, each of which its validator accepts.
unfoldable pub traceparent_of_parts : List String → Option (String × String)
unfolding validate_field
traceparent_of_parts (version ∷ trace_id ∷ parent_id ∷ trace_flags ∷ []) =
    if validate_field version_rule version
      && validate_field trace_id_rule trace_id
      && validate_field parent_id_rule parent_id
      && validate_field trace_flags_rule trace_flags
    then some (trace_id, parent_id)
    else none
traceparent_of_parts _ = none

-- The text of code points below 128
pub ascii-IsScalar : (c : ℕ) → IsScalar (c % 128)
ascii-IsScalar c = ground arith

pub text_of_codes : List ℕ → String
text_of_codes [] = ""
text_of_codes (c ∷ cs) = String.◌∷◌ (Char.char (c % 128) (ascii-IsScalar c)) (text_of_codes cs)

-- What OpenTelemetry says of the current span: no valid one, its two ids, or an error, as text.
pub data ActiveSpan : Type 0 where
  no_span : ActiveSpan
  span : ℕ → ℕ → ActiveSpan
  tracer_error : String → ActiveSpan

pub record TraceContext : Type 0 where
  pub trace_id : Option String
  pub span_id : Option String
  pub error : Option String

unfoldable pub current_trace_context : ActiveSpan → TraceContext
unfolding text_of_codes
current_trace_context ActiveSpan.no_span = record { trace_id = none; span_id = none; error = none }
current_trace_context (ActiveSpan.span trace_id span_id) = record {
  trace_id = some (text_of_codes (format_hex 32 trace_id));
  span_id = some (text_of_codes (format_hex 16 span_id));
  error = none;
}
current_trace_context (ActiveSpan.tracer_error e) = record {
  trace_id = none;
  span_id = none;
  error = some e;
}

module _ (strip : String → String) where
  unfoldable pub parse_traceparent : Option String → Option (String × String)
  unfolding split_dashes traceparent_of_parts
  parse_traceparent none = none
  parse_traceparent (some value) = traceparent_of_parts (split_dashes (strip value))

  abbrev pub or_trace_id_header : TraceContext → Option String → TraceContext
  or_trace_id_header active header = elim active.trace_id [
    | some trace_id ↦ active
    | none ↦ record { trace_id = header; span_id = none; error = active.error }
  ]

  abbrev pub or_active : Option (String × String) → TraceContext → TraceContext
  or_active none active = active
  or_active (some (trace_id, span_id)) active = record {
    trace_id = some trace_id;
    span_id = some span_id;
    error = none;
  }

  unfoldable pub resolve_trace_context : (String → Option String) → ActiveSpan → TraceContext
  unfolding parse_traceparent current_trace_context
  resolve_trace_context headers active =
      or_active (parse_traceparent (headers "traceparent"))
        (or_trace_id_header (current_trace_context active) (given (headers "x-trace-id")))
