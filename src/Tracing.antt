-- ===== src/Tracing.antt =====
-- wscengine/tracing.go: the names and the two functions that record an error in a span. A span of
-- OpenTelemetry is the list of the calls that are made on it, newest first, from the start of it by
-- a tracer on.
pub mod Names
pub mod Summary
use gowsclient.Base.{ℤ, String, Bool, ◌≡◌, ◌⊎◌, true, false, List, ◌∷◌, if◌then◌else◌, arith}
use gowsclient.Errors.{Error, nil, is_nil}

pub data Status : Type 0 where
  error_status : Status
  ok_status : Status

-- What attribute.String, attribute.Int and attribute.Bool build of a key and a value.
pub data Attribute : Type 0 where
  string_attribute : String → String → Attribute
  int_attribute : String → ℤ → Attribute
  bool_attribute : String → Bool → Attribute

pub data SpanKind : Type 0 where
  span_kind_client : SpanKind
  span_kind_internal : SpanKind

-- `starts` is Start of the tracer, with the span's name.
pub data SpanCall : Type 0 where
  starts : String → SpanKind → List Attribute → SpanCall
  record_error : Error → SpanCall
  set_status : Status → String → SpanCall
  add_event : String → List Attribute → SpanCall
  ends : SpanCall

abbrev pub Span : Type 0
Span = List SpanCall

unfoldable pub handle_error : Error → Span → Status → String → Span × Error
handle_error err span code description =
    (set_status code description ∷ record_error err ∷ span, err)

-- `status_text` is the String method of OpenTelemetry's codes.
unfoldable pub handle_potential_error :
    (status_text : Status → String) → Error → Span → Span × Error
handle_potential_error status_text err span =
    if is_nil err
    then (set_status ok_status (status_text ok_status) ∷ span, nil)
    else (set_status error_status (status_text error_status) ∷ record_error err ∷ span, err)

-- handlePotentialError returns the error that it is given and is handleError on an error that is not
-- nil; on nil it records no error and sets the status Ok.
pub handle_potential_error_lem :
    (status_text : Status → String) (err : Error) (span : Span)
    → ((handle_potential_error status_text err span).1 ≡ err)
      × ((is_nil err ≡ false)
            × (handle_potential_error status_text err span
                ≡ handle_error err span error_status (status_text error_status))
          ⊎ (is_nil err ≡ true)
            × (handle_potential_error status_text err span
                ≡ (set_status ok_status (status_text ok_status) ∷ span, nil)))
unfolding handle_potential_error handle_error
handle_potential_error_lem status_text nil span = ground arith
handle_potential_error_lem status_text err span = ground arith
