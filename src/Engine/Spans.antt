-- ===== src/Engine/Spans.antt =====
-- The spans of the methods of wscengine/websocket_engine.go: what the methods have in common.
-- Each module below translates a method once more, with the calls on its span between the others.
use gowsclient.Base.{ℤ, String, Option, some, List, [], ◌∷◌, map}
use gowsclient.Errors.{Error}
use gowsclient.Tracing.{
  Attribute, span_kind_internal, Status, error_status, starts, ends, Span, handle_error,
}
use gowsclient.Tracing.Names.{event_connection_closed, attr_close_code, attr_close_reason}
use gowsclient.Tracing.Summary.{events_of, int_at, string_at}
use gowsclient.Engine.State.{Engine, Call, close}
pub mod Start
pub mod Shutdown
pub mod Stop
pub mod Restart
pub mod Reader

-- `wsengine.tracer.Start(ctx, name, trace.WithSpanKind(trace.SpanKindInternal))`
abbrev pub start_span : String → List Attribute → Span
start_span name attributes = starts name span_kind_internal attributes ∷ []

-- handleError with the code Error, then the deferred End, in a state that stays as it is.
abbrev pub fail : (Status → String) → Error → Span → Engine → Engine × Error × Span
fail status_text err span e =
    let (span', err') = handle_error err span error_status (status_text error_status) in
    (e, err', ends ∷ span')

-- The code and the reason that an event or a call of Close tells.
abbrev pub Closing : Type 0
Closing = Option ℤ × Option String

-- The closings that a span shows, newest first.
abbrev pub closed_events : Span → List Closing
closed_events span =
    map (λ attributes. (int_at attr_close_code attributes, string_at attr_close_reason attributes))
      (events_of event_connection_closed span)

-- Those among the calls of the engine.
abbrev pub closings : List Call → List Closing
closings [] = []
closings (close code reason ∷ calls) = (some code, some reason) ∷ closings calls
closings (_ ∷ calls) = closings calls
