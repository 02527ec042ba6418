-- ===== src/Engine/Spans/Reader.antt =====
-- runEngine of wscengine/websocket_engine.go with its spans, one for each round of its loop. The two
-- deferred calls of a round wait for the return of the function, so the spans of all rounds are kept,
-- newest first. The loop is that of one reader without a step of another goroutine in between.
pub mod Rounds
use gowsclient.Base.{true, false, Option, none, some, String, List, [], ◌∷◌, map, if◌then◌else◌}
use gowsclient.Errors.{CloseError, canceled, is_nil, as_close_error}
use gowsclient.Tracing.{
  Attribute, int_attribute, string_attribute, Status, record_error, add_event, Span,
}
use gowsclient.Tracing.Names.{
  span_engine_background_run, event_engine_goroutine_exit, event_connection_closed, attr_session_id,
  attr_goroutine_id, attr_close_code, attr_close_reason,
}
use gowsclient.Engine.State.{Engine, Session, read, on_read_error, note, cancel, session_done}
use gowsclient.Engine.Shutdown.{ShutdownEnv}
use gowsclient.Engine.Reader.{
  Pc, waiting, reading, processing, exited, signal, ReadEnv, leave, close_message,
}
use gowsclient.Engine.Reader.Loop.{Round, handle_read, goes_on}
use gowsclient.Engine.Spans.{start_span}
use gowsclient.Engine.Spans.Shutdown.{finish}

abbrev pub Traced : Type 0
Traced = Engine × Pc × Span

module _ (status_text : Status → String) (session_id routine_id : String) where
  abbrev pub worker : List Attribute
  worker =
      string_attribute attr_session_id session_id
      ∷ string_attribute attr_goroutine_id routine_id
      ∷ []

  -- The exit event, if the shutdown has returned.
  abbrev pub left : Engine × Pc → Span → Traced
  left (e, exited) span = (e, exited, add_event event_engine_goroutine_exit worker ∷ span)
  left (e, pc) span = (e, pc, span)

  unfoldable pub traced_begin_read : ShutdownEnv → Session → Engine → Traced
  traced_begin_read env s e =
      let span = start_span span_engine_background_run worker in
      if session_done e s then left (leave env none true s e) span else (note read e, reading, span)

  -- The error is in the span already.
  unfoldable pub traced_read_failed : ReadEnv → Session → Option CloseError → Engine → Span → Traced
  traced_read_failed env s (some c) e span =
      left (leave env.shutdown (some (close_message c)) true s (cancel (some s.ctx) e)) (
        add_event event_connection_closed
          (string_attribute attr_close_reason c.reason ∷ int_attribute attr_close_code c.code ∷ [])
        ∷ span)
  traced_read_failed env s none e span =
      let called = signal env.signals s s.exit (note (on_read_error env.err) e) in
      if session_done called s
      then left (leave env.shutdown none false s called) span
      else (called, waiting, span)

  unfoldable pub traced_end_read : ReadEnv → Session → Engine → Span → Traced
  unfolding traced_read_failed
  traced_end_read env s e span =
      if session_done e s
      then left (leave env.shutdown none true s e) (record_error canceled ∷ span)
      else if is_nil env.err
      then (e, processing env.msg_type env.msg, span)
      else traced_read_failed env s (as_close_error env.err) e (record_error env.err ∷ span)

  -- OnMessage has a span of its own, in the decorator of the client.
  unfoldable pub traced_handle : Round → Session → Traced → Traced
  traced_handle r s (e, pc, span) = let (e', pc') = handle_read r s (e, pc) in (e', pc', span)

  unfoldable pub traced_round : Round → Session → Traced → Traced
  unfolding traced_end_read traced_handle
  traced_round r s (e, reading, span) = traced_handle r s (traced_end_read r.read_env s e span)
  traced_round r s (e, pc, span) = (e, pc, span)

  -- The deferred calls run when the function returns, which it does not while it is stuck.
  abbrev pub deferred : Pc → List Span → List Span
  deferred exited spans = map (finish status_text) spans
  deferred _ spans = spans

  -- The loop over the rounds that are given, after earlier rounds with the given spans.
  unfoldable pub traced_run_engine :
      List Round → Session → Engine → List Span → Engine × Pc × List Span
  unfolding traced_round traced_begin_read
  traced_run_engine [] s e spans = (e, waiting, spans)
  traced_run_engine (r ∷ rest) s e spans =
      let (e', pc, span) = traced_round r s (traced_begin_read r.shutdown s e) in
      let again = traced_run_engine rest s e' (span ∷ spans) in
      if goes_on pc then again else (e', pc, deferred pc (span ∷ spans))
