-- ===== src/Engine/Spans/Start.antt =====
-- startEngine and Start of wscengine/websocket_engine.go with their spans.
use gowsclient.Base.{
  ◌≡◌, Bool, false, not, ◌&&◌, ◌||◌, Option, some, ℕ, String, [], ◌∷◌, ◌++◌, arith, if◌then◌else◌,
}
use gowsclient.Errors.{Error, nil, errorf, engine_start_error, is_nil}
use gowsclient.Tracing.{
  int_attribute, string_attribute, bool_attribute, Status, ok_status, record_error, set_status,
  add_event, ends, Span, handle_error, handle_potential_error,
}
use gowsclient.Tracing.Names.{
  span_engine_start, span_engine_background_start, event_connection_closed, attr_close_code,
  attr_close_reason, attr_restart,
}
use gowsclient.Tracing.Summary.{summary, result_status}
use gowsclient.Adapters.Constants.{StatusCode, going_away}
use gowsclient.Engine.State.{Engine, dial, close, on_open, note, cancel}
use gowsclient.Engine.Start.{
  StartEnv, StartCall, launch, start_engine, renew_ctx, can_give_up, start,
}
use gowsclient.Engine.Spans.{start_span, fail, closed_events, closings}

module _ (status_text : Status → String) where
  -- The connection is closed, with the event before and the error of Close, nil or not, after it.
  abbrev pub trace_close : StatusCode → String → Error → Span → Span
  trace_close code reason close_err span =
      record_error close_err
      ∷ add_event event_connection_closed
          (int_attribute attr_close_code code ∷ string_attribute attr_close_reason reason ∷ [])
      ∷ span

  -- `close_err` is the error of conn.Close.
  unfoldable pub traced_open_session :
      StartEnv → (close_err : Error) → Bool → Option ℕ → Engine → Span → Engine × Error × Span
  unfolding launch
  traced_open_session env close_err restart exit e span =
      let called = note (on_open restart) e in
      let opened = if env.open_exits then cancel exit called else called in
      let reason : String = "websocket client failed to start" in
      if is_nil env.open_err
      then (launch exit opened, nil, ends ∷ set_status ok_status (status_text ok_status) ∷ span)
      else fail status_text (engine_start_error env.open_err)
          (trace_close going_away reason close_err span) (note (close going_away reason) opened)

  unfoldable pub traced_start_engine :
      StartEnv
      → (close_err : Error) → (restart : Bool) → (exit : Option ℕ) → Engine
      → Engine × Error × Span
  unfolding traced_open_session
  traced_start_engine env close_err restart exit e =
      let span =
        start_span span_engine_background_start (bool_attribute attr_restart restart ∷ []) in
      let reason : String = "websocket client has been interrupted" in
      if not (is_nil env.entry_err)
      then fail status_text (engine_start_error env.entry_err) span (record e { started = false })
      else if not e.started || restart
      then (let dialed = note dial e in
          if not (is_nil env.dialed_err)
          then fail status_text (engine_start_error env.dialed_err)
              (trace_close going_away reason close_err span) (note (close going_away reason) dialed)
          else if not (is_nil env.dial_err)
          then fail status_text (engine_start_error env.dial_err) span dialed
          else traced_open_session env close_err restart exit dialed span)
      else fail status_text (engine_start_error (errorf "engine has already started")) span e

  -- With its span startEngine does and sends the same. The span shows the error that is sent, with
  -- the status Error, or the status Ok if nil is sent, and each call of Close with its code and its
  -- reason.
  pub traced_start_engine_lem :
      (env : StartEnv) (close_err : Error) (restart : Bool) (exit : Option ℕ) (e : Engine)
      → let (e', sent, span) = traced_start_engine env close_err restart exit e in
        ((e', sent) ≡ start_engine env restart exit e)
        × (summary span ≡ record {
          name = span_engine_background_start;
          error = sent;
          status = some (result_status sent);
        })
        × (closings e'.calls ≡ closed_events span ++ closings e.calls)
  unfolding traced_start_engine start_engine handle_error
  traced_start_engine_lem env close_err restart exit e = ground arith

  unfoldable pub traced_start : StartCall → Engine → Engine × Error × Span
  unfolding renew_ctx start_engine handle_potential_error
  traced_start c e =
      let fresh = renew_ctx e in
      let span = start_span span_engine_start [] in
      if not (is_nil c.caller_err)
      then fail status_text (engine_start_error c.caller_err) span fresh
      else (let (e', result) = start_engine c.run false fresh.engine_stop_func fresh in
          if c.gives_up && can_give_up c e
          then fail status_text (engine_start_error c.waiting_err) span e'
          else (let (span', err) = handle_potential_error status_text result span in
              (e', err, ends ∷ span')))

  -- With its span Start does and returns the same, and the span shows the error that it returns,
  -- with the status Error, or the status Ok if it returns nil.
  pub traced_start_lem :
      (c : StartCall) (e : Engine)
      → let (e', result, span) = traced_start c e in
        ((e', result) ≡ start c e)
        × (summary span ≡ record {
          name = span_engine_start;
          error = result;
          status = some (result_status result);
        })
  unfolding traced_start start handle_potential_error handle_error
  traced_start_lem c e = ground arith
