-- ===== src/Engine/Spans/Stop.antt =====
-- Stop of wscengine/websocket_engine.go with its span. The span of the shutdown is another one, in
-- Engine/Spans/Shutdown.
use gowsclient.Base.{◌≡◌, false, not, ◌&&◌, ◌||◌, some, none, String, [], ◌∷◌, arith, if◌then◌else◌}
use gowsclient.Errors.{Error, nil, is_nil}
use gowsclient.Tracing.{Status, ok_status, set_status, ends, Span, handle_error}
use gowsclient.Tracing.Names.{span_engine_stop}
use gowsclient.Tracing.Summary.{Summary, summary, result_status}
use gowsclient.Engine.State.{Engine, receive_stopped}
use gowsclient.Engine.Stop.{
  StopEnv, Outcome, returns, blocks, stop_ctx_err, begin_stop, not_started, stop,
}
use gowsclient.Engine.Spans.{start_span, fail}

-- What the span of a Stop with a given end is to show: that of one that blocks has not ended.
abbrev pub outcome_summary : Outcome → Summary
outcome_summary (returns err) = record {
  name = span_engine_stop;
  error = err;
  status = some (result_status err);
}
outcome_summary blocks = record { name = span_engine_stop; error = nil; status = none }

module _ (status_text : Status → String) where
  abbrev pub return_error : Error → Span → Engine → Engine × Outcome × Span
  return_error err span e =
      let (e', err', span') = fail status_text err span e in (e', returns err', span')

  unfoldable pub traced_wait : StopEnv → Engine → Span → Engine × Outcome × Span
  unfolding stop_ctx_err receive_stopped handle_error
  traced_wait env e span =
      if not (is_nil (stop_ctx_err env e)) && (env.prefers_ctx || not e.stopped_channel)
      then return_error (stop_ctx_err env e) span e
      else if e.stopped_channel
      then (
        receive_stopped e,
        returns nil,
        ends ∷ set_status ok_status (status_text ok_status) ∷ span,
      )
      else (e, blocks, span)

  unfoldable pub traced_stop : StopEnv → Engine → Engine × Outcome × Span
  unfolding traced_wait begin_stop
  traced_stop env e =
      let span = start_span span_engine_stop [] in
      if e.started
      then (let (shut, finished) = begin_stop env.shutdown e in
          if finished
          then traced_wait env (record shut { started = false }) span
          else (shut, blocks, span))
      else return_error not_started span e

  -- With its span Stop does and returns the same. The span shows the error that Stop returns, with
  -- the status Error, or the status Ok if it returns nil; that of a Stop that never returns shows
  -- neither.
  pub traced_stop_lem :
      (env : StopEnv) (e : Engine)
      → let (e', result, span) = traced_stop env e in
        ((e', result) ≡ stop env e) × (summary span ≡ outcome_summary result)
  unfolding traced_stop stop handle_error stop_ctx_err
  traced_stop_lem env e = ground arith
