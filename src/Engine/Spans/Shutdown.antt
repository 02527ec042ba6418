-- ===== src/Engine/Spans/Shutdown.antt =====
-- shutdownEngine of wscengine/websocket_engine.go with its span.
use gowsclient.Base.{
  ◌≡◌, suc, ◌+◌, Bool, true, false, ◌&&◌, Option, none, some, String, [], ◌∷◌, ◌++◌, length, arith,
  if◌then◌else◌,
}
use gowsclient.Errors.{canceled, is_nil}
use gowsclient.Tracing.{
  int_attribute, string_attribute, bool_attribute, Status, ok_status, record_error, set_status,
  add_event, ends, Span,
}
use gowsclient.Tracing.Names.{
  span_engine_shutdown, event_connection_closed, event_engine_exit, attr_close_code,
  attr_close_reason, attr_has_close_message, attr_skip_close_connection, attr_auto_reconnect,
}
use gowsclient.Tracing.Summary.{name_of, status_of, errors_of, events_of}
use gowsclient.Engine.State.{
  Engine, CloseMessageDetails, close, on_close, on_close_error, note, engine_done, send_stopped,
}
use gowsclient.Engine.Shutdown.{ShutdownEnv, or_default, spawn_restart, shutdown_engine}
use gowsclient.Engine.Spans.{start_span, closed_events, closings}

abbrev pub is_some : Option CloseMessageDetails → Bool
is_some none = false
is_some (some m) = true

module _ (status_text : Status → String) where
  -- The two deferred calls.
  abbrev pub finish : Span → Span
  finish span = ends ∷ set_status ok_status (status_text ok_status) ∷ span

  unfoldable pub traced_close_connection : ShutdownEnv → Engine → Span → Engine × Span
  traced_close_connection env e span =
      let m = or_default env.reply in
      let closed = note (close m.close_reason m.close_message) e in
      let shown =
        add_event event_connection_closed (
          string_attribute attr_close_reason m.close_message
          ∷ int_attribute attr_close_code m.close_reason
          ∷ [])
        ∷ span in
      if is_nil env.close_err
      then (closed, shown)
      else (note (on_close_error env.close_err) closed, record_error env.close_err ∷ shown)

  -- The exit event and the send; a send that blocks leaves the span open.
  unfoldable pub traced_send : Engine → Span → Engine × Bool × Span
  unfolding send_stopped
  traced_send e span =
      let (e', back) = send_stopped e in
      let shown = add_event event_engine_exit [] ∷ span in
      (e', back, if back then finish shown else shown)

  unfoldable pub traced_shutdown_engine :
      ShutdownEnv → Option CloseMessageDetails → (skip : Bool) → Engine → Engine × Bool × Span
  unfolding traced_close_connection traced_send
  traced_shutdown_engine env msg skip e =
      let start = start_span span_engine_shutdown (
        bool_attribute attr_has_close_message (is_some msg)
        ∷ bool_attribute attr_skip_close_connection skip
        ∷ bool_attribute attr_auto_reconnect e.engine_cfg_opts.auto_reconnect
        ∷ []) in
      let called = note (on_close msg) e in
      let (closed, span) =
        if skip then (called, start) else traced_close_connection env called start in
      if closed.engine_cfg_opts.auto_reconnect
      then (if engine_done closed
          then traced_send closed (record_error canceled ∷ span)
          else (spawn_restart closed, true, finish span))
      else traced_send closed span

  -- With its span shutdownEngine does the same. The span shows each call of Close with its code and
  -- its reason and the error of it, then context.Canceled if the engine would restart but its
  -- context has ended; it has one exit event exactly if no restart is started; and it has the
  -- status Ok exactly if the function returns.
  pub traced_shutdown_engine_lem :
      (env : ShutdownEnv) (msg : Option CloseMessageDetails) (skip : Bool) (e : Engine)
      → let (e', back, span) = traced_shutdown_engine env msg skip e in
        ((e', back) ≡ shutdown_engine env msg skip e)
        × (name_of span ≡ span_engine_shutdown)
        × (closings e'.calls ≡ closed_events span ++ closings e.calls)
        × (errors_of span
            ≡ (if e.engine_cfg_opts.auto_reconnect && engine_done e then canceled ∷ [] else [])
              ++ (if skip then [] else if is_nil env.close_err then [] else env.close_err ∷ []))
        × (length (events_of event_engine_exit span) + e'.restarts ≡ suc e.restarts)
        × (status_of span ≡ (if back then some ok_status else none))
  unfolding traced_shutdown_engine shutdown_engine
  traced_shutdown_engine_lem env msg skip e = ground arith
