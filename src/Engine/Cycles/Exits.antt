-- ===== src/Engine/Cycles/Exits.antt =====
-- A Start of wscengine/websocket_engine.go whose OnOpen calls the exit function.
use gowsclient.Base.{
  ◌+◌, ◌++◌, ap, ◌≡◌, ◌∙◌, true, false, none, some, ◌∷◌, elem_fresh, replicate, arith,
}
use gowsclient.Errors.{is_nil, nil}
use gowsclient.Adapters.Interface.{ConnectionAdapter}
use gowsclient.Client.{WebsocketClient}
use gowsclient.Engine.State.{Engine, Session, dial, on_open, on_close, session_done}
use gowsclient.Engine.Shutdown.{ShutdownEnv, shutdown_engine}
use gowsclient.Engine.Reader.{exited, begin_read, leave}
use gowsclient.Engine.Composed.{after_calls}
use gowsclient.Engine.Stop.{StopEnv, stop, stop_ctx_err, returns}
use gowsclient.Engine.Start.{StartCall, start, start_engine, renew_ctx, routines}
use gowsclient.Engine.Cycles.{IsIdle, IsSmooth}

-- The session that Start opens.
abbrev pub opened_session : Engine → Session
opened_session e = record {
  ctx = e.next + 1;
  parent = some e.next;
  exit = some e.next;
  shutdown_sync = e.next + 1 + 1;
}

record Exits (e up : Engine) : Type 0 where
  started : up.started ≡ true
  readers :
      up.readers
      ≡ replicate (routines e.engine_cfg_opts.reader_routines_count) (opened_session e) ++ e.readers
  done : session_done up (opened_session e) ≡ true
  calls : up.calls ≡ on_open false ∷ dial ∷ e.calls
  ctx : up.engine_ctx ≡ some e.next
  stop_func : up.engine_stop_func ≡ some e.next
  canceled : up.canceled ≡ e.next ∷ e.canceled
  shutdown_sync : up.shutdown_sync ≡ e.next + 1 + 1
  shut_down : up.shut_down ≡ e.shut_down
  stopped_channel : up.stopped_channel ≡ e.stopped_channel
  blocked : up.blocked_senders ≡ e.blocked_senders

start-Exits :
    (call : StartCall) (env : StopEnv) (e : Engine)
    → e.started ≡ false
    → IsSmooth (call, env)
    → call.run.open_exits ≡ true
    → let (up, err) = start call e in (err ≡ nil) × Exits e up
unfolding start start_engine renew_ctx
start-Exits call env e off h exits = ground arith

-- The reader that takes the next step, and the Stop that follows.
record Left (up left : Engine) : Type 0 where
  started : left.started ≡ true
  calls : left.calls ≡ on_close none ∷ up.calls
  stopped_channel : left.stopped_channel ≡ true
  blocked : left.blocked_senders ≡ up.blocked_senders
  shut_down : left.shut_down ≡ up.shutdown_sync ∷ up.shut_down
  shutdown_sync : left.shutdown_sync ≡ up.shutdown_sync
  stop_func : left.engine_stop_func ≡ up.engine_stop_func
  opts : left.engine_cfg_opts ≡ up.engine_cfg_opts

begin_read-Left :
    (env : ShutdownEnv) (e up : Engine)
    → IsIdle e
    → Exits e up
    → let (left, pc) = begin_read env (opened_session e) up in (pc ≡ exited) × Left up left
unfolding begin_read leave shutdown_engine
begin_read-Left env e up i x = ground (
  arith,
  x.done,
  x.ctx,
  x.canceled,
  x.shutdown_sync,
  x.shut_down,
  x.stopped_channel,
  i.empty,
  x.started,
  elem_fresh e.next (e.next + 1 + 1) e.shut_down i.sound.shut_old (omega arith),
)

stop-Left :
    (env : StopEnv) (up left : Engine)
    → Left up left
    → is_nil env.caller_err ≡ true
    → env.timed_out ≡ false
    → let (down, result) = stop env left in
      (result ≡ returns nil) × (down.started ≡ false) × (down.calls ≡ left.calls)
unfolding stop stop_ctx_err
stop-Left env up left l live in_time =
    ground (arith, l.started, l.stopped_channel, l.shut_down, l.shutdown_sync)

module _ {W Url Response C : Type 0} (a : ConnectionAdapter W Url Response)
    (client : WebsocketClient C) (url : Url) where
  -- A Start whose OnOpen calls the exit function and returns nil, on an engine that is not started
  -- and holds no stop signal and with nothing else failing: it returns nil and starts the engine with
  -- a session that is done at once. A reader that takes the next step calls OnClose and exits with
  -- the engine still started; a Stop in time that follows returns nil, and the connection that the
  -- adapter has dialed is still set.
  pub start_exits-stop :
      (call : StartCall) (env : StopEnv) (reader_env : ShutdownEnv) (e : Engine) (x : W × C)
      → IsIdle e
      → IsSmooth (call, env)
      → call.run.open_exits ≡ true
      → call.run.dial_err ≡ (a.dial nil url (after_calls a client url e.calls x).0).2
      → let (up, err) = start call e in
        let (left, pc) = begin_read reader_env (opened_session e) up in
        let (down, result) = stop env left in
        (err ≡ nil)
        × (up.readers
            ≡ replicate (routines e.engine_cfg_opts.reader_routines_count) (opened_session e)
              ++ e.readers)
        × (session_done up (opened_session e) ≡ true)
        × (pc ≡ exited)
        × (left.calls ≡ on_close none ∷ on_open false ∷ dial ∷ e.calls)
        × (left.started ≡ true)
        × (result ≡ returns nil)
        × (down.started ≡ false)
        × (a.connected (after_calls a client url down.calls x).0 ≡ true)
  unfolding after_calls
  start_exits-stop call env reader_env e x i h exits answers =
      let up = (start call e).0 in
      let begun = start-Exits call env e i.off h exits in
      let read = begin_read-Left reader_env e up i begun.1 in
      let left = (begin_read reader_env (opened_session e) up).0 in
      let ended = stop-Left env up left read.1 h.3 h.4 in
      let calls = read.1.calls ∙ ap (λ cs. on_close none ∷ cs) begun.1.calls in
      (
        begun.0,
        begun.1.readers,
        begun.1.done,
        read.0,
        calls,
        read.1.started,
        ended.0,
        ended.1,
        ap (λ cs. a.connected (after_calls a client url cs x).0) (ended.2 ∙ calls)
            ∙ a.dial_succeeds nil url (after_calls a client url e.calls x).0
                (ground (arith, h.2, answers)),
      )
