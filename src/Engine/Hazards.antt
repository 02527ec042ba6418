-- ===== src/Engine/Hazards.antt =====
-- Sequences of calls of Start and Stop of wscengine/websocket_engine.go that do not end as the
-- comments of these methods say.
use gowsclient.Base.{ℕ, ◌+◌, ◌<◌, ◌≡◌, refl, true, false, some, arith}
use gowsclient.Errors.{nil, errorf, engine_start_error, is_nil}
use gowsclient.Engine.State.{Engine, Session, session_done}
use gowsclient.Engine.Stop.{StopEnv, stop, not_started, stop_ctx_err, returns}
use gowsclient.Engine.Stop.Laws.{IsRunning, stop_running, stop-canceled}
use gowsclient.Engine.Start.{StartCall, start, renew_ctx, start_engine}
use gowsclient.Engine.Start.Laws.{succeeds}

start_on_started :
    (call : StartCall) (e : Engine)
    → is_nil call.caller_err ≡ true
    → is_nil call.run.entry_err ≡ true
    → call.gives_up ≡ false
    → e.started ≡ true
    → start call e ≡ (renew_ctx e, engine_start_error (errorf "engine has already started"))
unfolding start start_engine renew_ctx
start_on_started call e live entry waits on = ground arith

renewed-IsRunning : (e : Engine) (c : ℕ) → IsRunning e c → IsRunning (renew_ctx e) e.next
unfolding renew_ctx
renewed-IsRunning e c r = record {
  ctx = refl;
  stop_func = refl;
  started = r.started;
  unclosed = r.unclosed;
  empty = r.empty;
}

-- A Start, with a context that stays live and that is not given up, of an engine that runs, whose
-- session was not shut down and that neither holds a stop signal nor has a sender that waits: it is
-- refused, but it replaces the engine context. A Stop in time that follows then returns nil and leaves
-- the engine not started, and yet the session that was running is not done.
pub start_again-stop :
    (call : StartCall) (env : StopEnv) (e : Engine) (c : ℕ) (s : Session)
    → IsRunning e c
    → e.blocked_senders ≡ 0
    → is_nil call.caller_err ≡ true
    → is_nil call.run.entry_err ≡ true
    → call.gives_up ≡ false
    → is_nil (stop_ctx_err env e) ≡ true
    → s.parent ≡ some c
    → (c < e.next) × (s.ctx < e.next)
    → session_done e s ≡ false
    → let (again, refusal) = start call e in
      let (e', result) = stop env again in
      (refusal ≡ engine_start_error (errorf "engine has already started"))
      × (result ≡ returns nil)
      × (e'.started ≡ false)
      × (session_done e' s ≡ false)
unfolding stop_ctx_err renew_ctx
start_again-stop call env e c s run idle live entry waits in_time child old running =
    let again = start_on_started call e live entry waits run.started in
    let fresh = renewed-IsRunning e c run in
    let stopped = stop_running env (renew_ctx e) e.next fresh idle in_time in
    let canceled = stop-canceled env (renew_ctx e) e.next fresh in
    rw again (refl, stopped.0, stopped.1, rw (canceled, child) (ground (arith, child)))

-- The state after a Start whose startEngine succeeds.
pub record Launches (e e' : Engine) : Type 0 where
  pub ctx : e'.engine_ctx ≡ some e.next
  pub stop_func : e'.engine_stop_func ≡ some e.next
  pub started : e'.started ≡ true
  pub shutdown_sync : e'.shutdown_sync ≡ e.next + 1 + 1
  pub shut_down : e'.shut_down ≡ e.shut_down
  pub stopped_channel : e'.stopped_channel ≡ e.stopped_channel

pub start-Launches :
    (call : StartCall) (e : Engine)
    → is_nil call.caller_err ≡ true
    → succeeds call.run false e ≡ true
    → Launches e (start call e).0
unfolding start start_engine renew_ctx
start-Launches call e live ok = ground arith

-- A Start of an engine that runs, whose context ends between its own check and that of startEngine,
-- unsets the started flag: the session goes on, and yet the next Stop returns the error that the
-- engine is not started and changes nothing.
canceled_start-stop :
    (call : StartCall) (env : StopEnv) (e : Engine) (c : ℕ) (s : Session)
    → IsRunning e c
    → is_nil call.caller_err ≡ true
    → is_nil call.run.entry_err ≡ false
    → s.parent ≡ some c
    → session_done e s ≡ false
    → let e' = (start call e).0 in
      (stop env e' ≡ (e', returns not_started)) × (session_done e' s ≡ false)
unfolding start start_engine renew_ctx stop
canceled_start-stop call env e c s run live ended child running = ground arith
