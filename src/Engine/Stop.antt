-- ===== src/Engine/Stop.antt =====
-- Stop and IsStarted of wscengine/websocket_engine.go. Stop holds the start mutex from its first line to its
-- return, so a call is one step of the state.
use gowsclient.Base.{Bool, false, not, ◌&&◌, ◌||◌, none, is_at_least, if◌then◌else◌}
use gowsclient.Errors.{Error, nil, errorf, deadline_exceeded, is_nil}
use gowsclient.Engine.State.{Engine, cancel, receive_stopped, once_do}
use gowsclient.Engine.Shutdown.{ShutdownEnv, shutdown_engine}
pub mod Laws

-- How a call ends; `blocks`: the goroutine waits, with the start mutex locked.
pub data Outcome : Type 0 where
  returns : Error → Outcome
  blocks : Outcome

-- `caller_err` is the error of the caller's context when Stop waits; `timed_out` tells that the
-- deadline of StopTimeoutMs has passed by then; `prefers_ctx` is the choice of the select when both
-- its cases are ready.
pub record StopEnv : Type 0 where
  pub shutdown : ShutdownEnv
  pub caller_err : Error
  pub timed_out : Bool
  pub prefers_ctx : Bool

-- The error of the context that Stop waits on.
unfoldable pub stop_ctx_err : StopEnv → Engine → Error
stop_ctx_err env e =
    if is_nil env.caller_err
    then (if is_at_least 1 e.engine_cfg_opts.stop_timeout_ms && env.timed_out
        then deadline_exceeded
        else nil)
    else env.caller_err

-- The select at the end of Stop.
unfoldable pub wait_stopped : StopEnv → Engine → Engine × Outcome
unfolding stop_ctx_err receive_stopped
wait_stopped env e =
    if not (is_nil (stop_ctx_err env e)) && (env.prefers_ctx || not e.stopped_channel)
    then (e, returns (stop_ctx_err env e))
    else (if e.stopped_channel then (receive_stopped e, returns nil) else (e, blocks))

-- After the shutdown: `finished` tells whether it returned.
unfoldable pub after_shutdown : StopEnv → Engine × Bool → Engine × Outcome
unfolding wait_stopped
after_shutdown env (e, finished) =
    if finished then wait_stopped env (record e { started = false }) else (e, blocks)

-- The call of the stop function, and the shutdown of the present session under its sync.Once.
unfoldable pub begin_stop : ShutdownEnv → Engine → Engine × Bool
unfolding once_do
begin_stop env e =
    let stopping = cancel e.engine_stop_func e in
    once_do stopping.shutdown_sync (shutdown_engine env none false) stopping

abbrev pub not_started : Error
not_started = errorf "websocket engine is not started"

unfoldable pub stop : StopEnv → Engine → Engine × Outcome
unfolding after_shutdown begin_stop
stop env e =
    if e.started then after_shutdown env (begin_stop env.shutdown e) else (e, returns not_started)

unfoldable pub is_started : Engine → Bool
is_started e = e.started
