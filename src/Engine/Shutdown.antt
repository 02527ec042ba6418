-- ===== src/Engine/Shutdown.antt =====
-- shutdownEngine of wscengine/websocket_engine.go.
use gowsclient.Base.{Bool, true, Option, none, some, suc, if◌then◌else◌}
use gowsclient.Errors.{Error, is_nil}
use gowsclient.Adapters.Constants.{going_away}
use gowsclient.Engine.State.{
  Engine, CloseMessageDetails, close, on_close, on_close_error, note, engine_done, send_stopped,
}
pub mod Laws

-- What the environment answers: the message that OnClose returns, and the error of conn.Close.
pub record ShutdownEnv : Type 0 where
  pub reply : Option CloseMessageDetails
  pub close_err : Error

abbrev pub default_close_message : CloseMessageDetails
default_close_message = record { close_reason = going_away; close_message = "Going away" }

-- The close message to use.
abbrev pub or_default : Option CloseMessageDetails → CloseMessageDetails
or_default none = default_close_message
or_default (some m) = m

unfoldable pub close_connection : ShutdownEnv → Engine → Engine
close_connection env e =
    let m = or_default env.reply in
    let closed = note (close m.close_reason m.close_message) e in
    if is_nil env.close_err then closed else note (on_close_error env.close_err) closed

-- The goroutine of restartEngine is started; Engine/Restart says what it does.
abbrev pub spawn_restart : Engine → Engine
spawn_restart e = record e { restarts = suc e.restarts }

-- The Boolean tells whether the function returns: it does not while its send is blocked.
unfoldable pub shutdown_engine :
    ShutdownEnv → Option CloseMessageDetails → (skip : Bool) → Engine → Engine × Bool
unfolding close_connection send_stopped
shutdown_engine env msg skip e =
    let called = note (on_close msg) e in
    let closed = if skip then called else close_connection env called in
    if closed.engine_cfg_opts.auto_reconnect
    then (if engine_done closed then send_stopped closed else (spawn_restart closed, true))
    else send_stopped closed
