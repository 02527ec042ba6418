-- ===== src/Engine/Reader.antt =====
-- runEngine of wscengine/websocket_engine.go, cut at the points where another goroutine may run
-- between: while the reader waits for the read mutex, while it is in conn.Read with the mutex
-- locked, and while it is in OnMessage with the mutex free.
use gowsclient.Base.{ℕ, Bool, true, false, Option, none, some, List, if◌then◌else◌}
use gowsclient.Errors.{Error, CloseError, is_nil, as_close_error}
use gowsclient.Adapters.Constants.{MessageType}
pub use gowsclient.Client.{Signals}
use gowsclient.Engine.State.{
  Engine, Session, CloseMessageDetails, read, on_message, on_read_error, note, cancel, session_done,
  once_do,
}
use gowsclient.Engine.Shutdown.{ShutdownEnv, shutdown_engine}
pub mod Laws
pub mod Loop

pub data Pc : Type 0 where
  waiting : Pc  -- head of the loop, before the read mutex is locked
  reading : Pc  -- in conn.Read, with the read mutex locked
  processing : MessageType → List ℕ → Pc  -- a message is to be handed to OnMessage
  exited : Pc
  stuck : Pc  -- in shutdownEngine, blocked on its send, with the read mutex locked

abbrev pub signal : Signals → Session → Option ℕ → Engine → Engine
signal sg s exit e =
    let e' = if sg.restarts then cancel (some s.ctx) e else e in
    if sg.exits then cancel exit e' else e'

abbrev pub exit_pc : Bool → Pc
exit_pc true = exited
exit_pc false = stuck

-- The shutdown under the session's sync.Once, after which the reader exits.
unfoldable pub leave :
    ShutdownEnv → Option CloseMessageDetails → Bool → Session → Engine → Engine × Pc
unfolding once_do
leave env msg skip s e =
    let (e', back) = once_do s.shutdown_sync (shutdown_engine env msg skip) e in (e', exit_pc back)

-- From the locking of the read mutex to the call of conn.Read.
unfoldable pub begin_read : ShutdownEnv → Session → Engine → Engine × Pc
begin_read env s e = if session_done e s then leave env none true s e else (note read e, reading)

-- What conn.Read returns, what OnReadError does, and the environment of a shutdown.
pub record ReadEnv : Type 0 where
  pub msg_type : MessageType
  pub msg : List ℕ
  pub err : Error
  pub signals : Signals
  pub shutdown : ShutdownEnv

abbrev pub close_message : CloseError → CloseMessageDetails
close_message c = record { close_reason = c.code; close_message = c.reason }

-- The branch of a read error.
unfoldable pub read_failed : ReadEnv → Session → Option CloseError → Engine → Engine × Pc
read_failed env s (some c) e =
    leave env.shutdown (some (close_message c)) true s (cancel (some s.ctx) e)
read_failed env s none e =
    let called = signal env.signals s s.exit (note (on_read_error env.err) e) in
    if session_done called s then leave env.shutdown none false s called else (called, waiting)

-- From the return of conn.Read to the release of the read mutex.
unfoldable pub end_read : ReadEnv → Session → Engine → Engine × Pc
end_read env s e =
    if session_done e s
    then leave env.shutdown none true s e
    else if is_nil env.err
    then (e, processing env.msg_type env.msg)
    else read_failed env s (as_close_error env.err) e

-- The call of OnMessage, which is handed the engine's present stop function as exit.
unfoldable pub process : Signals → Session → MessageType → List ℕ → Engine → Engine × Pc
process sg s ty msg e = (signal sg s e.engine_stop_func (note (on_message s.ctx ty msg) e), waiting)
