-- ===== src/Engine/State.antt =====
-- The struct WebsocketEngine of wscengine/websocket_engine.go, with what its goroutines share: the
-- contexts that were canceled, the sync.Once objects that have run, the readers that were started,
-- and the calls of the connection adapter and of the user's callbacks, newest first.
-- A context and a sync.Once are numbers, taken in turn from `next`; a cancel function is the number
-- of the context that it cancels. The two mutexes are in Engine/System.
use gowsclient.Base.{
  ℕ, suc, ◌-◌, ℤ, String, Bool, true, false, ◌||◌, Option, none, some, List, [], ◌∷◌, elem,
  if◌then◌else◌, ltb,
}
use gowsclient.Errors.{Error}
use gowsclient.Adapters.Constants.{StatusCode, MessageType}
pub use gowsclient.Client.{CloseMessageDetails}
use gowsclient.Config.{WebsocketEngineConfigurationOptions}

-- A call of the adapter or of a callback, and the sleeps between attempts to restart.
pub data Call : Type 0 where
  dial : Call
  close : StatusCode → String → Call
  read : Call
  on_open : (restarting : Bool) → Call
  on_message : (session : ℕ) → MessageType → List ℕ → Call
  on_read_error : Error → Call
  on_close : Option CloseMessageDetails → Call
  on_close_error : Error → Call
  on_restart_error : Error → (retry_count : ℕ) → Call
  sleep : ℤ → Call

-- What startEngine hands to each reader of a session: the session context with its parent, the
-- exit function, and the session's sync.Once.
pub record Session : Type 0 where
  pub ctx : ℕ
  pub parent : Option ℕ
  pub exit : Option ℕ
  pub shutdown_sync : ℕ

pub record Engine : Type 0 where
  pub engine_ctx : Option ℕ  -- nil before the first Start
  pub engine_stop_func : Option ℕ  -- `none` is the function that does nothing
  pub engine_cfg_opts : WebsocketEngineConfigurationOptions
  pub started : Bool
  pub stopped_channel : Bool  -- whether the channel, of capacity 1, holds a signal
  pub blocked_senders : ℕ  -- goroutines that wait to send on it
  pub shutdown_sync : ℕ
  pub next : ℕ
  pub canceled : List ℕ
  pub shut_down : List ℕ  -- sync.Once objects that have run, newest first
  pub readers : List Session  -- every reader that was started, newest first
  pub restarts : ℕ  -- restartEngine goroutines that were started
  pub calls : List Call

-- The engine that NewWebsocketEngine returns.
abbrev pub new_engine_state : WebsocketEngineConfigurationOptions → Engine
new_engine_state opts = record {
  engine_ctx = none;
  engine_stop_func = none;
  engine_cfg_opts = opts;
  started = false;
  stopped_channel = false;
  blocked_senders = 0;
  shutdown_sync = 0;
  next = 1;
  canceled = [];
  shut_down = [];
  readers = [];
  restarts = 0;
  calls = [];
}

abbrev pub note : Call → Engine → Engine
note c e = record e { calls = c ∷ e.calls }

-- A call of a context.CancelFunc.
abbrev pub cancel : Option ℕ → Engine → Engine
cancel none e = e
cancel (some c) e = record e { canceled = c ∷ e.canceled }

abbrev pub ctx_done : Engine → Option ℕ → Bool
ctx_done e none = false
ctx_done e (some c) = elem c e.canceled

-- `<-wsengine.engineCtx.Done()`
abbrev pub engine_done : Engine → Bool
engine_done e = ctx_done e e.engine_ctx

-- `<-sessionCtx.Done()`: a context is done when it or its parent is canceled.
abbrev pub session_done : Engine → Session → Bool
session_done e s = elem s.ctx e.canceled || ctx_done e s.parent

-- `wsengine.stoppedChannel <- true`; the Boolean tells whether the send returns.
unfoldable pub send_stopped : Engine → Engine × Bool
send_stopped e =
    if e.stopped_channel
    then (record e { blocked_senders = suc e.blocked_senders }, false)
    else (record e { stopped_channel = true }, true)

-- `<-wsengine.stoppedChannel` on a channel that holds a signal: a blocked sender takes its place.
unfoldable pub receive_stopped : Engine → Engine
receive_stopped e = record e {
  stopped_channel = ltb 0 e.blocked_senders;
  blocked_senders = e.blocked_senders - 1;
}

-- `shutdownSync.Do(f)`; a second call returns at once, also while the first is blocked in `f`.
unfoldable pub once_do : ℕ → (Engine → Engine × Bool) → Engine → Engine × Bool
once_do once f e =
    if elem once e.shut_down then (e, true) else f (record e { shut_down = once ∷ e.shut_down })
