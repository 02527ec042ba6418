-- ===== src/Engine/Shutdown/Laws.antt =====
-- What shutdownEngine of wscengine/websocket_engine.go calls, and how it ends.
use gowsclient.Base.{
  suc, ◌≡◌, ◌⊎◌, Bool, true, false, ◌&&◌, not, Option, ◌∷◌, [], ◌++◌, List, arith, if◌then◌else◌,
}
use gowsclient.Errors.{is_nil}
use gowsclient.Engine.State.{
  Engine, CloseMessageDetails, Call, close, on_close, on_close_error, engine_done,
}
use gowsclient.Engine.Shutdown.{ShutdownEnv, or_default, shutdown_engine}

-- The calls of a shutdown, newest first.
abbrev pub shutdown_calls : ShutdownEnv → Option CloseMessageDetails → Bool → List Call
shutdown_calls env msg true = on_close msg ∷ []
shutdown_calls env msg false =
    let m = or_default env.reply in
    let c = close m.close_reason m.close_message ∷ on_close msg ∷ [] in
    if is_nil env.close_err then c else on_close_error env.close_err ∷ c

-- shutdownEngine calls OnClose once, with the given close message. Unless it is told to skip, it
-- then closes the connection once, with the message that OnClose returned or else 1001, and calls
-- OnCloseError exactly if that fails.
pub shutdown_engine-calls :
    (env : ShutdownEnv) (msg : Option CloseMessageDetails) (skip : Bool) (e : Engine)
    → (shutdown_engine env msg skip e).0.calls ≡ shutdown_calls env msg skip ++ e.calls
unfolding shutdown_engine
shutdown_engine-calls env msg skip e = ground arith

-- Whether the engine is to be restarted.
abbrev pub reconnects : Engine → Bool
reconnects e = e.engine_cfg_opts.auto_reconnect && not (engine_done e)

-- What is left to wait on after a shutdown that began in the first state.
abbrev pub HandsOver : Engine → Engine → Bool → Type 0
HandsOver e e' back =
    (reconnects e ≡ true)
      × (back ≡ true)
      × (e'.restarts ≡ suc e.restarts)
      × (e'.stopped_channel ≡ e.stopped_channel)
      × (e'.blocked_senders ≡ e.blocked_senders)
    ⊎ (reconnects e ≡ false)
      × (back ≡ not e.stopped_channel)
      × (e'.restarts ≡ e.restarts)
      × (e'.stopped_channel ≡ true)
      × (e'.blocked_senders
          ≡ (if e.stopped_channel then suc e.blocked_senders else e.blocked_senders))

-- A shutdown ends in one of two ways. With automatic reconnection and an engine context that is not
-- canceled it starts one restartEngine goroutine, returns, and sends no stop signal. Otherwise it
-- starts none and the stopped channel holds a signal; it returns exactly if the channel was empty.
pub shutdown_engine-HandsOver :
    (env : ShutdownEnv) (msg : Option CloseMessageDetails) (skip : Bool) (e : Engine)
    → HandsOver e (shutdown_engine env msg skip e).0 (shutdown_engine env msg skip e).1
unfolding shutdown_engine
shutdown_engine-HandsOver env msg skip e = ground arith

-- What a shutdown leaves alone.
pub record Keeps (e e' : Engine) : Type 0 where
  pub canceled : e'.canceled ≡ e.canceled
  pub shut_down : e'.shut_down ≡ e.shut_down
  pub readers : e'.readers ≡ e.readers
  pub next : e'.next ≡ e.next
  pub shutdown_sync : e'.shutdown_sync ≡ e.shutdown_sync
  pub started : e'.started ≡ e.started
  pub ctx : e'.engine_ctx ≡ e.engine_ctx
  pub stop_func : e'.engine_stop_func ≡ e.engine_stop_func
  pub opts : e'.engine_cfg_opts ≡ e.engine_cfg_opts

pub shutdown_engine-Keeps :
    (env : ShutdownEnv) (msg : Option CloseMessageDetails) (skip : Bool) (e : Engine)
    → Keeps e (shutdown_engine env msg skip e).0
unfolding shutdown_engine
shutdown_engine-Keeps env msg skip e = ground arith
