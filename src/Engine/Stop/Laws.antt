-- ===== src/Engine/Stop/Laws.antt =====
-- What Stop of wscengine/websocket_engine.go returns and does.
use gowsclient.Base.{ℕ, ◌≡◌, true, false, none, some, ◌∷◌, ◌++◌, arith, elem}
use gowsclient.Errors.{nil, errorf, is_nil}
use gowsclient.Engine.State.{Engine, engine_done}
use gowsclient.Engine.Shutdown.Laws.{
  shutdown_calls, shutdown_engine-calls, shutdown_engine-HandsOver, shutdown_engine-Keeps,
}
use gowsclient.Engine.Stop.{StopEnv, stop, stop_ctx_err, returns, blocks}

-- The engine runs: its stop function cancels its context, the session has not been shut down, and
-- no stop signal is left over.
pub record IsRunning (e : Engine) (c : ℕ) : Type 0 where
  pub ctx : e.engine_ctx ≡ some c
  pub stop_func : e.engine_stop_func ≡ some c
  pub started : e.started ≡ true
  pub unclosed : elem e.shutdown_sync e.shut_down ≡ false
  pub empty : e.stopped_channel ≡ false

-- The state in which Stop shuts down a session whose context is `c`.
abbrev pub stopping : Engine → ℕ → Engine
stopping e c = record e { canceled = c ∷ e.canceled; shut_down = e.shutdown_sync ∷ e.shut_down }

-- On an engine that is not started Stop returns an error and changes nothing.
stop_not_started :
    (env : StopEnv) (e : Engine)
    → e.started ≡ false
    → stop env e ≡ (e, returns (errorf "websocket engine is not started"))
unfolding stop
stop_not_started env e h = ground arith

-- A Stop in time on a started engine whose stop function is that of its context, whose session was
-- not shut down yet, and that neither holds a stop signal nor has a sender that waits: it returns nil.
-- The engine context is canceled, OnClose is called with no message and the connection is closed once,
-- no restart is started, and the engine is left not started, shut down, with no stop signal.
pub stop_running :
    (env : StopEnv) (e : Engine) (c : ℕ)
    → IsRunning e c
    → e.blocked_senders ≡ 0
    → is_nil (stop_ctx_err env e) ≡ true
    → let (e', result) = stop env e in
      (result ≡ returns nil)
      × (e'.started ≡ false)
      × (engine_done e' ≡ true)
      × (elem e.shutdown_sync e'.shut_down ≡ true)
      × (e'.calls ≡ shutdown_calls env.shutdown none false ++ e.calls)
      × (e'.restarts ≡ e.restarts)
      × (e'.stopped_channel ≡ false)
unfolding stop stop_ctx_err
stop_running env e c r b live = ground (
  arith,
  shutdown_engine-HandsOver env.shutdown none false (stopping e c),
  shutdown_engine-Keeps env.shutdown none false (stopping e c),
  shutdown_engine-calls env.shutdown none false (stopping e c),
)

-- A Stop that gives up because its context has ended still stops the engine, but it leaves the stop
-- signal in the channel.
pub stop_gives_up :
    (env : StopEnv) (e : Engine) (c : ℕ)
    → IsRunning e c
    → is_nil (stop_ctx_err env e) ≡ false
    → env.prefers_ctx ≡ true
    → let (e', result) = stop env e in
      (result ≡ returns (stop_ctx_err env e))
      × (e'.started ≡ false)
      × (e'.stopped_channel ≡ true)
      × (elem e.shutdown_sync e'.shut_down ≡ true)
unfolding stop stop_ctx_err
stop_gives_up env e c r dead prefers = ground (
  arith,
  shutdown_engine-HandsOver env.shutdown none false (stopping e c),
  shutdown_engine-Keeps env.shutdown none false (stopping e c),
)

-- On a started engine whose channel already holds a signal, a Stop that performs the shutdown of
-- the session never returns: the shutdown blocks on its send.
pub stop_stale :
    (env : StopEnv) (e : Engine) (c : ℕ)
    → e.engine_ctx ≡ some c
    → e.engine_stop_func ≡ some c
    → e.started ≡ true
    → elem e.shutdown_sync e.shut_down ≡ false
    → e.stopped_channel ≡ true
    → (stop env e).1 ≡ blocks
unfolding stop
stop_stale env e c ctx stop_func started unclosed stale =
    ground (arith, shutdown_engine-HandsOver env.shutdown none false (stopping e c))

pub stop-canceled :
    (env : StopEnv) (e : Engine) (c : ℕ) → IsRunning e c → (stop env e).0.canceled ≡ c ∷ e.canceled
unfolding stop
stop-canceled env e c r =
    ground (arith, shutdown_engine-Keeps env.shutdown none false (stopping e c))
