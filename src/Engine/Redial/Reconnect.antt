-- ===== src/Engine/Redial/Reconnect.antt =====
-- A close error of conn.Read in wscengine/websocket_engine.go, and the restart that follows it, over
-- any connection adapter.
use gowsclient.Base.{ℕ, suc, ◌==◌, ◌≡◌, refl, true, false, Option, some, List, [], ◌∷◌, elem, arith}
use gowsclient.Errors.{Error, CloseError, nil, as_close_error}
use gowsclient.Adapters.Interface.{ConnectionAdapter}
use gowsclient.Config.Delay.{Floats}
use gowsclient.Engine.State.{Engine, Session, session_done}
use gowsclient.Engine.Shutdown.{ShutdownEnv, shutdown_engine}
use gowsclient.Engine.Reader.{Signals, ReadEnv, exited, end_read, read_failed, leave}
use gowsclient.Engine.Restart.{Attempt, restarted, restart_engine}
use gowsclient.Engine.Restart.Success.{IsCalm, opens_engine, restart_engine-succeeds}
use gowsclient.Engine.Redial.{dialing, after_start, over_adapter}

module _ {W Url Response : Type 0} (a : ConnectionAdapter W Url Response) (url : Url) where
  -- The read of a reader, which hands the background context to the adapter.
  abbrev pub read_answer : Signals → ShutdownEnv → W → ReadEnv
  read_answer sg env w =
      let r = (a.read nil w).1 in
      record { msg_type = r.msg_type; msg = r.msg; err = r.err; signals = sg; shutdown = env }

  closed_by_peer :
      (sg : Signals) (env : ShutdownEnv) (s : Session) (e : Engine) (k : ℕ) (ce : CloseError)
      (w : W)
      → as_close_error (a.read nil w).1.err ≡ some ce
      → session_done e s ≡ false
      → elem s.shutdown_sync e.shut_down ≡ false
      → e.engine_cfg_opts.auto_reconnect ≡ true
      → e.engine_ctx ≡ some k
      → elem k e.canceled ≡ false
      → (k == s.ctx) ≡ false
      → let (e', pc) = end_read (read_answer sg env w) s e in
        (pc ≡ exited)
        × (e'.restarts ≡ suc e.restarts)
        × (e'.engine_ctx ≡ some k)
        × (elem k e'.canceled ≡ false)
  unfolding end_read read_failed leave shutdown_engine as_close_error
  closed_by_peer sg env s e k ce w close live new auto ctx up other = ground arith

  -- When the server closes the connection of an engine that may reconnect and whose session is live
  -- and was not shut down yet, the reader that reads the close error exits, one restartEngine is
  -- started, and the adapter has no connection any more. If the next dial and OnOpen succeed, and
  -- meanwhile nobody stops the engine and the round is not given up, restartEngine ends with its
  -- first round, and the engine is started with a connection set in the adapter. (The session has a
  -- context of its own.)
  pub end_read-restart_engine :
      (f : Floats) (exit : Option ℕ) (sg : Signals) (env : ShutdownEnv) (s : Session) (e : Engine)
      (k : ℕ) (ce : CloseError) (w : W) (ctx : Error) (b : Attempt) (rest : List (Error × Attempt))
      → as_close_error (a.read nil w).1.err ≡ some ce
      → session_done e s ≡ false
      → elem s.shutdown_sync e.shut_down ≡ false
      → e.engine_cfg_opts.auto_reconnect ≡ true
      → e.engine_ctx ≡ some k
      → elem k e.canceled ≡ false
      → (k == s.ctx) ≡ false
      → IsCalm b
      → opens_engine (record b { run = dialing a url ctx b.run (a.read nil w).0 }) ≡ true
      → let (e', pc) = end_read (read_answer sg env w) s e in
        let w' = (a.read nil w).0 in
        let (up, result) = restart_engine f exit 0 (over_adapter a url ((ctx, b) ∷ rest) w') e' in
        (pc ≡ exited)
        × (e'.restarts ≡ suc e.restarts)
        × (a.connected w' ≡ false)
        × (result ≡ restarted)
        × (up.started ≡ true)
        × (a.connected (after_start a url ctx b.run w') ≡ true)
  unfolding over_adapter after_start as_close_error
  end_read-restart_engine f exit sg env s e k ce w ctx b rest close live new auto at up other calm
        ok =
      let w' = (a.read nil w).0 in
      let closed = closed_by_peer sg env s e k ce w close live new auto at up other in
      let e' = (end_read (read_answer sg env w) s e).0 in
      let back =
        restart_engine-succeeds f exit 0 k [] (record b { run = dialing a url ctx b.run w' })
          (over_adapter a url rest (after_start a url ctx b.run w')) e' closed.2 closed.3 tt calm
          ok in
      (
        closed.0,
        closed.1,
        a.read_drops nil w refl (ground (arith, close)),
        back.0,
        back.1,
        ground (arith, a.dial_succeeds ctx url w', ok),
      )
