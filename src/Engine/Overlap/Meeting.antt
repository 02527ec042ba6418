-- ===== src/Engine/Overlap/Meeting.antt =====
-- A Stop of wscengine/websocket_engine.go that begins while restartEngine waits for a startEngine
-- goroutine: the state in which both wait.
use gowsclient.Base.{ℕ, ◌≡◌, ◌==◌, refl, true, false, Option, none, some, ◌∷◌, List, elem, arith}
use gowsclient.Errors.{CloseError, as_close_error}
use gowsclient.Config.Delay.{Floats}
use gowsclient.Engine.State.{Engine, Session, Call, sleep, session_done}
use gowsclient.Engine.Shutdown.{ShutdownEnv, shutdown_engine}
use gowsclient.Engine.Stop.Laws.{IsRunning}
use gowsclient.Engine.Reader.{ReadEnv, end_read, read_failed, leave}
use gowsclient.Engine.Restart.{note_sleep, sleep_before}
use gowsclient.Engine.Overlap.{Overlap, waits, awaits, enter_stop, check, meet}

-- An engine in the middle of a restart: its session was shut down, no stop signal is in the channel,
-- and its context, which its stop function cancels, is live.
pub record IsRestarting (e : Engine) (c : ℕ) : Type 0 where
  pub ctx : e.engine_ctx ≡ some c
  pub stop_func : e.engine_stop_func ≡ some c
  pub started : e.started ≡ true
  pub closed : elem e.shutdown_sync e.shut_down ≡ true
  pub live : elem c e.canceled ≡ false
  pub empty : e.stopped_channel ≡ false

-- Such an engine is left by a reader of a running engine, with automatic reconnection, that reads a
-- close error in a session that was not canceled.
end_read-IsRestarting :
    (env : ReadEnv) (s : Session) (e : Engine) (c : ℕ) (ce : CloseError)
    → IsRunning e c
    → as_close_error env.err ≡ some ce
    → session_done e s ≡ false
    → s.shutdown_sync ≡ e.shutdown_sync
    → e.engine_cfg_opts.auto_reconnect ≡ true
    → elem c e.canceled ≡ false
    → (c == s.ctx) ≡ false
    → IsRestarting (end_read env s e).0 c
unfolding end_read read_failed leave shutdown_engine as_close_error
end_read-IsRestarting env s e c ce run ends live present auto up own =
    ground (arith, run.ctx, run.stop_func, run.started, run.unclosed, run.empty)

-- What Stop finds when the round has begun, after the calls `cs`.
abbrev pub blocked : Engine → ℕ → List Call → ℕ → Overlap
blocked e c cs k = record {
  engine = record e { calls = cs; canceled = c ∷ e.canceled; started = false };
  stopper = waits;
  restarter = awaits k;
  starter = true;
  startup = none;
  late = 0;
}

note_sleep-eq :
    (d : Option _) (e : Engine) → (cs : List Call) × (note_sleep d e ≡ record e { calls = cs })
note_sleep-eq none e = (e.calls, refl)
note_sleep-eq (some d) e = (sleep d ∷ e.calls, refl)

sleep_before-eq :
    (f : Floats) (k : ℕ) (e : Engine)
    → (cs : List Call) × (sleep_before f k e ≡ record e { calls = cs })
unfolding sleep_before
sleep_before-eq f k e = note_sleep-eq _ e

module _ (f : Floats) (env : ShutdownEnv) (e : Engine) (c k : ℕ) (r : IsRestarting e c) where
  pub check-eq :
      (cs : List Call) × (check f k (meet e k)
        ≡ record (meet (record e { calls = cs }) k) { restarter = awaits k; starter = true })
  unfolding check
  check-eq = let (cs, eq) = sleep_before-eq f k e in (cs, ground (arith, eq, r.ctx, r.live))

  pub enter_stop-eq : (cs : List Call) × (enter_stop env (check f k (meet e k)) ≡ blocked e c cs k)
  unfolding enter_stop
  enter_stop-eq =
      let (cs, eq) = check-eq in (cs, rw eq (ground (arith, r.stop_func, r.started, r.closed)))
