-- ===== src/Engine/Kept.antt =====
-- A proof rule over the functions of wscengine/websocket_engine.go: a relation between states that
-- holds for their parts holds for whole calls of Stop, of restartEngine and of the readers' parts.
use gowsclient.Base.{
  ℕ, ◌+◌, ℤ, Bool, true, false, Option, none, some, List, [], ◌∷◌, if_cases, if◌then◌else◌,
}
use gowsclient.Errors.{Error, is_nil}
use gowsclient.Config.Delay.{Floats}
use gowsclient.Engine.State.{
  Engine, Session, CloseMessageDetails, sleep, on_restart_error, note, once_do, cancel, engine_done,
  send_stopped,
}
use gowsclient.Engine.Shutdown.{ShutdownEnv, shutdown_engine}
use gowsclient.Engine.Stop.{StopEnv, Outcome, stop, after_shutdown}
use gowsclient.Engine.Start.{StartEnv, start_engine}
use gowsclient.Engine.Restart.{
  Attempt, RestartResult, note_sleep, sleep_before, stopped_before, try_restart, restart_failed,
  restart_engine,
}
use gowsclient.Engine.Reader.{Signals, signal, leave}

-- What the relation has to show.
pub record IsKept (R : Engine → Engine → Type 0) : Type 0 where
  pub same : (e : Engine) → R e e
  pub then_on : {a b c : Engine} → R a b → R b c → R a c
  pub cancels : (c : ℕ) (e : Engine) → R e (cancel (some c) e)
  pub shuts :
      (once : ℕ) (env : ShutdownEnv) (msg : Option CloseMessageDetails) (skip : Bool) (e : Engine)
      → R e (once_do once (shutdown_engine env msg skip) e).0
  pub waits : (env : StopEnv) (r : Engine × Bool) → R r.0 (after_shutdown env r).0
  pub starts :
      (env : StartEnv) (restart : Bool) (exit : Option ℕ) (e : Engine)
      → R e (start_engine env restart exit e).0
  pub sleeps : (d : ℤ) (e : Engine) → R e (note (sleep d) e)
  pub fails : (err : Error) (k : ℕ) (e : Engine) → R e (note (on_restart_error err k) e)
  pub sends : (e : Engine) → R e (send_stopped e).0

module _ {R : Engine → Engine → Type 0} (k : IsKept R) where
  pub cancel-IsKept : (c : Option ℕ) (e : Engine) → R e (cancel c e)
  cancel-IsKept none e = k.same e
  cancel-IsKept (some c) e = k.cancels c e

  pub signal-IsKept :
      (sg : Signals) (s : Session) (exit : Option ℕ) (e : Engine) → R e (signal sg s exit e)
  signal-IsKept sg s exit e =
      if_cases (R e) sg.exits (λ t. k.then_on first (cancel-IsKept exit _)) (λ t. first)
    where
      first : R e (if sg.restarts then cancel (some s.ctx) e else e)
      first = if_cases (R e) sg.restarts (λ t. k.cancels s.ctx e) (λ t. k.same e)

  pub leave-IsKept :
      (env : ShutdownEnv) (msg : Option CloseMessageDetails) (skip : Bool) (s : Session)
      (e : Engine)
      → R e (leave env msg skip s e).0
  unfolding leave
  leave-IsKept env msg skip s e = k.shuts s.shutdown_sync env msg skip e

  pub stop-IsKept : (env : StopEnv) (e : Engine) → R e (stop env e).0
  unfolding stop
  stop-IsKept env e =
      let stopping = cancel e.engine_stop_func e in
      let shut = k.shuts stopping.shutdown_sync env.shutdown none false stopping in
      if_cases (λ (r : Engine × Outcome). R e r.0) e.started
        (λ on. k.then_on (cancel-IsKept e.engine_stop_func e) (k.then_on shut (k.waits env _)))
        (λ off. k.same e)

  note_sleep-IsKept : (d : Option ℤ) (e : Engine) → R e (note_sleep d e)
  note_sleep-IsKept none e = k.same e
  note_sleep-IsKept (some d) e = k.sleeps d e

  try_restart-IsKept :
      (f : Floats) (exit : Option ℕ) (n : ℕ) (a : Attempt) (e : Engine)
      → R e (try_restart f exit n a e).0
  unfolding try_restart sleep_before
  try_restart-IsKept f exit n a e = k.then_on (note_sleep-IsKept _ e) (k.starts a.run true exit _)

  restart_failed-IsKept :
      (a : Attempt) (err : Error) (n : ℕ) (e : Engine) → R e (restart_failed a err n e)
  unfolding restart_failed
  restart_failed-IsKept a err n e =
      let called = note (on_restart_error err n) e in
      if_cases (R e) a.exits
        (λ t. k.then_on (k.fails err n e) (cancel-IsKept called.engine_stop_func called))
        (λ t. k.fails err n e)

  pub restart_engine-IsKept :
      (f : Floats) (exit : Option ℕ) (n : ℕ) (rounds : List Attempt) (e : Engine)
      → R e (restart_engine f exit n rounds e).0
  unfolding restart_engine
  restart_engine-IsKept f exit n [] e = k.same e
  restart_engine-IsKept f exit n (a ∷ rest) e =
      let now = stopped_before a e in
      let (tried, err) = try_restart f exit n a now in
      let before : R e now =
        if_cases (R e) a.stopped (λ t. cancel-IsKept e.engine_stop_func e) (λ t. k.same e) in
      let during = k.then_on before (try_restart-IsKept f exit n a now) in
      let failed = k.then_on during (restart_failed-IsKept a err n tried) in
      let again = restart_engine-IsKept f exit (n + 1) rest (restart_failed a err n tried) in
      if_cases (λ (r : Engine × RestartResult). R e r.0) (engine_done now)
        (λ done. k.then_on before (k.sends now))
        (λ live.
          if_cases (λ (r : Engine × RestartResult). R e r.0) (is_nil err) (λ ok. during)
            (λ bad. k.then_on failed again))
