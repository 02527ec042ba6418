-- ===== src/Example/Timeout.antt =====
-- The OnStart hook of example/client/providers/provide_websocket_client_engine.go after a Start whose
-- OnOpenTimeoutMs has passed.
use gowsclient.Base.{
  ℕ, ◌+◌, ◌≤◌, ◌≡◌, ◌⊎◌, inl, inr, refl, ◌∙◌, true, false, some, List, [], ◌∷◌, ◌++◌, All,
  replicate, elem_fresh, is_at_least, arith,
}
use gowsclient.Errors.{nil, is_nil}
use gowsclient.Engine.State.{Engine, session_done}
use gowsclient.Engine.Stop.{StopEnv, stop_ctx_err, returns}
use gowsclient.Engine.Stop.Laws.{IsRunning, stop_running, stop-canceled}
use gowsclient.Engine.Start.{StartCall, start, start_engine, renew_ctx, routines}
use gowsclient.Engine.Start.Laws.{succeeds}
use gowsclient.Engine.Cycles.{IsIdle}
use gowsclient.Engine.Cycles.Exits.{opened_session}
use gowsclient.Example.StartHook.{hook_waits, on_start_loop}
use gowsclient.Example.Hooks.{start_attempts, on_start_hook, on_stop_hook}

-- Start gives up because its deadline has passed, and its startEngine goroutine succeeds.
abbrev pub IsTimedOut : Engine → StartCall → Type 0
IsTimedOut e call =
    (is_nil call.caller_err ≡ true)
    × (call.gives_up ≡ true)
    × (is_nil call.waiting_err ≡ true)
    × (is_at_least 1 e.engine_cfg_opts.on_open_timeout_ms ≡ true)
    × (succeeds call.run false e ≡ true)
    × (call.run.open_exits ≡ false)

-- A later call of the same hook: its context does not end between the first check of Start and that
-- of startEngine.
abbrev pub IsSteady : StartCall → Type 0
IsSteady call = (is_nil call.caller_err ≡ false) ⊎ (is_nil call.run.entry_err ≡ true)

-- The engine runs the session that was opened on `e`, and its context is `c`.
record Runs (e : Engine) (c : ℕ) (up : Engine) : Type 0 where
  ctx : up.engine_ctx ≡ some c
  stop_func : up.engine_stop_func ≡ some c
  started : up.started ≡ true
  shutdown_sync : up.shutdown_sync ≡ e.next + 1 + 1
  shut_down : up.shut_down ≡ e.shut_down
  stopped_channel : up.stopped_channel ≡ e.stopped_channel
  blocked : up.blocked_senders ≡ e.blocked_senders
  canceled : up.canceled ≡ e.canceled
  opts : up.engine_cfg_opts ≡ e.engine_cfg_opts
  readers :
      up.readers
      ≡ replicate (routines e.engine_cfg_opts.reader_routines_count) (opened_session e) ++ e.readers
  next : e.next + 1 + 1 + 1 ≤ up.next

start_timed_out :
    (call : StartCall) (e : Engine)
    → e.started ≡ false
    → IsTimedOut e call
    → let (up, err) = start call e in (is_nil err ≡ false) × Runs e e.next up
unfolding start start_engine renew_ctx
start_timed_out call e off h = ground arith

start_again :
    (call : StartCall) (e : Engine) (c : ℕ) (up : Engine)
    → Runs e c up
    → IsSteady call
    → let (up', err) = start call up in (is_nil err ≡ false) × Runs e up.next up'
unfolding start start_engine renew_ctx
start_again call e c up r (inl ended) = ground (arith, r.started, r.next)
start_again call e c up r (inr live) = ground (arith, r.started, r.next)

-- The later calls are refused, each with a new engine context, and the loop goes on.
start_attempts_again :
    (call : StartCall) (calls : List StartCall) (e : Engine) (c : ℕ) (up : Engine)
    → Runs e c up
    → All IsSteady (call ∷ calls)
    → let (up', result) = start_attempts 0 (call ∷ calls) up in
      (result ≡ hook_waits) × ((d : ℕ) × (e.next + 1 + 1 + 1 ≤ d) × Runs e d up')
unfolding start_attempts on_start_loop
start_attempts_again call [] e c up r h =
    let again = start_again call e c up r h.0 in rw again.0 (refl, (up.next, r.next, again.1))
start_attempts_again call (later ∷ calls) e c up r h =
    let again = start_again call e c up r h.0 in
    rw again.0 (start_attempts_again later calls e up.next (start call up).0 again.1 h.1)

-- The engine is one that Stop can stop, but its context is not the parent of the session.
Runs-IsRunning : (e : Engine) (c : ℕ) (up : Engine) → IsIdle e → Runs e c up → IsRunning up c
Runs-IsRunning e c up i r = record {
  ctx = r.ctx;
  stop_func = r.stop_func;
  started = r.started;
  unclosed =
      rw (r.shutdown_sync, r.shut_down)
        (elem_fresh e.next (e.next + 1 + 1) e.shut_down i.sound.shut_old (omega arith));
  empty = r.stopped_channel ∙ i.empty;
}

-- On an engine that is not started and holds no stop signal: a Start of OnStart times out, and its
-- startEngine goroutine goes on to succeed, with an OnOpen that does not call exit. Each later Start
-- of the hook, whose context does not end between the first check of Start and that of startEngine,
-- then fails, so that OnStart goes on with its loop, although the engine has started and its readers
-- run. A Stop in time then returns nil, and the session of these readers is not done.
pub on_start_hook_times_out :
    (timed_out call : StartCall) (calls : List StartCall) (env : StopEnv) (e : Engine)
    → IsIdle e
    → IsTimedOut e timed_out
    → All IsSteady (call ∷ calls)
    → is_nil (stop_ctx_err env e) ≡ true
    → let (up, result) = on_start_hook (timed_out ∷ call ∷ calls) e in
      let (down, stopped) = on_stop_hook env up in
      (result ≡ hook_waits)
      × (up.started ≡ true)
      × (up.readers
          ≡ replicate (routines e.engine_cfg_opts.reader_routines_count) (opened_session e)
            ++ e.readers)
      × (stopped ≡ returns nil)
      × (session_done down (opened_session e) ≡ false)
unfolding start_attempts stop_ctx_err
on_start_hook_times_out timed_out call calls env e i h steady in_time =
    let first = start_timed_out timed_out e i.off h in
    let (waits, (c, late, r)) =
      start_attempts_again call calls e e.next (start timed_out e).0 first.1 steady in
    let up = (start_attempts 0 (call ∷ calls) (start timed_out e).0).0 in
    let run = Runs-IsRunning e c up i r in
    let stopped =
      stop_running env up c run (r.blocked ∙ i.unblocked) (ground (arith, r.opts, in_time)) in
    rw first.0 (
      waits,
      r.started,
      r.readers,
      stopped.0,
      rw (stop-canceled env up c run, r.canceled)
          (ground (
            arith,
            late,
            elem_fresh e.next (e.next + 1) e.canceled i.sound.canceled_old (omega arith),
            elem_fresh e.next e.next e.canceled i.sound.canceled_old (omega arith),
          )),
    )
