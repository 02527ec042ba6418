-- ===== src/Engine/Cycles.antt =====
-- An engine of wscengine/websocket_engine.go that is started and stopped again and again.
use gowsclient.Base.{
  ◌++◌, ap, ℕ, suc, ◌+◌, ◌≡◌, refl, ◌∙◌, Bool, true, false, ◌&&◌, none, List, [], ◌∷◌, All,
  elem_fresh, length, arith,
}
use gowsclient.Errors.{is_nil}
use gowsclient.Engine.State.{Engine, Call}
use gowsclient.Engine.Shutdown.{ShutdownEnv}
use gowsclient.Engine.Calls.{count, is_on_open, is_on_close}
use gowsclient.Engine.Shutdown.Laws.{shutdown_engine-HandsOver, shutdown_calls}
use gowsclient.Engine.Stop.{StopEnv, stop, stop_ctx_err, Outcome, returns, blocks}
use gowsclient.Engine.Stop.Laws.{IsRunning, stop_running, stopping}
use gowsclient.Engine.Start.{StartCall, start, start_engine, renew_ctx}
use gowsclient.Engine.Hazards.{Launches, start-Launches}
use gowsclient.Engine.Invariant.Defs.{IsSound}
use gowsclient.Engine.Invariant.Stops.{stop-Advances}
use gowsclient.Engine.Invariant.Starts.{start-Advances}
pub mod Connections
pub mod Exits

-- An engine that can be started: it is not, and no stop signal is left over.
pub record IsIdle (e : Engine) : Type 0 where
  pub sound : IsSound e
  pub off : e.started ≡ false
  pub empty : e.stopped_channel ≡ false
  pub unblocked : e.blocked_senders ≡ 0

abbrev pub is_nil_result : Outcome → Bool
is_nil_result (returns err) = is_nil err
is_nil_result blocks = false

-- Start and then Stop, in turn; the Boolean tells whether all of them have returned nil.
unfoldable pub run_cycles : List (StartCall × StopEnv) → Engine → Engine × Bool
run_cycles [] e = (e, true)
run_cycles ((call, env) ∷ rest) e =
    let (up, err) = start call e in
    let (down, result) = stop env up in
    let (last, ok) = run_cycles rest down in (last, is_nil err && is_nil_result result && ok)

-- Nothing fails or gives up; the answers to the shutdown are any.
abbrev pub IsSmooth : StartCall × StopEnv → Type 0
IsSmooth (call, env) =
    (is_nil call.caller_err ≡ true)
    × (call.gives_up ≡ false)
    × ((is_nil call.run.entry_err
          && is_nil call.run.dialed_err
          && is_nil call.run.dial_err
          && is_nil call.run.open_err)
        ≡ true)
    × (is_nil env.caller_err ≡ true)
    × (env.timed_out ≡ false)

pub start_smooth :
    (call : StartCall) (env : StopEnv) (e : Engine)
    → e.started ≡ false
    → IsSmooth (call, env)
    → (is_nil (start call e).1 ≡ true)
      × ((start call e).0.blocked_senders ≡ e.blocked_senders)
      × (count is_on_open (start call e).0.calls ≡ suc (count is_on_open e.calls))
      × (count is_on_close (start call e).0.calls ≡ count is_on_close e.calls)
unfolding start start_engine renew_ctx
start_smooth call env e off h = ground arith

pub start-IsRunning :
    (e e' : Engine) → IsSound e → e.stopped_channel ≡ false → Launches e e' → IsRunning e' e.next
start-IsRunning e e' sound empty l = record {
  ctx = l.ctx;
  stop_func = l.stop_func;
  started = l.started;
  unclosed =
      rw (l.shutdown_sync, l.shut_down)
        (elem_fresh e.next (e.next + 1 + 1) e.shut_down sound.shut_old (omega arith));
  empty = l.stopped_channel ∙ empty;
}

stop_unblocked :
    (env : StopEnv) (e : Engine) (c : ℕ)
    → IsRunning e c
    → e.blocked_senders ≡ 0
    → (stop env e).0.blocked_senders ≡ 0
unfolding stop
stop_unblocked env e c r b =
    ground (arith, shutdown_engine-HandsOver env.shutdown none false (stopping e c))

counts-shutdown_calls :
    (env : ShutdownEnv) (cs : List Call)
    → (count is_on_open (shutdown_calls env none false ++ cs) ≡ count is_on_open cs)
      × (count is_on_close (shutdown_calls env none false ++ cs) ≡ suc (count is_on_close cs))
counts-shutdown_calls env cs = ground arith

-- What one cycle does.
record Cycles (e e' : Engine) : Type 0 where
  idle : IsIdle e'
  opens : count is_on_open e'.calls ≡ suc (count is_on_open e.calls)
  closes : count is_on_close e'.calls ≡ suc (count is_on_close e.calls)

one_cycle :
    (call : StartCall) (env : StopEnv) (e : Engine)
    → IsIdle e
    → IsSmooth (call, env)
    → let (down, result) = stop env (start call e).0 in
      (is_nil (start call e).1 ≡ true) × (is_nil_result result ≡ true) × Cycles e down
unfolding stop_ctx_err
one_cycle call env e i h =
    let up = (start call e).0 in
    let started = start_smooth call env e i.off h in
    let launched = start-Launches call e h.0 (ground (arith, h.2)) in
    let run = start-IsRunning e up i.sound i.empty launched in
    let stopped =
      stop_running env up e.next run (started.1 ∙ i.unblocked) (ground (arith, h.3, h.4)) in
    let counts = counts-shutdown_calls env.shutdown up.calls in
    (
      started.0,
      rw stopped.0 refl,
      record {
        idle = record {
          sound = (stop-Advances env (start-Advances call i.sound).sound).sound;
          off = stopped.1;
          empty = stopped.6;
          unblocked = stop_unblocked env up e.next run (started.1 ∙ i.unblocked);
        };
        opens = ap (count is_on_open) stopped.4 ∙ (counts.0 ∙ started.2);
        closes = ap (count is_on_close) stopped.4 ∙ (counts.1 ∙ ap suc started.3);
      },
    )

-- An engine can be started and stopped any number of times: on an engine that is not started and
-- holds no stop signal, each Start that is not disturbed returns nil and so does each Stop in time,
-- whatever its shutdown meets. Each cycle calls OnOpen once and OnClose once, and leaves an engine
-- that can be started again.
pub run_cycles-Cycles :
    (cycles : List (StartCall × StopEnv)) (e : Engine)
    → IsIdle e
    → All IsSmooth cycles
    → let (e', ok) = run_cycles cycles e in
      (ok ≡ true)
      × IsIdle e'
      × (count is_on_open e'.calls ≡ length cycles + count is_on_open e.calls)
      × (count is_on_close e'.calls ≡ length cycles + count is_on_close e.calls)
unfolding run_cycles
run_cycles-Cycles [] e i h = (refl, i, omega arith, omega arith)
run_cycles-Cycles ((call, env) ∷ rest) e i h =
    let one = one_cycle call env e i h.0 in
    let later = run_cycles-Cycles rest (stop env (start call e).0).0 one.2.idle h.1 in
    (
      ground (arith, one.0, one.1, later.0),
      later.1,
      omega (arith, later.2, one.2.opens),
      omega (arith, later.3, one.2.closes),
    )
