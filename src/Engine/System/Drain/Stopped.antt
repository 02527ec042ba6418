-- ===== src/Engine/System/Drain/Stopped.antt =====
-- The readers of an engine of wscengine/websocket_engine.go after Stop.
use gowsclient.Base.{
  ℕ, ◌*◌, ◌-◌, ◌≤◌, ◌≡◌, ◌⊎◌, inl, inr, refl, sym, ap, subst, true, false, none, some, List, [],
  ◌∷◌, ◌++◌, map, take, length, All, All-map, elem, arith,
}
use gowsclient.Errors.{nil, is_nil}
use gowsclient.Config.{WebsocketEngineConfigurationOptions}
use gowsclient.Engine.State.{Engine, Call}
use gowsclient.Engine.Shutdown.{ShutdownEnv}
use gowsclient.Engine.Shutdown.Laws.{shutdown_calls, shutdown_engine-Keeps}
use gowsclient.Engine.Stop.{StopEnv, stop, stop_ctx_err, returns}
use gowsclient.Engine.Stop.Laws.{IsRunning, stop_running, stop-canceled, stopping}
use gowsclient.Engine.Invariant.Defs.{Grows}
use gowsclient.Engine.System.{Thread, System, with_engine, thread_of, Reach, stops}
use gowsclient.Engine.System.Invariant.{Reach-Inv, Step-Inv, ThreadHasLeft}
use gowsclient.Engine.System.Growth.{Step-Grows}
use gowsclient.Engine.System.Drain.{total_left, IsOver, IsOver-mono, Run, Draining, Run-total_left}
use gowsclient.Engine.System.Drain.Progress.{
  is_closed, ReadersRun, here, IsFree, is_user, HasExited, drain,
}

readers-stop :
    (env : StopEnv) (e : Engine) (c : ℕ) → IsRunning e c → (stop env e).0.readers ≡ e.readers
unfolding stop
readers-stop env e c run = ground (
  arith,
  shutdown_engine-Keeps env.shutdown none false (stopping e c),
  run.started,
  run.stop_func,
  run.unclosed,
)

threads-stop :
    (env : StopEnv) (s : System) (c : ℕ)
    → IsRunning s.engine c
    → (with_engine s (stop env s.engine).0).threads ≡ s.threads
threads-stop env s c run =
    ap (λ n. map thread_of (take n (stop env s.engine).0.readers) ++ s.threads) nothing
  where
    nothing : length (stop env s.engine).0.readers - length s.engine.readers ≡ 0
    nothing = rw (readers-stop env s.engine c run) (omega arith)

-- A reader of the present session, which has the context `c` of the engine as its parent.
abbrev pub IsCurrent : Engine → ℕ → Thread → Type 0
IsCurrent e c th = (th.session.parent ≡ some c) × (th.session.shutdown_sync ≡ e.shutdown_sync)

-- A reader of the present session, or of one that is over, in which it is not blocked.
abbrev pub CanEnd : Engine → ℕ → Thread → Type 0
CanEnd e c th = IsCurrent e c th ⊎ IsOver e th × IsFree th

total_left-le : (ths : List Thread) → total_left ths ≤ 2 * length ths
total_left-le [] = omega arith
total_left-le (th ∷ ths) = ground (arith, total_left-le ths)

module _ (e : Engine) (c : ℕ) (run : IsRunning e c) where
  CanEnd-IsFree : (th : Thread) → ThreadHasLeft e th → CanEnd e c th → IsFree th
  CanEnd-IsFree th left (inl current) = ground (arith, left, current, run.unclosed)
  CanEnd-IsFree th left (inr (over, unstuck)) = unstuck

  all-IsFree :
      (ths : List Thread) → All (ThreadHasLeft e) ths → All (CanEnd e c) ths → All IsFree ths
  all-IsFree [] left ends = tt
  all-IsFree (th ∷ ths) left ends = (CanEnd-IsFree th left.0 ends.0, all-IsFree ths left.1 ends.1)

  CanEnd-IsOver :
      (env : StopEnv) (th : Thread)
      → Grows e (stop env e).0
      → (stop env e).0.canceled ≡ c ∷ e.canceled
      → elem e.shutdown_sync (stop env e).0.shut_down ≡ true
      → CanEnd e c th
      → IsOver (stop env e).0 th
  CanEnd-IsOver env th grows gone shut (inl (parent, once)) =
      (rw (parent, gone) (ground arith), rw once shut)
  CanEnd-IsOver env th grows gone shut (inr (over, unstuck)) = IsOver-mono th grows over

is_closed-shutdown_calls :
    (env : ShutdownEnv) (calls : List Call)
    → is_closed (shutdown_calls env none false ++ calls) ≡ true
is_closed-shutdown_calls env calls = ground arith

-- Stop leaves no goroutine behind: after a Stop in time of a running engine that holds no stop signal,
-- whose present session was not shut down, and whose readers are of that session or of one that is
-- over and in which they are not blocked, and while the user does not hold the read mutex, the readers
-- can all reach their end by steps of their own, in which conn.Read returns only because the engine
-- has called conn.Close since it dialed last. Whatever else runs between, and whatever conn.Read
-- returns, the readers take no more than two steps each.
pub stop-HasExited :
    {opts : WebsocketEngineConfigurationOptions} {s : System} (env : StopEnv) (c : ℕ)
    → Reach opts s
    → IsRunning s.engine c
    → s.engine.blocked_senders ≡ 0
    → is_nil (stop_ctx_err env s.engine) ≡ true
    → All (CanEnd s.engine c) s.threads
    → is_user s.read_mutex ≡ false
    → let (e', result) = stop env s.engine in
      let s' = with_engine s e' in
      (result ≡ returns nil)
      × ((t : System) × ReadersRun s' t × All HasExited t.threads)
      × ((m : ℕ) (t : System) → Run s' m t → m ≤ 2 * length s.threads)
stop-HasExited {opts} {s} env c r run idle in_time ends unpaused =
    let inv = Reach-Inv r in
    let e' = (stop env s.engine).0 in
    let s' = with_engine s e' in
    let stopped = stop_running env s.engine c run idle in_time in
    let same = threads-stop env s c run in
    let grows = Step-Grows (stops env refl) inv in
    let d : Draining s' = record {
      inv = Step-Inv (stops env refl) inv;
      over = subst (All (IsOver e')) (sym same) (
          All-map s.threads
            (λ th k.
              CanEnd-IsOver s.engine c run env th grows (stop-canceled env s.engine c run) stopped.3
                k)
            ends);
    } in
    (
      stopped.0,
      drain (total_left s'.threads) s' s' here d
          (subst (All IsFree) (sym same) (all-IsFree s.engine c run s.threads inv.left ends))
          unpaused (rw stopped.4 (is_closed-shutdown_calls env.shutdown s.engine.calls)) refl,
      λ m t ran.
          omega (
            arith,
            (Run-total_left ran d.inv d.over).0,
            ap total_left same,
            total_left-le s.threads,
          ),
    )
