-- ===== src/Engine/Overlap/Endings.antt =====
-- How a Stop of wscengine/websocket_engine.go ends that begins while restartEngine waits for a
-- startEngine goroutine: by the timeout of the round, or because Stop gives up.
use gowsclient.Base.{
  ◌⊎◌, ℕ, ◌+◌, ◌≡◌, refl, ap, true, false, Option, none, elem, arith, is_at_least, subst,
}
use gowsclient.Errors.{deadline_exceeded, is_nil, Error, nil}
use gowsclient.Config.Delay.{Floats}
use gowsclient.Engine.State.{Engine, engine_done, receive_stopped}
use gowsclient.Engine.Shutdown.{ShutdownEnv}
use gowsclient.Engine.Start.Laws.{succeeds}
use gowsclient.Engine.Restart.{restarted, Attempt, exited}
use gowsclient.Engine.Overlap.{
  run_starter, answer_round, Overlap, waits, returned, checks, ended, stop_enters, stop_receives,
  stop_leaves, restart_checks, restart_receives, restart_times_out, starter_runs, Run, here, next,
  check, give_up_round, meet,
}
use gowsclient.Engine.Overlap.Meeting.{IsRestarting, blocked, check-eq, enter_stop-eq}

-- Once the engine context is canceled, the check of a round lets restartEngine and Stop end.
module _ (caller_err : Error) (f : Floats) (exit : Option ℕ) where
  finish :
      (m s : Overlap) (j : ℕ)
      → Run caller_err f exit m s
      → s.stopper ≡ waits
      → s.restarter ≡ checks j
      → engine_done s.engine ≡ true
      → s.engine.stopped_channel ≡ false
      → s.engine.started ≡ false
      → (u : Overlap) × Run caller_err f exit m u
        × (u.stopper ≡ returned nil)
        × (u.restarter ≡ ended exited)
        × (u.engine.started ≡ false)
        × (engine_done u.engine ≡ true)
  unfolding check receive_stopped
  finish m s j run at head done empty off =
      let sent : Overlap = record s {
        engine = record s.engine { stopped_channel = true };
        restarter = ended exited;
      } in
      (
        record sent { engine = receive_stopped sent.engine; stopper = returned nil },
        next (next run (restart_checks j head (ground arith))) (stop_receives at refl refl),
        refl,
        refl,
        off,
        ground arith,
      )

module _ (f : Floats) (exit : Option ℕ) (k : ℕ) where
  -- With a positive OnOpenTimeoutMs the round can be given up, and then Stop returns nil,
  -- restartEngine has exited, and the engine is not started and its context canceled.
  pub stop-restart_resolves :
      (env : ShutdownEnv) (a : Attempt) (caller_err : Error) (e : Engine) (c : ℕ)
      → IsRestarting e c
      → is_at_least 1 e.engine_cfg_opts.on_open_timeout_ms ≡ true
      → (u : Overlap) × Run caller_err f exit (meet e k) u
        × (u.stopper ≡ returned nil)
        × (u.restarter ≡ ended exited)
        × (u.engine.started ≡ false)
        × (engine_done u.engine ≡ true)
  unfolding check give_up_round
  stop-restart_resolves env a caller_err e c r on =
      let (cs, eq) = enter_stop-eq f env e c k r in
      let met = subst (Run caller_err f exit (meet e k)) eq (
        next (next here (restart_checks k refl refl))
          (stop_enters env (ap Overlap.stopper (check-eq f env e c k r).1) refl)) in
      finish caller_err f exit (meet e k) (give_up_round a k (blocked e c cs k)) (k + 1)
        (next met (restart_times_out a k refl on refl)) refl refl
        (ground (arith, r.ctx, r.stop_func)) (ground (arith, r.empty)) (ground arith)

  -- A Stop that gives up on its wait lets the startEngine goroutine go on: if its dial and OnOpen
  -- succeed, the engine is started after Stop has returned, with a canceled engine context.
  pub stop_gives_up-restarts :
      (env : ShutdownEnv) (a : Attempt) (caller_err err : Error) (e : Engine) (c : ℕ)
      → IsRestarting e c
      → is_nil err ≡ false
      → (err ≡ caller_err)
        ⊎ (err ≡ deadline_exceeded) × (is_at_least 1 e.engine_cfg_opts.stop_timeout_ms ≡ true)
      → succeeds a.run true e ≡ true
      → (u : Overlap) × Run caller_err f exit (meet e k) u
        × (u.stopper ≡ returned err)
        × (u.restarter ≡ ended restarted)
        × (u.engine.started ≡ true)
        × (elem c u.engine.canceled ≡ true)
  unfolding run_starter answer_round
  stop_gives_up-restarts env a caller_err err e c r bad why ok =
      let (cs, eq) = enter_stop-eq f env e c k r in
      let met : Run caller_err f exit (meet e k) (blocked e c cs k) =
        subst (Run caller_err f exit (meet e k)) eq (
          next (next here (restart_checks k refl refl))
            (stop_enters env (ap Overlap.stopper (check-eq f env e c k r).1) refl)) in
      let gone = record (blocked e c cs k) { stopper = returned err } in
      let ran = run_starter a.run exit gone in
      (
        record ran { restarter = ended restarted; startup = none },
        next
            (next (next met (stop_leaves err refl bad why refl))
              (starter_runs a.run refl refl refl))
            (restart_receives a nil k refl (ground arith) (ground arith)),
        refl,
        refl,
        ground arith,
        ground arith,
      )
