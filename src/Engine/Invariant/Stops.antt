-- ===== src/Engine/Invariant/Stops.antt =====
-- Stop of wscengine/websocket_engine.go keeps the invariant.
use gowsclient.Base.{ℕ, ◌≡◌, refl, Bool, true, false, none, some, Option, ◌∙◌, arith, if_cases}
use gowsclient.Engine.State.{Engine, cancel}
use gowsclient.Engine.Stop.{StopEnv, Outcome, stop, wait_stopped, after_shutdown}
use gowsclient.Engine.Invariant.Defs.{IsSound, Agrees, Advances, Advances-trans, Agrees-Advances}
use gowsclient.Engine.Invariant.Steps.{same, cancel-Advances, once_do-Advances}

wait_stopped-Agrees : (env : StopEnv) (e : Engine) → Agrees e (wait_stopped env e).0
unfolding wait_stopped
wait_stopped-Agrees env e = ground arith

unset : (e : Engine) → Agrees e (record e { started = false })
unset e = record {
  canceled = refl;
  shut_down = refl;
  readers = refl;
  next = refl;
  shutdown_sync = refl;
  ctx = refl;
  stop_func = refl;
  started = λ s. cc;
  once = refl;
}

after_shutdown-Advances :
    (env : StopEnv) (r : Engine × Bool) → IsSound r.0 → Advances r.0 (after_shutdown env r).0
unfolding after_shutdown
after_shutdown-Advances env (e, true) h =
    let first = Agrees-Advances h (unset e) in
    Advances-trans first (Agrees-Advances first.sound (wait_stopped-Agrees env _))
after_shutdown-Advances env (e, false) h = same h

cancel-started : (c : Option ℕ) (e : Engine) → (cancel c e).started ≡ e.started
cancel-started none e = refl
cancel-started (some c) e = refl

-- Stop keeps the invariant.
pub stop-Advances : (env : StopEnv) {e : Engine} → IsSound e → Advances e (stop env e).0
unfolding stop
stop-Advances env {e} h =
    if_cases (λ (r : Engine × Outcome). Advances e r.0) (e.started)
      (λ on.
        let first = cancel-Advances e.engine_stop_func h h.stop_old in
        let second =
          once_do-Advances (cancel e.engine_stop_func e).shutdown_sync env.shutdown none false
            first.sound first.sound.sync_old
            (first.sound.current (cancel-started e.engine_stop_func e ∙ on)) in
        let both = Advances-trans first second in
        Advances-trans both (after_shutdown-Advances env _ both.sound))
      (λ off. same h)
