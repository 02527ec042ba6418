-- ===== src/Engine/Invariant/Starts.antt =====
-- Start, startEngine and restartEngine of wscengine/websocket_engine.go keep the invariant.
use gowsclient.Base.{
  ℕ, ◌+◌, refl, Bool, true, false, Option, none, some, List, [], ◌∷◌, ℤ, arith, if_cases,
  Below-mono, All-map, if◌then◌else◌, not, ◌||◌,
}
use gowsclient.Errors.{Error, is_nil}
use gowsclient.Config.Delay.{Floats}
use gowsclient.Engine.State.{
  Engine, dial, on_open, on_restart_error, sleep, note, cancel, send_stopped, engine_done,
}
use gowsclient.Engine.Start.{StartEnv, StartCall, open_session, start_engine, renew_ctx, start}
use gowsclient.Engine.Restart.{
  Attempt, RestartResult, note_sleep, sleep_before, stopped_before, try_restart, restart_failed,
  restart_engine,
}
use gowsclient.Engine.Invariant.Defs.{
  IsOld, IsOld-mono, IsOldSession-mono, IsSound, Agrees, Advances, Advances-trans, Agrees-Advances,
}
use gowsclient.Engine.Invariant.Steps.{same, cancel-Advances, note-Advances, launch-Advances}

open_session-Advances :
    (env : StartEnv) (restart : Bool) (exit : Option ℕ) {e : Engine}
    → IsSound e
    → IsOld e.next exit
    → Advances e (open_session env restart exit e).0
unfolding open_session
open_session-Advances env restart exit {e} h old =
    if_cases P (is_nil env.open_err)
      (λ ok.
        Advances-trans exits
          (launch-Advances exit exits.sound (IsOld-mono exit exits.grows.next old)))
      (λ failed. Advances-trans exits (note-Advances _ refl exits.sound))
  where
    P : Engine × Error → Type 0
    P r = Advances e r.0

    called : Engine
    called = note (on_open restart) e

    exits : Advances e (if env.open_exits then cancel exit called else called)
    exits =
        let first = note-Advances (on_open restart) refl h in
        if_cases (Advances e) env.open_exits
          (λ b. Advances-trans first (cancel-Advances exit first.sound old)) (λ b. first)

pub start_engine-Advances :
    (env : StartEnv) (restart : Bool) (exit : Option ℕ) {e : Engine}
    → IsSound e
    → IsOld e.next exit
    → Advances e (start_engine env restart exit e).0
unfolding start_engine
start_engine-Advances env restart exit {e} h old =
    if_cases P (not (is_nil env.entry_err)) (λ a. Agrees-Advances h unset)
      (λ a.
        if_cases P (not e.started || restart)
          (λ b.
            if_cases P (not (is_nil env.dialed_err))
              (λ c. Advances-trans dialed (note-Advances _ refl dialed.sound))
              (λ c.
                if_cases P (not (is_nil env.dial_err)) (λ d. dialed)
                  (λ d.
                    Advances-trans dialed
                      (open_session-Advances env restart exit dialed.sound old))))
          (λ b. same h))
  where
    P : Engine × Error → Type 0
    P r = Advances e r.0

    dialed : Advances e (note dial e)
    dialed = note-Advances dial refl h

    unset : Agrees e (record e { started = false })
    unset = record {
      canceled = refl;
      shut_down = refl;
      readers = refl;
      next = refl;
      shutdown_sync = refl;
      ctx = refl;
      stop_func = refl;
      started = λ s. cc;
      once = refl;
    }

-- The first line of Start.
pub renew_ctx-Advances : {e : Engine} → IsSound e → Advances e (renew_ctx e)
unfolding renew_ctx
renew_ctx-Advances {e} h = record {
  sound = record {
    canceled_old = Below-mono e.canceled (omega arith) h.canceled_old;
    shut_old = Below-mono e.shut_down (omega arith) h.shut_old;
    sync_old = omega (arith, h.sync_old);
    ctx_old = omega arith;
    stop_old = omega arith;
    sessions_old = All-map e.readers (λ s k. IsOldSession-mono s (omega arith) k) h.sessions_old;
    once = h.once;
    distinct = h.distinct;
    opened = h.opened;
    current = h.current;
  };
  grows = record {
    next = omega arith;
    canceled = λ c m. m;
    shut_down = λ o m. m;
    opened = λ o m. m;
  };
}

-- Start keeps the invariant.
pub start-Advances : (c : StartCall) {e : Engine} → IsSound e → Advances e (start c e).0
unfolding start
start-Advances c {e} h =
    if_cases (λ (r : Engine × Error). Advances e r.0) (not (is_nil c.caller_err)) (λ dead. fresh)
      (λ live. Advances-trans fresh (
        start_engine-Advances c.run false (renew_ctx e).engine_stop_func fresh.sound
          fresh.sound.stop_old))
  where
    fresh : Advances e (renew_ctx e)
    fresh = renew_ctx-Advances h

note_sleep-Advances : (d : Option ℤ) {e : Engine} → IsSound e → Advances e (note_sleep d e)
note_sleep-Advances none h = same h
note_sleep-Advances (some d) h = note-Advances (sleep d) refl h

sleep_before-Advances :
    (f : Floats) (k : ℕ) {e : Engine} → IsSound e → Advances e (sleep_before f k e)
unfolding sleep_before
sleep_before-Advances f k h = note_sleep-Advances _ h

-- One round of restartEngine.
stopped_before-Advances : (a : Attempt) {e : Engine} → IsSound e → Advances e (stopped_before a e)
stopped_before-Advances a {e} h =
    if_cases (Advances e) a.stopped (λ t. cancel-Advances e.engine_stop_func h h.stop_old)
      (λ t. same h)

send_stopped-Agrees : (e : Engine) → Agrees e (send_stopped e).0
unfolding send_stopped
send_stopped-Agrees e = ground arith

send_stopped-Advances : {e : Engine} → IsSound e → Advances e (send_stopped e).0
send_stopped-Advances {e} h = Agrees-Advances h (send_stopped-Agrees e)

restart_failed-Advances :
    (a : Attempt) (err : Error) (k : ℕ) {e : Engine}
    → IsSound e
    → Advances e (restart_failed a err k e)
unfolding restart_failed
restart_failed-Advances a err k {e} h =
    if_cases (Advances e) a.exits
      (λ t. Advances-trans called (cancel-Advances e.engine_stop_func called.sound h.stop_old))
      (λ t. called)
  where
    called : Advances e (note (on_restart_error err k) e)
    called = note-Advances _ refl h

try_restart-Advances :
    (f : Floats) (exit : Option ℕ) (k : ℕ) (a : Attempt) {e : Engine}
    → IsSound e
    → IsOld e.next exit
    → Advances e (try_restart f exit k a e).0
unfolding try_restart
try_restart-Advances f exit k a {e} h old =
    let slept = sleep_before-Advances f k h in
    Advances-trans slept
      (start_engine-Advances a.run true exit slept.sound (IsOld-mono exit slept.grows.next old))

-- restartEngine keeps the invariant.
pub restart_engine-Advances :
    (f : Floats) (exit : Option ℕ) (k : ℕ) (rounds : List Attempt) {e : Engine}
    → IsSound e
    → IsOld e.next exit
    → Advances e (restart_engine f exit k rounds e).0
unfolding restart_engine
restart_engine-Advances f exit k [] h old = same h
restart_engine-Advances f exit k (a ∷ rest) {e} h old =
    let now = stopped_before-Advances a h in
    let old' = IsOld-mono exit now.grows.next old in
    let tried = try_restart-Advances f exit k a now.sound old' in
    let failed =
      restart_failed-Advances a (try_restart f exit k a (stopped_before a e)).1 k tried.sound in
    let before = Advances-trans now (Advances-trans tried failed) in
    let again =
      restart_engine-Advances f exit (k + 1) rest failed.sound
        (IsOld-mono exit before.grows.next old) in
    if_cases (λ (r : Engine × RestartResult). Advances e r.0) (engine_done (stopped_before a e))
      (λ t. Advances-trans now (send_stopped-Advances now.sound))
      (λ t.
        if_cases (λ (r : Engine × RestartResult). Advances e r.0)
          (is_nil (try_restart f exit k a (stopped_before a e)).1) (λ ok. Advances-trans now tried)
          (λ b. Advances-trans before again))
