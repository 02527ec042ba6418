-- ===== src/Engine/Starters/Retry.antt =====
-- A Start of wscengine/websocket_engine.go that times out, and a second one before the startEngine
-- goroutine of the first has locked the start mutex.
use gowsclient.Base.{
  if◌then◌else◌, ap, ℕ, ◌+◌, ◌≡◌, refl, inr, true, false, Option, none, some, [], ◌∷◌, ◌++◌,
  replicate, elem_fresh, is_at_least, arith,
}
use gowsclient.Errors.{Error, nil, errorf, engine_start_error, is_nil}
use gowsclient.Engine.State.{Engine, Session, cancel, session_done}
use gowsclient.Engine.Start.{StartEnv, routines, renew_ctx, start_engine}
use gowsclient.Engine.Start.Laws.{succeeds}
use gowsclient.Engine.Invariant.Defs.{IsSound}
use gowsclient.Engine.Starters.{
  awaits, returned, StartAttempt, Starters, begins, runs, receives, gives_up, Run, here, next,
  begin_start, run_starter, return_start,
}

abbrev pub already_started : Error
already_started = engine_start_error (errorf "engine has already started")

-- The first call, where it waits, where it has given up, and where its goroutine has run; and the
-- second one, where it waits and where its goroutine has run.
abbrev pub first : Engine → StartAttempt
first e = record { exit = some e.next; sent = none; caller = awaits }

abbrev pub gave_up : Engine → StartAttempt
gave_up e = record (first e) { caller = returned (engine_start_error nil) }

abbrev pub second : Engine → StartAttempt
second e = record { exit = some (e.next + 1); sent = none; caller = awaits }

-- The first Start times out, and the second one is called.
abbrev pub start_twice : Starters → Starters
start_twice s =
    begin_start
      (return_start (engine_start_error nil) [] (first s.engine) s.attempts (begin_start s))

-- Then the goroutines run, the first one first, and the second call returns what it is sent.
abbrev pub run_both : (late env : StartEnv) → Starters → Starters
run_both late env s =
    let e = s.engine in
    let up = run_starter late (second e ∷ []) (gave_up e) s.attempts (start_twice s) in
    let answered = record (second e) { sent = some already_started } in
    let ran = record (gave_up e) { sent = some nil } in
    return_start already_started [] answered (ran ∷ s.attempts)
      (run_starter env [] (second e) (ran ∷ s.attempts) up)

-- The session that the first goroutine opens.
abbrev pub late_session : Engine → Session
late_session e = record {
  ctx = e.next + 1 + 1;
  parent = some (e.next + 1);
  exit = some e.next;
  shutdown_sync = e.next + 1 + 1 + 1;
}

-- The engine when the first goroutine has run.
abbrev late_engine : StartEnv → Engine → Engine
late_engine late e = (start_engine late false (some e.next) (renew_ctx (renew_ctx e))).0

record Launched (late : StartEnv) (e e' : Engine) : Type 0 where
  sends_nil : (start_engine late false (some e.next) (renew_ctx (renew_ctx e))).1 ≡ nil
  started : e'.started ≡ true
  stop_func : e'.engine_stop_func ≡ some (e.next + 1)
  readers :
      e'.readers
      ≡ replicate (routines e.engine_cfg_opts.reader_routines_count) (late_session e) ++ e.readers
  canceled : e'.canceled ≡ (if late.open_exits then e.next ∷ e.canceled else e.canceled)

late_engine-Launched :
    (late : StartEnv) (e : Engine)
    → e.started ≡ false
    → succeeds late false e ≡ true
    → Launched late e (late_engine late e)
unfolding start_engine renew_ctx
late_engine-Launched late e off ok = ground arith

start_engine_started :
    (env : StartEnv) (exit : Option ℕ) (e : Engine)
    → e.started ≡ true
    → is_nil env.entry_err ≡ true
    → start_engine env false exit e ≡ (e, already_started)
unfolding start_engine
start_engine_started env exit e on live = ground arith

-- The exit function of the session does not end it, and the stop function of the engine does.
late_session-done :
    (late : StartEnv) (e e' : Engine)
    → IsSound e
    → Launched late e e'
    → (session_done (cancel (some e.next) e') (late_session e) ≡ false)
      × (session_done (cancel e'.engine_stop_func e') (late_session e) ≡ true)
late_session-done late e e' sound l = ground (
  arith,
  l.stop_func,
  l.canceled,
  elem_fresh e.next (e.next + 1) e.canceled sound.canceled_old (omega arith),
  elem_fresh e.next (e.next + 1 + 1) e.canceled sound.canceled_old (omega arith),
)

run_both-Run :
    (late env : StartEnv) (s : Starters)
    → s.is_locked ≡ false
    → is_at_least 1 s.engine.engine_cfg_opts.on_open_timeout_ms ≡ true
    → Launched late s.engine (late_engine late s.engine)
    → start_engine env false (some (s.engine.next + 1)) (late_engine late s.engine)
      ≡ (late_engine late s.engine, already_started)
    → Run s (run_both late env s)
unfolding begin_start run_starter renew_ctx
run_both-Run late env s unlocked on l refused =
    let e = s.engine in
    let ran = record (gave_up e) { sent = some nil } in
    let twice : Run s (start_twice s) =
      next
        (next (next here (begins refl))
          (gives_up [] s.attempts (first e) nil refl refl (inr on) refl))
        (begins refl) in
    let up = runs late (second e ∷ []) s.attempts (gave_up e) unlocked refl refl refl in
    let answered =
      runs env [] (ran ∷ s.attempts) (second e) unlocked
        (ap (λ err. second e ∷ record (gave_up e) { sent = some err } ∷ s.attempts) l.sends_nil)
        refl refl in
    next (next (next twice up) answered) (
      receives [] (ran ∷ s.attempts) (record (second e) { sent = some already_started })
        already_started
        (ap (λ (r : Engine × Error). record (second e) { sent = some r.1 } ∷ ran ∷ s.attempts)
          refused)
        refl refl refl)

-- On an engine that is not started, with OnOpenTimeoutMs set and the start mutex free: a Start that times out returns an
-- EngineStartError around nil, and its startEngine goroutine, if it locks the mutex after the next
-- Start was called and nothing fails, opens a session all the same. That next Start then returns
-- the error that the engine has already started, and the exit function that the client was given
-- does not end the session, whose parent is the context of the second Start.
pub start-times_out-start :
    (late env : StartEnv) (s : Starters)
    → IsSound s.engine
    → s.engine.started ≡ false
    → s.is_locked ≡ false
    → is_at_least 1 s.engine.engine_cfg_opts.on_open_timeout_ms ≡ true
    → succeeds late false s.engine ≡ true
    → is_nil env.entry_err ≡ true
    → let t = run_both late env s in
      let ses = late_session s.engine in
      Run s t
      × (t.attempts
          ≡ record {
            exit = some (s.engine.next + 1);
            sent = some already_started;
            caller = returned already_started;
          }
            ∷ record {
              exit = some s.engine.next;
              sent = some nil;
              caller = returned (engine_start_error nil);
            }
            ∷ s.attempts)
      × (t.engine.started ≡ true)
      × (t.engine.readers
          ≡ replicate (routines s.engine.engine_cfg_opts.reader_routines_count) ses
            ++ s.engine.readers)
      × (session_done (cancel ses.exit t.engine) ses ≡ false)
      × (session_done (cancel t.engine.engine_stop_func t.engine) ses ≡ true)
unfolding begin_start run_starter
start-times_out-start late env s sound off unlocked on ok live =
    let l = late_engine-Launched late s.engine off ok in
    let refused =
      start_engine_started env (some (s.engine.next + 1)) (late_engine late s.engine) l.started
        live in
    let done = late_session-done late s.engine (late_engine late s.engine) sound l in
    (
      run_both-Run late env s unlocked on l refused,
      refl,
      rw refused l.started,
      rw refused l.readers,
      rw refused done.0,
      rw refused done.1,
    )
