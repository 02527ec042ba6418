-- ===== src/Engine/Start/Laws.antt =====
-- What startEngine and Start of wscengine/websocket_engine.go send, return and do.
use gowsclient.Base.{
  ℕ, suc, ◌+◌, pos, ◌≡◌, ◌∙◌, ap, refl, Bool, true, false, ◌&&◌, ◌||◌, not, Option, some, ◌∷◌, [],
  ◌++◌, List, arith, replicate, length, length-append, length-replicate, if◌then◌else◌,
}
use gowsclient.Errors.{Error, nil, errorf, engine_start_error, is_nil}
use gowsclient.Adapters.Constants.{going_away}
use gowsclient.Engine.State.{Engine, Session, Call, dial, close, on_open, session_done}
use gowsclient.Engine.Start.{
  StartEnv, StartCall, start_engine, start, new_session, can_give_up, renew_ctx,
}

-- Every answer of the environment lets startEngine go on.
abbrev pub succeeds : StartEnv → Bool → Engine → Bool
succeeds env restart e =
    is_nil env.entry_err
    && (not e.started || restart)
    && is_nil env.dialed_err
    && is_nil env.dial_err
    && is_nil env.open_err

-- The error that a failing start wraps: the first of the conditions, in the order of the code.
abbrev pub failure_err : StartEnv → Bool → Engine → Error
failure_err env restart e =
    if not (is_nil env.entry_err)
    then env.entry_err
    else if not (not e.started || restart)
    then errorf "engine has already started"
    else if not (is_nil env.dialed_err)
    then env.dialed_err
    else if not (is_nil env.dial_err)
    then env.dial_err
    else env.open_err

-- startEngine sends nil exactly if its context is live at both checks, the engine is not started or
-- is restarting, and the dial and OnOpen succeed. Otherwise it sends an EngineStartError with the
-- error of the first of these that fails.
pub start_engine_result :
    (env : StartEnv) (restart : Bool) (exit : Option ℕ) (e : Engine)
    → (start_engine env restart exit e).1
      ≡ (if succeeds env restart e then nil else engine_start_error (failure_err env restart e))
unfolding start_engine
start_engine_result env restart exit e = ground arith

-- The calls of a start that fails after the dial, or succeeds; newest first.
abbrev pub failure_calls : StartEnv → Bool → Engine → List Call
failure_calls env restart e =
    if not (is_nil env.entry_err)
    then []
    else if not (not e.started || restart)
    then []
    else if not (is_nil env.dialed_err)
    then close going_away "websocket client has been interrupted" ∷ dial ∷ []
    else if not (is_nil env.dial_err)
    then dial ∷ []
    else close going_away "websocket client failed to start" ∷ on_open restart ∷ dial ∷ []

-- A start that fails starts no reader and no session. It calls nothing if it ends before the dial,
-- and the adapter's Close exactly if its context ended during the dial or OnOpen failed.
pub start_engine_failure :
    (env : StartEnv) (restart : Bool) (exit : Option ℕ) (e : Engine)
    → succeeds env restart e ≡ false
    → let e' = (start_engine env restart exit e).0 in
      (e'.calls ≡ failure_calls env restart e ++ e.calls)
      × (e'.readers ≡ e.readers)
      × (e'.shutdown_sync ≡ e.shutdown_sync)
      × (e'.started ≡ (is_nil env.entry_err && e.started))
unfolding start_engine
start_engine_failure env restart exit e h = ground arith

-- A start that succeeds dials, calls OnOpen, and starts as many readers as the options say, if that
-- is at least 1. They share one new session, whose context has the engine context for its parent,
-- and its sync.Once is the engine's; the engine is started.
pub start_engine_success :
    (env : StartEnv) (restart : Bool) (exit : Option ℕ) (e : Engine) (n : ℕ)
    → succeeds env restart e ≡ true
    → e.engine_cfg_opts.reader_routines_count ≡ pos (suc n)
    → let e' = (start_engine env restart exit e).0 in
      (e'.calls ≡ on_open restart ∷ dial ∷ e.calls)
      × (e'.readers ≡ replicate (suc n) (new_session exit e) ++ e.readers)
      × (e'.shutdown_sync ≡ Session.shutdown_sync (new_session exit e))
      × (e'.started ≡ true)
unfolding start_engine
start_engine_success env restart exit e n h k = ground arith

pub start_engine_nil :
    (env : StartEnv) (restart : Bool) (exit : Option ℕ) (e : Engine)
    → is_nil (start_engine env restart exit e).1 ≡ true
    → (succeeds env restart e ≡ true) × ((start_engine env restart exit e).0.started ≡ true)
unfolding start_engine
start_engine_nil env restart exit e h = ground arith

-- startEngine neither renews the engine context nor changes the stop function and the options.
pub record KeepsCtx (e e' : Engine) : Type 0 where
  pub ctx : e'.engine_ctx ≡ e.engine_ctx
  pub stop_func : e'.engine_stop_func ≡ e.engine_stop_func
  pub opts : e'.engine_cfg_opts ≡ e.engine_cfg_opts

pub KeepsCtx-refl : (e : Engine) → KeepsCtx e e
KeepsCtx-refl e = record { ctx = refl; stop_func = refl; opts = refl }

pub KeepsCtx-trans : {a b c : Engine} → KeepsCtx a b → KeepsCtx b c → KeepsCtx a c
KeepsCtx-trans f g = record {
  ctx = g.ctx ∙ f.ctx;
  stop_func = g.stop_func ∙ f.stop_func;
  opts = g.opts ∙ f.opts;
}

pub start_engine-KeepsCtx :
    (env : StartEnv) (restart : Bool) (exit : Option ℕ) (e : Engine)
    → KeepsCtx e (start_engine env restart exit e).0
unfolding start_engine
start_engine-KeepsCtx env restart exit e = ground arith

length-readers :
    (n : ℕ) (a : Session) (xs : List Session) → length (replicate n a ++ xs) ≡ n + length xs
length-readers n a xs = omega (arith, length-append (replicate n a) xs, length-replicate n a)

-- A Start that gives up, because its caller's context has ended or the deadline of OnOpenTimeoutMs
-- has passed, returns an EngineStartError with the error of the caller's context, also if
-- startEngine succeeds: the engine is then started all the same, with all of its readers.
start_gives_up :
    (c : StartCall) (e : Engine) (n : ℕ)
    → is_nil c.caller_err ≡ true
    → c.gives_up ≡ true
    → can_give_up c e ≡ true
    → succeeds c.run false e ≡ true
    → e.engine_cfg_opts.reader_routines_count ≡ pos (suc n)
    → let (e', result) = start c e in
      (result ≡ engine_start_error c.waiting_err)
      × (e'.started ≡ true)
      × (length e'.readers ≡ suc n + length e.readers)
unfolding start renew_ctx
start_gives_up c e n live gives can ok readers =
    let s = start_engine_success c.run false (some e.next) (renew_ctx e) n ok readers in
    (
      ground arith,
      ground (arith, s),
      ground (
        arith,
        s,
        ap length s.1,
        length-readers (suc n) (new_session (some e.next) (renew_ctx e)) e.readers,
      ),
    )

-- A start that succeeds although OnOpen has called the exit function of the engine's context sends
-- nil, starts its readers and sets the started flag, but the session that it opens is done already.
exit_in_on_open :
    (env : StartEnv) (restart : Bool) (c : ℕ) (e : Engine)
    → env.open_exits ≡ true
    → e.engine_ctx ≡ some c
    → succeeds env restart e ≡ true
    → let (e', result) = start_engine env restart (some c) e in
      (result ≡ nil)
      × (e'.started ≡ true)
      × (e'.shutdown_sync ≡ Session.shutdown_sync (new_session (some c) e))
      × (session_done e' (new_session (some c) e) ≡ true)
unfolding start_engine
exit_in_on_open env restart c e exits ctx ok = ground arith
