-- ===== src/Engine/Start.antt =====
-- Start and startEngine of wscengine/websocket_engine.go. startEngine holds the start mutex from
-- its first line to its return, so a call is one step of the state.
use gowsclient.Base.{
  ℕ, ◌+◌, ◌-◌, ℤ, Bool, true, false, not, ◌&&◌, ◌||◌, Option, some, ◌++◌, replicate, is_at_least,
  to_nat, if◌then◌else◌,
}
use gowsclient.Errors.{Error, nil, errorf, engine_start_error, is_nil}
use gowsclient.Adapters.Constants.{going_away}
use gowsclient.Engine.State.{Engine, Session, dial, close, on_open, note, cancel}
pub mod Laws

-- What the environment answers: the error of the given context at the first select, the error of
-- conn.Dial, that of the context at the second select, what OnOpen returns, and whether OnOpen
-- calls the exit function.
pub record StartEnv : Type 0 where
  pub entry_err : Error
  pub dial_err : Error
  pub dialed_err : Error
  pub open_err : Error
  pub open_exits : Bool

-- One goroutine, and one more for each i from 1 to ReaderRoutinesCount - 1.
abbrev pub routines : ℤ → ℕ
routines count = 1 + (to_nat count - 1)

abbrev pub new_session : Option ℕ → Engine → Session
new_session exit e = record {
  ctx = e.next;
  parent = e.engine_ctx;
  exit = exit;
  shutdown_sync = e.next + 1;
}

-- OnOpen has succeeded: a new session, its sync.Once and its readers.
unfoldable pub launch : Option ℕ → Engine → Engine
launch exit e = record e {
  shutdown_sync = e.next + 1;
  next = e.next + 2;
  readers =
      replicate (routines e.engine_cfg_opts.reader_routines_count) (new_session exit e)
      ++ e.readers;
  started = true;
}

-- The call of OnOpen, and what follows it.
unfoldable pub open_session : StartEnv → Bool → Option ℕ → Engine → Engine × Error
unfolding launch
open_session env restart exit e =
    let called = note (on_open restart) e in
    let opened = if env.open_exits then cancel exit called else called in
    if is_nil env.open_err then (launch exit opened, nil) else (
      note (close going_away "websocket client failed to start") opened,
      engine_start_error env.open_err,
    )

-- The error is what is sent on the startup channel.
unfoldable pub start_engine :
    StartEnv → (restart : Bool) → (exit : Option ℕ) → Engine → Engine × Error
unfolding open_session
start_engine env restart exit e =
    if not (is_nil env.entry_err)
    then (record e { started = false }, engine_start_error env.entry_err)
    else if not e.started || restart
    then (let dialed = note dial e in
        if not (is_nil env.dialed_err)
        then (
          note (close going_away "websocket client has been interrupted") dialed,
          engine_start_error env.dialed_err,
        )
        else if not (is_nil env.dial_err)
        then (dialed, engine_start_error env.dial_err)
        else open_session env restart exit dialed)
    else (e, engine_start_error (errorf "engine has already started"))

-- `caller_err` is the error of the caller's context at the first select. `gives_up` tells that the
-- second select takes the case of the context that ends the wait, `waiting_err` is the error of the
-- caller's context then: nil if only the deadline of OnOpenTimeoutMs has passed.
pub record StartCall : Type 0 where
  pub caller_err : Error
  pub run : StartEnv
  pub gives_up : Bool
  pub waiting_err : Error

-- Whether the second select of Start can take that case.
abbrev pub can_give_up : StartCall → Engine → Bool
can_give_up c e = not (is_nil c.waiting_err) || is_at_least 1 e.engine_cfg_opts.on_open_timeout_ms

-- A fresh engine context, whose cancel function is the new stop function.
unfoldable pub renew_ctx : Engine → Engine
renew_ctx e = record e {
  engine_ctx = some e.next;
  engine_stop_func = some e.next;
  next = e.next + 1;
}

-- The state is that after the goroutine of startEngine has ended too, which Start does not await if
-- it gives up.
unfoldable pub start : StartCall → Engine → Engine × Error
unfolding start_engine renew_ctx
start c e =
    let fresh = renew_ctx e in
    if not (is_nil c.caller_err)
    then (fresh, engine_start_error c.caller_err)
    else (let (e', result) = start_engine c.run false fresh.engine_stop_func fresh in
        (e', if c.gives_up && can_give_up c e then engine_start_error c.waiting_err else result))
