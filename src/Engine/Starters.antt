-- ===== src/Engine/Starters.antt =====
-- Calls of Start of wscengine/websocket_engine.go that overlap. Each call has its startEngine
-- goroutine, which waits for the start mutex, and waits itself for that goroutine or gives up; then
-- the goroutine goes on. Where a call and its goroutine are is kept as a value, so that any of them,
-- a Stop or a caller of a cancel function may take the next step.
use gowsclient.Base.{
  ℕ, ◌≡◌, ◌⊎◌, Bool, true, false, Option, none, some, List, [], ◌∷◌, ◌++◌, is_at_least,
}
use gowsclient.Errors.{Error, engine_start_error, is_nil}
use gowsclient.Config.{WebsocketEngineConfigurationOptions}
use gowsclient.Engine.State.{Engine, new_engine_state, cancel}
use gowsclient.Engine.Start.{StartEnv, renew_ctx, start_engine}
use gowsclient.Engine.Stop.{StopEnv, Outcome, returns, blocks, stop}
use gowsclient.Engine.Invariant.Defs.{IsOld}
pub mod Counts
pub mod Opened
pub mod Reach
pub mod Retry
pub mod Alternate

-- Where the caller of Start is, behind the first select.
pub data Caller : Type 0 where
  awaits : Caller
  returned : Error → Caller

-- A call of Start with its startEngine goroutine: the exit function that the goroutine was given,
-- and what it has sent on its startup channel, none before it has locked the start mutex.
pub record StartAttempt : Type 0 where
  pub exit : Option ℕ
  pub sent : Option Error
  pub caller : Caller

-- `is_locked`: a Stop that never returns holds the start mutex.
pub record Starters : Type 0 where
  pub engine : Engine
  pub is_locked : Bool
  pub attempts : List StartAttempt  -- newest first

-- Start up to its second select, with a live context.
unfoldable pub begin_start : Starters → Starters
unfolding renew_ctx
begin_start s =
    let fresh = renew_ctx s.engine in
    record s {
      engine = fresh;
      attempts =
          record { exit = fresh.engine_stop_func; sent = none; caller = awaits } ∷ s.attempts;
    }

-- The startEngine goroutine of the call `a`, from the locking of the mutex to its end.
unfoldable pub run_starter :
    StartEnv → List StartAttempt → StartAttempt → List StartAttempt → Starters → Starters
unfolding start_engine
run_starter env before a after s =
    let (e', err) = start_engine env false a.exit s.engine in
    record s { engine = e'; attempts = before ++ (record a { sent = some err } ∷ after) }

-- The call `a` returns.
abbrev pub return_start :
    Error → List StartAttempt → StartAttempt → List StartAttempt → Starters → Starters
return_start err before a after s = record s {
  attempts = before ++ (record a { caller = returned err } ∷ after);
}

abbrev pub is_blocked : Outcome → Bool
is_blocked blocks = true
is_blocked (returns err) = false

unfoldable pub call_stop : StopEnv → Starters → Starters
unfolding stop
call_stop env s =
    let (e', result) = stop env s.engine in record s { engine = e'; is_locked = is_blocked result }

pub data Step (s t : Starters) : Type 0 where
  begins : t ≡ begin_start s → Step s t
  -- a Start whose context has ended before the first select
  refuses : t ≡ record s { engine = renew_ctx s.engine } → Step s t
  runs :
      (env : StartEnv) (before after : List StartAttempt) (a : StartAttempt)
      → s.is_locked ≡ false
      → s.attempts ≡ before ++ (a ∷ after)
      → a.sent ≡ none
      → t ≡ run_starter env before a after s
      → Step s t
  receives :
      (before after : List StartAttempt) (a : StartAttempt) (err : Error)
      → s.attempts ≡ before ++ (a ∷ after)
      → a.caller ≡ awaits
      → a.sent ≡ some err
      → t ≡ return_start err before a after s
      → Step s t
  -- the other case of the second select: the caller's context has ended with the error `err`, or
  -- its error is nil and the deadline of OnOpenTimeoutMs has passed
  gives_up :
      (before after : List StartAttempt) (a : StartAttempt) (err : Error)
      → s.attempts ≡ before ++ (a ∷ after)
      → a.caller ≡ awaits
      → (is_nil err ≡ false) ⊎ (is_at_least 1 s.engine.engine_cfg_opts.on_open_timeout_ms ≡ true)
      → t ≡ return_start (engine_start_error err) before a after s
      → Step s t
  stops : (env : StopEnv) → s.is_locked ≡ false → t ≡ call_stop env s → Step s t
  -- a call of a cancel function that was handed out earlier, from any goroutine
  cancels :
      (c : Option ℕ)
      → IsOld s.engine.next c
      → t ≡ record s { engine = cancel c s.engine }
      → Step s t

-- What follows a state, step by step.
pub data Run (s : Starters) : Starters → Type 0 where
  here : Run s s
  next : {t u : Starters} → Run s t → Step t u → Run s u

abbrev pub init : WebsocketEngineConfigurationOptions → Starters
init opts = record { engine = new_engine_state opts; is_locked = false; attempts = [] }
