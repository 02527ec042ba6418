-- ===== src/Engine/Restart.antt =====
-- restartEngine of wscengine/websocket_engine.go.
use gowsclient.Base.{
  ℕ, ◌+◌, ℤ, Bool, true, false, Option, none, some, List, [], ◌∷◌, to_nat, if◌then◌else◌, ◌&&◌,
  is_at_least,
}
use gowsclient.Errors.{Error, is_nil}
use gowsclient.Config.Delay.{Floats, retry_sleep}
use gowsclient.Engine.State.{
  Engine, sleep, on_restart_error, note, cancel, engine_done, send_stopped,
}
use gowsclient.Engine.Start.{StartEnv, start_engine}
pub mod Laws
pub mod Retries
pub mod Success

-- What happens in one round: whether somebody has called the engine's stop function since the last
-- round; what startEngine meets; whether the select takes the case of the context that ends the
-- wait (its deadline is that of OnOpenTimeoutMs) and its error; whether OnRestartError exits.
pub record Attempt : Type 0 where
  pub stopped : Bool
  pub run : StartEnv
  pub gives_up : Bool
  pub waiting_err : Error
  pub exits : Bool

-- How the loop stands after the given rounds.
pub data RestartResult : Type 0 where
  looping : RestartResult
  restarted : RestartResult
  exited : RestartResult
  blocked : RestartResult

abbrev pub note_sleep : Option ℤ → Engine → Engine
note_sleep none e = e
note_sleep (some d) e = note (sleep d) e

-- The sleep before a retry.
unfoldable pub sleep_before : Floats → ℕ → Engine → Engine
sleep_before f retry_count e =
    let o = e.engine_cfg_opts in
    note_sleep
      (retry_sleep f (to_nat o.auto_reconnect_retry_delay_base_seconds)
        (to_nat o.auto_reconnect_retry_delay_max_exponent) retry_count)
      e

abbrev pub stopped_before : Attempt → Engine → Engine
stopped_before a e = if a.stopped then cancel e.engine_stop_func e else e

-- The start of the engine in one round, after the check of the engine context and the sleep. The
-- error is what the round ends with.
unfoldable pub try_restart : Floats → Option ℕ → ℕ → Attempt → Engine → Engine × Error
unfolding sleep_before
try_restart f exit retry_count a e =
    let (e', result) = start_engine a.run true exit (sleep_before f retry_count e) in
    (
      e',
      if a.gives_up && is_at_least 1 e.engine_cfg_opts.on_open_timeout_ms
          then a.waiting_err
          else result,
    )

-- OnRestartError, with the exit function that it may call.
unfoldable pub restart_failed : Attempt → Error → ℕ → Engine → Engine
restart_failed a err retry_count e =
    let called = note (on_restart_error err retry_count) e in
    if a.exits then cancel called.engine_stop_func called else called

-- How a loop ends whose engine context is canceled.
abbrev pub exit_result : Bool → RestartResult
exit_result true = exited
exit_result false = blocked

-- The loop, over the rounds that are given.
unfoldable pub restart_engine :
    Floats → (exit : Option ℕ) → (retry_count : ℕ) → List Attempt → Engine → Engine × RestartResult
restart_engine f exit retry_count [] e = (e, looping)
restart_engine f exit retry_count (a ∷ rest) e =
    let now = stopped_before a e in
    let (sent, back) = send_stopped now in
    let (tried, err) = try_restart f exit retry_count a now in
    let again =
      restart_engine f exit (retry_count + 1) rest (restart_failed a err retry_count tried) in
    if engine_done now
    then (sent, exit_result back)
    else if is_nil err
    then (tried, restarted)
    else again
