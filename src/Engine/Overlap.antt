-- ===== src/Engine/Overlap.antt =====
-- A call of Stop of wscengine/websocket_engine.go while a restartEngine goroutine tries to restart
-- the engine. Both meet at the start mutex: Stop holds it while it waits for the stop signal, and
-- each startEngine goroutine locks it first. Where one of them waits is a value, so that any of the
-- goroutines may take the next step.
use gowsclient.Base.{
  ℕ, suc, ◌+◌, ◌-◌, ◌<◌, ◌≡◌, ◌⊎◌, Bool, true, false, Option, none, some, is_at_least,
  if◌then◌else◌,
}
use gowsclient.Errors.{Error, nil, deadline_exceeded, is_nil}
use gowsclient.Config.Delay.{Floats}
use gowsclient.Engine.State.{Engine, engine_done, send_stopped, receive_stopped, cancel}
use gowsclient.Engine.Shutdown.{ShutdownEnv}
use gowsclient.Engine.Stop.{begin_stop, not_started}
use gowsclient.Engine.Start.{StartEnv, start_engine}
use gowsclient.Engine.Restart.{
  Attempt, RestartResult, restarted, sleep_before, restart_failed, exit_result,
}
pub mod Meeting
pub mod Deadlock
pub mod Endings

-- Where the caller of Stop is. It holds the start mutex where it waits and where it hangs, in the
-- send of the shutdown.
pub data StopPc : Type 0 where
  calls : StopPc
  waits : StopPc
  hangs : StopPc
  returned : Error → StopPc

-- Where the restartEngine goroutine is: at the check of the engine context, at the select that
-- follows the start of a startEngine goroutine, or at its end.
pub data RestartPc : Type 0 where
  checks : (retry_count : ℕ) → RestartPc
  awaits : (retry_count : ℕ) → RestartPc
  ended : RestartResult → RestartPc

-- `starter`: the startEngine goroutine of the present round has not locked the mutex yet. `startup`
-- is what the startup channel of that round holds. `late` counts the startEngine goroutines that
-- have not locked the mutex yet and whose round was given up.
pub record Overlap : Type 0 where
  pub engine : Engine
  pub stopper : StopPc
  pub restarter : RestartPc
  pub starter : Bool
  pub startup : Option Error
  pub late : ℕ

abbrev pub is_free : StopPc → Bool
is_free waits = false
is_free hangs = false
is_free _ = true

abbrev pub stop_pc : Bool → StopPc
stop_pc true = waits
stop_pc false = hangs

-- Stop from the locking of the mutex to its select.
unfoldable pub enter_stop : ShutdownEnv → Overlap → Overlap
unfolding begin_stop
enter_stop env s =
    if s.engine.started
    then (let (e', finished) = begin_stop env s.engine in
        record s { engine = record e' { started = false }; stopper = stop_pc finished })
    else record s { stopper = returned not_started }

-- One round of restartEngine up to its select.
unfoldable pub check : Floats → ℕ → Overlap → Overlap
unfolding send_stopped sleep_before
check f k s =
    let (sent, back) = send_stopped s.engine in
    if engine_done s.engine
    then record s { engine = sent; restarter = ended (exit_result back) }
    else record s {
      engine = sleep_before f k s.engine;
      restarter = awaits k;
      starter = true;
      startup = none;
    }

-- A round ends with an error: OnRestartError, and the next round.
abbrev pub fail_round : Attempt → Error → ℕ → Overlap → Overlap
fail_round a err k s = record s {
  engine = restart_failed a err k s.engine;
  restarter = checks (k + 1);
  startup = none;
}

-- A round is given up, with its startEngine goroutine still waiting or not.
unfoldable pub give_up_round : Attempt → ℕ → Overlap → Overlap
unfolding restart_failed
give_up_round a k s = record (fail_round a deadline_exceeded k s) {
  starter = false;
  late = if s.starter then suc s.late else s.late;
}

-- The startup channel is read.
unfoldable pub answer_round : Attempt → Error → ℕ → Overlap → Overlap
unfolding restart_failed
answer_round a err k s =
    if is_nil err
    then record s { restarter = ended restarted; startup = none }
    else fail_round a err k s

-- The startEngine goroutine of the present round, from the locking of the mutex to its end.
unfoldable pub run_starter : StartEnv → Option ℕ → Overlap → Overlap
unfolding start_engine
run_starter env exit s =
    let (e', err) = start_engine env true exit s.engine in
    record s { engine = e'; starter = false; startup = some err }

-- One that was given up: the startup channel of its round is read by nobody.
unfoldable pub run_late : StartEnv → Option ℕ → Overlap → Overlap
unfolding start_engine
run_late env exit s = record s {
  engine = (start_engine env true exit s.engine).0;
  late = s.late - 1;
}

-- The steps. `caller_err` is the error with which the context of Stop's caller may end, nil if it
-- never ends; `exit` is the function that restartEngine was given.
pub data Step (caller_err : Error) (f : Floats) (exit : Option ℕ) (s t : Overlap) : Type 1 where
  stop_enters :
      (env : ShutdownEnv) → s.stopper ≡ calls → t ≡ enter_stop env s → Step caller_err f exit s t
  stop_receives :
      s.stopper ≡ waits
      → s.engine.stopped_channel ≡ true
      → t ≡ record s { engine = receive_stopped s.engine; stopper = returned nil }
      → Step caller_err f exit s t
  stop_leaves :
      (err : Error)
      → s.stopper ≡ waits
      → is_nil err ≡ false
      → (err ≡ caller_err)
        ⊎ (err ≡ deadline_exceeded)
          × (is_at_least 1 s.engine.engine_cfg_opts.stop_timeout_ms ≡ true)
      → t ≡ record s { stopper = returned err }
      → Step caller_err f exit s t
  restart_checks : (k : ℕ) → s.restarter ≡ checks k → t ≡ check f k s → Step caller_err f exit s t
  restart_receives :
      (a : Attempt) (err : Error) (k : ℕ)
      → s.restarter ≡ awaits k
      → s.startup ≡ some err
      → t ≡ answer_round a err k s
      → Step caller_err f exit s t
  restart_times_out :
      (a : Attempt) (k : ℕ)
      → s.restarter ≡ awaits k
      → is_at_least 1 s.engine.engine_cfg_opts.on_open_timeout_ms ≡ true
      → t ≡ give_up_round a k s
      → Step caller_err f exit s t
  starter_runs :
      (env : StartEnv)
      → s.starter ≡ true
      → is_free s.stopper ≡ true
      → t ≡ run_starter env exit s
      → Step caller_err f exit s t
  late_runs :
      (env : StartEnv)
      → 0 < s.late
      → is_free s.stopper ≡ true
      → is_nil env.entry_err ≡ false
      → t ≡ run_late env exit s
      → Step caller_err f exit s t
  -- a call of a cancel function, from any goroutine
  cancels :
      (c : Option ℕ) → t ≡ record s { engine = cancel c s.engine } → Step caller_err f exit s t

pub data Run (caller_err : Error) (f : Floats) (exit : Option ℕ) (s : Overlap)
    : Overlap → Type 1 where
  here : Run caller_err f exit s s
  next :
      {t u : Overlap}
      → Run caller_err f exit s t
      → Step caller_err f exit t u
      → Run caller_err f exit s u

-- restartEngine is at the head of its loop and somebody calls Stop.
abbrev pub meet : Engine → ℕ → Overlap
meet e k = record {
  engine = e;
  stopper = calls;
  restarter = checks k;
  starter = false;
  startup = none;
  late = 0;
}
