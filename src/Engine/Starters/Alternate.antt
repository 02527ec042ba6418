-- ===== src/Engine/Starters/Alternate.antt =====
-- Overlapping calls of Start and Stop of wscengine/websocket_engine.go open and close sessions in turn.
use gowsclient.Base.{
  ℕ, suc, ◌+◌, ◌≡◌, inl, inr, refl, sym, ap, subst, ◌∙◌, true, false, Bool-cases, Option, none,
  some, List, ◌∷◌, ◌++◌, elem, elem_fresh, sum_of, if◌then◌else◌, arith,
}
use gowsclient.Errors.{Error, engine_start_error, is_nil}
use gowsclient.Config.{WebsocketEngineConfigurationOptions}
use gowsclient.Engine.State.{Engine, once_do}
use gowsclient.Engine.Calls.{count, is_on_close}
use gowsclient.Engine.Shutdown.{ShutdownEnv, shutdown_engine}
use gowsclient.Engine.Start.{StartEnv, renew_ctx, start_engine}
use gowsclient.Engine.Stop.{StopEnv, stop, begin_stop, after_shutdown, wait_stopped}
use gowsclient.Engine.Invariant.Defs.{IsSound}
use gowsclient.Engine.Starters.{
  returned, StartAttempt, Starters, Step, begins, refuses, runs, receives, gives_up, stops, cancels,
  Run, here, next, init, begin_start, run_starter, return_start, call_stop, is_blocked,
}
use gowsclient.Engine.System.Invariant.{Reach-Inv}
use gowsclient.Engine.Starters.Reach.{Run-Reach}
use gowsclient.Engine.Starters.Opened.{nil_by, has_sent_nil, sum_of-at}

abbrev open_now : Engine → ℕ
open_now e = if e.started then 1 else 0

-- What Stop does to the sessions, if it returns.
record Closes (e e' : Engine) : Type 0 where
  closed : count is_on_close e'.calls + open_now e' ≡ count is_on_close e.calls + open_now e
  off : e'.started ≡ false

begin_stop_closes :
    (env : ShutdownEnv) (e : Engine)
    → elem e.shutdown_sync e.shut_down ≡ false
    → let e' = (begin_stop env e).0 in count is_on_close e'.calls ≡ suc (count is_on_close e.calls)
unfolding begin_stop once_do shutdown_engine
begin_stop_closes env e new = ground arith

stop-Closes :
    (env : StopEnv) (e : Engine)
    → (e.started ≡ true → elem e.shutdown_sync e.shut_down ≡ false)
    → is_blocked (stop env e).1 ≡ false
    → Closes e (stop env e).0
unfolding stop after_shutdown wait_stopped
stop-Closes env e new ends = elim (Bool-cases e.started) [
  | inl on ↦ let c = begin_stop_closes env.shutdown e (new on) in ground (arith, on, c, ends)
  | inr off ↦ ground (arith, off)
]

-- What startEngine does to them, with a context that is live at its first check.
record Reopens (e e' : Engine) (err : Error) : Type 0 where
  balance :
      count is_on_close e'.calls + open_now e'
      ≡ (if is_nil err then 1 else 0) + (count is_on_close e.calls + open_now e)
  new : is_nil err ≡ true → elem e'.shutdown_sync e'.shut_down ≡ false
  same :
      is_nil err ≡ false
      → (e'.started ≡ e.started)
        × (e'.shutdown_sync ≡ e.shutdown_sync)
        × (e'.shut_down ≡ e.shut_down)

start_engine-Reopens :
    (env : StartEnv) (exit : Option ℕ) (e : Engine)
    → IsSound e
    → is_nil env.entry_err ≡ true
    → Reopens e (start_engine env false exit e).0 (start_engine env false exit e).1
unfolding start_engine
start_engine-Reopens env exit e sound live =
    ground (arith, live, elem_fresh e.next (e.next + 1) e.shut_down sound.shut_old (omega arith))

-- Every startEngine goroutine of the run has found its context live at its first check.
abbrev pub IsLiveStep : {s t : Starters} → Step s t → Type 0
IsLiveStep (runs env before after a unlocked at new eq) = is_nil env.entry_err ≡ true
IsLiveStep _ = Unit

abbrev pub IsLiveRun : {s t : Starters} → Run s t → Type 0
IsLiveRun here = Unit
IsLiveRun (next r st) = IsLiveRun r × IsLiveStep st

record Balanced (s : Starters) : Type 0 where
  balance :
      count is_on_close s.engine.calls + open_now s.engine ≡ sum_of (has_sent_nil 1) s.attempts
  new : s.engine.started ≡ true → elem s.engine.shutdown_sync s.engine.shut_down ≡ false

run_starter-Balanced :
    {s : Starters} (env : StartEnv) (before after : List StartAttempt) (a : StartAttempt)
    → IsSound s.engine
    → is_nil env.entry_err ≡ true
    → s.attempts ≡ before ++ (a ∷ after)
    → a.sent ≡ none
    → Balanced s
    → Balanced (run_starter env before a after s)
unfolding run_starter
run_starter-Balanced {s} env before after a sound live at none_before b =
    let (e', err) = start_engine env false a.exit s.engine in
    let re = start_engine-Reopens env a.exit s.engine sound live in
    record {
      balance = omega (
        arith,
        re.balance,
        b.balance,
        ap (λ sent. nil_by sent 1) none_before,
        sum_of-at (has_sent_nil 1) s.attempts before after a (record a { sent = some err }) at,
      );
      new = λ on. elim (Bool-cases (is_nil err)) [
        | inl ok ↦ re.new ok
        | inr bad ↦ let k = re.same bad in rw (k.1, k.2) (b.new (sym k.0 ∙ on))
      ];
    }

return_start-Balanced :
    {s : Starters} (err : Error) (before after : List StartAttempt) (a : StartAttempt)
    → s.attempts ≡ before ++ (a ∷ after)
    → Balanced s
    → Balanced (return_start err before a after s)
return_start-Balanced {s} err before after a at b = record {
  balance = omega (
    arith,
    b.balance,
    sum_of-at (has_sent_nil 1) s.attempts before after a (record a { caller = returned err }) at,
  );
  new = b.new;
}

call_stop-Balanced :
    {s : Starters} (env : StopEnv)
    → (call_stop env s).is_locked ≡ false
    → Balanced s
    → Balanced (call_stop env s)
unfolding call_stop
call_stop-Balanced {s} env ends b =
    let c = stop-Closes env s.engine b.new ends in
    record { balance = omega (arith, c.closed, b.balance); new = λ on. cc (on, c.off) }

Step-Balanced :
    {s t : Starters} (st : Step s t)
    → IsSound s.engine
    → IsLiveStep st
    → (s.is_locked ≡ false → Balanced s)
    → t.is_locked ≡ false
    → Balanced t
unfolding begin_start run_starter renew_ctx
Step-Balanced {s} (begins eq) sound live b free =
    let o = b (sym (ap Starters.is_locked eq) ∙ free) in
    subst Balanced (sym eq) (record { balance = omega (arith, o.balance); new = o.new })
Step-Balanced {s} (refuses eq) sound live b free =
    let o = b (sym (ap Starters.is_locked eq) ∙ free) in
    subst Balanced (sym eq) (record { balance = o.balance; new = o.new })
Step-Balanced (runs env before after a unlocked at new eq) sound live b free =
    subst Balanced (sym eq) (run_starter-Balanced env before after a sound live at new (b unlocked))
Step-Balanced (receives before after a err at waits sent eq) sound live b free =
    subst Balanced (sym eq)
      (return_start-Balanced err before after a at (b (sym (ap Starters.is_locked eq) ∙ free)))
Step-Balanced (gives_up before after a err at waits why eq) sound live b free =
    subst Balanced (sym eq) (
      return_start-Balanced (engine_start_error err) before after a at
        (b (sym (ap Starters.is_locked eq) ∙ free)))
Step-Balanced (stops env unlocked eq) sound live b free =
    subst Balanced (sym eq)
      (call_stop-Balanced env (sym (ap Starters.is_locked eq) ∙ free) (b unlocked))
Step-Balanced (cancels none old eq) sound live b free =
    subst Balanced (sym eq) (b (sym (ap Starters.is_locked eq) ∙ free))
Step-Balanced (cancels (some c) old eq) sound live b free =
    let o = b (sym (ap Starters.is_locked eq) ∙ free) in
    subst Balanced (sym eq) (record { balance = o.balance; new = o.new })

Run-Balanced :
    {opts : WebsocketEngineConfigurationOptions} {s : Starters} (r : Run (init opts) s)
    → IsLiveRun r
    → s.is_locked ≡ false
    → Balanced s
Run-Balanced here live free = record { balance = refl; new = λ on. cc }
Run-Balanced (next r st) live free =
    let (t, reached, same) = Run-Reach r in
    Step-Balanced st (subst IsSound same (Reach-Inv reached).sound) live.1 (Run-Balanced r live.0)
      free

-- However calls of Start and Stop of a new engine, their startEngine goroutines and calls of cancel
-- functions overlap, as long as each of these goroutines finds its context live at its first check
-- and no Stop hangs: the goroutines that have sent nil are as many as the calls of OnClose, and one
-- more exactly while the engine is started. So there is never more than one session that no Stop has
-- closed.
pub starts-stops :
    {opts : WebsocketEngineConfigurationOptions} {s : Starters} (r : Run (init opts) s)
    → IsLiveRun r
    → s.is_locked ≡ false
    → sum_of (has_sent_nil 1) s.attempts
      ≡ count is_on_close s.engine.calls + (if s.engine.started then 1 else 0)
starts-stops r live free = sym (Run-Balanced r live free).balance
