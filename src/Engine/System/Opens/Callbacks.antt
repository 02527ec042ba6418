-- ===== src/Engine/System/Opens/Callbacks.antt =====
-- OnOpen, OnClose, Dial and Close in every run of the goroutines of wscengine/websocket_engine.go.
use gowsclient.Base.{
  ◌+◌, length, ◌≤◌, sym, subst, true, false, Option, none, some, blocks, length-blocks, arith,
  if_cases,
}
use gowsclient.Errors.{CloseError, is_nil, as_close_error}
use gowsclient.Config.{WebsocketEngineConfigurationOptions}
use gowsclient.Engine.State.{Engine, Session, on_message, on_read_error, note, session_done, cancel}
use gowsclient.Engine.Calls.{count, is_on_open, is_on_close, is_close, is_dial}
use gowsclient.Engine.Start.{renew_ctx}
use gowsclient.Engine.Reader.{
  Pc, signal, begin_read, ReadEnv, read_failed, end_read, process, close_message,
}
use gowsclient.Engine.Invariant.Defs.{onces}
use gowsclient.Engine.System.{
  Thread, Lock, System, Move, locks, returns, handles, Step, renews, starts, stops, restarts,
  cancels, user_locks, user_unlocks, reader, Reach, here, next,
}
use gowsclient.Engine.System.Invariant.{Reach-Inv}
use gowsclient.Engine.Kept.{
  cancel-IsKept, signal-IsKept, leave-IsKept, stop-IsKept, restart_engine-IsKept,
}
use gowsclient.Engine.System.Opens.{Opens, Opens-IsKept}

read_failed-Opens :
    (env : ReadEnv) (s : Session) (c : Option CloseError) (e : Engine)
    → Opens e (read_failed env s c e).0
unfolding read_failed
read_failed-Opens env s (some c) e =
    Opens-IsKept.then_on (cancel-IsKept Opens-IsKept (some s.ctx) e) (
      leave-IsKept Opens-IsKept env.shutdown (some (close_message c)) true s
        (cancel (some s.ctx) e))
read_failed-Opens env s none e =
    let called = note (on_read_error env.err) e in
    let e' = signal env.signals s s.exit called in
    let noted : Opens e called = record { paid = omega arith; settled = omega arith } in
    let first =
      Opens-IsKept.then_on noted (signal-IsKept Opens-IsKept env.signals s s.exit called) in
    if_cases (λ (r : Engine × Pc). Opens e r.0) (session_done e' s)
      (λ done. Opens-IsKept.then_on first (leave-IsKept Opens-IsKept env.shutdown none false s e'))
      (λ live. first)

Move-Opens :
    {e : Engine} {m : Lock} {th : Thread} {r : Engine × Pc} {m' : Lock}
    → Move e m th r m'
    → Opens e r.0
unfolding begin_read end_read process
Move-Opens {e} {m} {th} (locks env at idle eq lock) =
    let s = th.session in
    subst (λ (r : Engine × Pc). Opens e r.0) (sym eq)
      (if_cases (λ (r : Engine × Pc). Opens e r.0) (session_done e s)
        (λ done. leave-IsKept Opens-IsKept env none true s e)
        (λ live. record { paid = omega arith; settled = omega arith }))
Move-Opens {e} {m} {th} (returns env at eq lock) =
    let s = th.session in
    subst (λ (r : Engine × Pc). Opens e r.0) (sym eq)
      (if_cases (λ (r : Engine × Pc). Opens e r.0) (session_done e s)
        (λ done. leave-IsKept Opens-IsKept env.shutdown none true s e)
        (λ live.
          if_cases (λ (r : Engine × Pc). Opens e r.0) (is_nil env.err) (λ ok. Opens-IsKept.same e)
            (λ bad. read_failed-Opens env s (as_close_error env.err) e)))
Move-Opens {e} {m} {th} (handles sg ty msg at eq lock) =
    let s = th.session in
    let called = note (on_message s.ctx ty msg) e in
    let noted : Opens e called = record { paid = omega arith; settled = omega arith } in
    subst (λ (r : Engine × Pc). Opens e r.0) (sym eq)
      (Opens-IsKept.then_on noted (signal-IsKept Opens-IsKept sg s e.engine_stop_func called))

Step-Opens : {s t : System} → Step s t → Opens s.engine t.engine
unfolding renew_ctx
Step-Opens {s} (renews eq) = rw eq (record { paid = omega arith; settled = omega arith })
Step-Opens {s} (starts env restart exit mine old eq) =
    rw eq (Opens-IsKept.starts env restart exit s.engine)
Step-Opens {s} (stops env eq) = rw eq (stop-IsKept Opens-IsKept env s.engine)
Step-Opens {s} (restarts f exit k rounds pending old eq) =
    rw eq (restart_engine-IsKept Opens-IsKept f exit k rounds s.engine)
Step-Opens {s} (cancels c old eq) = rw eq (cancel-IsKept Opens-IsKept c s.engine)
Step-Opens {s} (user_locks idle eq) = rw eq (Opens-IsKept.same s.engine)
Step-Opens {s} (user_unlocks idle eq) = rw eq (Opens-IsKept.same s.engine)
Step-Opens {s} (reader before after th r m' at move eq) = rw eq (Move-Opens move)

sessions_opened :
    {opts : WebsocketEngineConfigurationOptions} {s : System}
    → Reach opts s
    → let e = s.engine in
      (blocks (onces e) ≤ count is_on_open e.calls)
      × (count is_close e.calls + blocks (onces e) ≤ count is_dial e.calls + length e.shut_down)
sessions_opened here = (omega arith, omega arith)
sessions_opened (next r st) =
    let (opened, closed) = sessions_opened r in
    let o = Step-Opens st in (omega (arith, opened, o.paid), omega (arith, closed, o.settled))

-- In every reachable state OnClose was called at most as often as OnOpen, and conn.Close at most as
-- often as conn.Dial.
pub on_close-on_open :
    {opts : WebsocketEngineConfigurationOptions} {s : System}
    → Reach opts s
    → (count is_on_close s.engine.calls ≤ count is_on_open s.engine.calls)
      × (count is_close s.engine.calls ≤ count is_dial s.engine.calls)
on_close-on_open {s = s} r =
    let inv = Reach-Inv r in
    let (opened, closed) = sessions_opened r in
    let once =
      length-blocks s.engine.shut_down (onces s.engine) inv.sound.distinct inv.sound.opened in
    (omega (arith, inv.sound.once, once, opened), omega (arith, once, closed))
