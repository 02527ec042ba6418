-- ===== src/Engine/System/Reads.antt =====
-- How often the readers of wscengine/websocket_engine.go call conn.Read, and how often they hand on
-- what it returned.
use gowsclient.Base.{
  ℕ, ◌+◌, ◌≤◌, ◌≡◌, refl, sym, ap, subst, Bool, true, false, none, some, Option, List, [], ◌∷◌,
  ◌++◌, map, sum_of, sum_of-append, arith, if_cases,
}
use gowsclient.Errors.{CloseError, is_nil, as_close_error}
use gowsclient.Config.{WebsocketEngineConfigurationOptions}
use gowsclient.Adapters.Constants.{MessageType}
use gowsclient.Engine.State.{
  Engine, Session, CloseMessageDetails, on_message, on_read_error, note, session_done, cancel,
}
use gowsclient.Engine.Start.{renew_ctx}
use gowsclient.Engine.Calls.{count}
use gowsclient.Engine.Kept.{cancel-IsKept, signal-IsKept, stop-IsKept, restart_engine-IsKept}
use gowsclient.Engine.Shutdown.{ShutdownEnv}
use gowsclient.Engine.Reader.{
  Pc, reading, processing, exit_pc, Signals, signal, leave, begin_read, ReadEnv, read_failed,
  end_read, process, close_message,
}
use gowsclient.Engine.System.{
  Thread, Lock, System, Move, locks, returns, handles, thread_of, with_engine, fresh_readers, Step,
  renews, starts, stops, restarts, cancels, user_locks, user_unlocks, reader, Reach, here, next,
}
use gowsclient.Engine.System.Reads.Others.{is_read, is_handled, Quiet, Quiet-IsKept}
pub mod Others

-- Whether a reader has called conn.Read and has not handed on the result yet.
abbrev pub owes : Pc → ℕ
owes reading = 1
owes (processing ty msg) = 1
owes _ = 0

abbrev pub owed : List Thread → ℕ
owed = sum_of (λ th. owes (Thread.pc th))

-- The reads cover the results that were handed on and those that are still to be.
abbrev Covers : System → Type 0
Covers s = count is_handled s.engine.calls + owed s.threads ≤ count is_read s.engine.calls

-- A step of a reader that was at a place with `n` results to hand on.
record Pays (e : Engine) (n : ℕ) (r : Engine × Pc) : Type 0 where
  paid :
      count is_handled r.0.calls + owes r.1 + count is_read e.calls
      ≤ count is_handled e.calls + n + count is_read r.0.calls

owes-exit_pc : (back : Bool) → owes (exit_pc back) ≡ 0
owes-exit_pc true = refl
owes-exit_pc false = refl

leave-Pays :
    (env : ShutdownEnv) (msg : Option CloseMessageDetails) (skip : Bool) (s : Session) (e : Engine)
    (n : ℕ)
    → Pays e n (leave env msg skip s e)
unfolding leave
leave-Pays env msg skip s e n =
    let q = Quiet-IsKept.shuts s.shutdown_sync env msg skip e in
    record { paid = omega (arith, q.reads, q.handled, owes-exit_pc _) }

after-Pays : {e e' : Engine} {n : ℕ} (r : Engine × Pc) → Quiet e e' → Pays e' n r → Pays e n r
after-Pays r q p = record { paid = omega (arith, q.reads, q.handled, p.paid) }

read_failed-Pays :
    (env : ReadEnv) (s : Session) (c : Option CloseError) (e : Engine)
    → Pays e 1 (read_failed env s c e)
unfolding read_failed
read_failed-Pays env s (some c) e =
    after-Pays _ (cancel-IsKept Quiet-IsKept (some s.ctx) e)
      (leave-Pays env.shutdown (some (close_message c)) true s (cancel (some s.ctx) e) 1)
read_failed-Pays env s none e =
    let called = note (on_read_error env.err) e in
    let q = signal-IsKept Quiet-IsKept env.signals s s.exit called in
    let e' = signal env.signals s s.exit called in
    let l = leave-Pays env.shutdown none false s e' 0 in
    if_cases (Pays e 1) (session_done e' s)
      (λ done. record { paid = omega (arith, q.reads, q.handled, l.paid) })
      (λ live. record { paid = omega (arith, q.reads, q.handled) })

begin_read-Pays : (env : ShutdownEnv) (s : Session) (e : Engine) → Pays e 0 (begin_read env s e)
unfolding begin_read
begin_read-Pays env s e =
    if_cases (Pays e 0) (session_done e s) (λ done. leave-Pays env none true s e 0)
      (λ live. record { paid = omega arith })

end_read-Pays : (env : ReadEnv) (s : Session) (e : Engine) → Pays e 1 (end_read env s e)
unfolding end_read
end_read-Pays env s e =
    if_cases (Pays e 1) (session_done e s) (λ done. leave-Pays env.shutdown none true s e 1)
      (λ live.
        if_cases (Pays e 1) (is_nil env.err) (λ ok. record { paid = omega arith })
          (λ failed. read_failed-Pays env s (as_close_error env.err) e))

process-Pays :
    (sg : Signals) (s : Session) (ty : MessageType) (msg : List ℕ) (e : Engine)
    → Pays e 1 (process sg s ty msg e)
unfolding process
process-Pays sg s ty msg e =
    let q = signal-IsKept Quiet-IsKept sg s e.engine_stop_func (note (on_message s.ctx ty msg) e) in
    record { paid = omega (arith, q.reads, q.handled) }

Move-Pays :
    {e : Engine} {m : Lock} {th : Thread} {r : Engine × Pc} {m' : Lock}
    → Move e m th r m'
    → Pays e (owes th.pc) r
Move-Pays {e} {m} {th} (locks env at idle eq lock) = rw (at, eq) (begin_read-Pays env th.session e)
Move-Pays {e} {m} {th} (returns env at eq lock) = rw (at, eq) (end_read-Pays env th.session e)
Move-Pays {e} {m} {th} (handles sg ty msg at eq lock) =
    rw (at, eq) (process-Pays sg th.session ty msg e)

owed-fresh : (ss : List Session) → owed (map thread_of ss) ≡ 0
owed-fresh [] = refl
owed-fresh (s ∷ ss) = omega (arith, owed-fresh ss)

with_engine-Covers :
    (s : System) {e' : Engine} → Quiet s.engine e' → Covers s → Covers (with_engine s e')
with_engine-Covers s {e'} q h =
    let news = fresh_readers s.engine e' in
    omega (
      arith,
      q.reads,
      q.handled,
      sum_of-append (λ th. owes (Thread.pc th)) (map thread_of news) s.threads,
      owed-fresh news,
      h,
    )

owed-at :
    (before after : List Thread) (th : Thread)
    → owed (before ++ (th ∷ after)) ≡ owed before + (owes th.pc + owed after)
owed-at before after th = sum_of-append (λ t. owes (Thread.pc t)) before (th ∷ after)

Step-Covers : {s t : System} → Step s t → Covers s → Covers t
unfolding renew_ctx
Step-Covers {s} (renews eq) h = subst Covers (sym eq) h
Step-Covers {s} (starts env restart exit mine old eq) h =
    subst Covers (sym eq) (with_engine-Covers s (Quiet-IsKept.starts env restart exit s.engine) h)
Step-Covers {s} (stops env eq) h =
    subst Covers (sym eq) (with_engine-Covers s (stop-IsKept Quiet-IsKept env s.engine) h)
Step-Covers {s} (restarts f exit k rounds pending old eq) h =
    subst Covers (sym eq)
      (with_engine-Covers s (restart_engine-IsKept Quiet-IsKept f exit k rounds s.engine) h)
Step-Covers {s} (cancels c old eq) h =
    let q = cancel-IsKept Quiet-IsKept c s.engine in
    subst Covers (sym eq) (omega (arith, q.reads, q.handled, h))
Step-Covers {s} (user_locks idle eq) h = subst Covers (sym eq) h
Step-Covers {s} (user_unlocks idle eq) h = subst Covers (sym eq) h
Step-Covers {s} (reader before after th r m' at move eq) h =
    let moved : Thread = record { session = th.session; pc = r.1 } in
    subst Covers (sym eq) (
      omega (
        arith,
        owed-at before after th,
        owed-at before after moved,
        ap owed at,
        (Move-Pays move).paid,
        h,
      ))

-- In every reachable state, conn.Read was called at least as often as OnMessage and OnReadError
-- together and the readers that are still in a read or before the call of OnMessage: no result of a
-- read is handed on twice.
pub reads_cover :
    {opts : WebsocketEngineConfigurationOptions} {s : System}
    → Reach opts s
    → count is_handled s.engine.calls + owed s.threads ≤ count is_read s.engine.calls
reads_cover here = omega arith
reads_cover (next r st) = Step-Covers st (reads_cover r)
