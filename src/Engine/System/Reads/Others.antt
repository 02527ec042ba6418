-- ===== src/Engine/System/Reads/Others.antt =====
-- The functions of wscengine/websocket_engine.go that run outside of the readers neither call
-- conn.Read nor hand on what was read.
use gowsclient.Base.{
  ℕ, ◌≡◌, refl, ap, ◌∙◌, Bool, true, false, Option, List, ◌∷◌, ◌++◌, elem, arith, if_cases,
}
use gowsclient.Engine.State.{
  Engine, Call, CloseMessageDetails, read, on_message, on_read_error, once_do, send_stopped,
}
use gowsclient.Engine.Calls.{count}
use gowsclient.Engine.Kept.{IsKept}
use gowsclient.Engine.Shutdown.{ShutdownEnv, shutdown_engine}
use gowsclient.Engine.Shutdown.Laws.{shutdown_calls, shutdown_engine-calls}
use gowsclient.Engine.Stop.{StopEnv, wait_stopped, after_shutdown}
use gowsclient.Engine.Start.{StartEnv, start_engine}

abbrev pub is_read : Call → Bool
is_read read = true
is_read _ = false

-- The callbacks that are handed what conn.Read returned; OnClose, which is handed a close error, has
-- a count of its own.
abbrev pub is_handled : Call → Bool
is_handled (on_message _ _ _) = true
is_handled (on_read_error _) = true
is_handled _ = false

pub record Quiet (e e' : Engine) : Type 0 where
  pub reads : count is_read e'.calls ≡ count is_read e.calls
  pub handled : count is_handled e'.calls ≡ count is_handled e.calls

pub Quiet-refl : (e : Engine) → Quiet e e
Quiet-refl e = record { reads = refl; handled = refl }

pub Quiet-trans : {a b c : Engine} → Quiet a b → Quiet b c → Quiet a c
Quiet-trans f g = record { reads = g.reads ∙ f.reads; handled = g.handled ∙ f.handled }

counts-shutdown_calls :
    (env : ShutdownEnv) (msg : Option CloseMessageDetails) (skip : Bool) (cs : List Call)
    → (count is_read (shutdown_calls env msg skip ++ cs) ≡ count is_read cs)
      × (count is_handled (shutdown_calls env msg skip ++ cs) ≡ count is_handled cs)
counts-shutdown_calls env msg skip cs = ground arith

shutdown_engine-Quiet :
    (env : ShutdownEnv) (msg : Option CloseMessageDetails) (skip : Bool) (e : Engine)
    → Quiet e (shutdown_engine env msg skip e).0
shutdown_engine-Quiet env msg skip e =
    let counts = counts-shutdown_calls env msg skip e.calls in
    record {
      reads = ap (count is_read) (shutdown_engine-calls env msg skip e) ∙ counts.0;
      handled = ap (count is_handled) (shutdown_engine-calls env msg skip e) ∙ counts.1;
    }

once_do-Quiet :
    (once : ℕ) (env : ShutdownEnv) (msg : Option CloseMessageDetails) (skip : Bool) (e : Engine)
    → Quiet e (once_do once (shutdown_engine env msg skip) e).0
unfolding once_do
once_do-Quiet once env msg skip e =
    if_cases (λ (r : Engine × Bool). Quiet e r.0) (elem once e.shut_down) (λ done. Quiet-refl e)
      (λ new.
        let q = shutdown_engine-Quiet env msg skip (record e { shut_down = once ∷ e.shut_down }) in
        record { reads = q.reads; handled = q.handled })

start_engine-Quiet :
    (env : StartEnv) (restart : Bool) (exit : Option ℕ) (e : Engine)
    → Quiet e (start_engine env restart exit e).0
unfolding start_engine
start_engine-Quiet env restart exit e = ground arith

after_shutdown-Quiet : (env : StopEnv) (r : Engine × Bool) → Quiet r.0 (after_shutdown env r).0
unfolding after_shutdown wait_stopped
after_shutdown-Quiet env r = ground arith

send_stopped-Quiet : (e : Engine) → Quiet e (send_stopped e).0
unfolding send_stopped
send_stopped-Quiet e = ground arith

pub Quiet-IsKept : IsKept Quiet
Quiet-IsKept = record {
  same = Quiet-refl;
  then_on = Quiet-trans;
  cancels = λ c e. record { reads = refl; handled = refl };
  shuts = once_do-Quiet;
  waits = after_shutdown-Quiet;
  starts = start_engine-Quiet;
  sleeps = λ d e. record { reads = refl; handled = refl };
  fails = λ err k e. record { reads = refl; handled = refl };
  sends = send_stopped-Quiet;
}
