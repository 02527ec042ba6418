-- ===== src/Engine/System/Opens.antt =====
-- How often an engine of wscengine/websocket_engine.go calls OnOpen, and how many sessions it opens.
pub mod Callbacks
use gowsclient.Base.{
  ℕ, zero, suc, if◌then◌else◌, ◌+◌, ◌≤◌, ◌≡◌, refl, sym, ap, subst, Bool, Option, none, some, List,
  ◌∷◌, ◌++◌, map, replicate, length, elem, blocks, blocks-replicate, arith, if_cases,
}
use gowsclient.Errors.{Error, is_nil}
use gowsclient.Engine.State.{
  Engine, Session, CloseMessageDetails, note, dial, on_open, once_do, cancel, send_stopped,
}
use gowsclient.Engine.Calls.{count, is_on_open, is_close, is_dial}
use gowsclient.Engine.Kept.{IsKept}
use gowsclient.Engine.Shutdown.{ShutdownEnv, shutdown_engine}
use gowsclient.Engine.Shutdown.Laws.{shutdown_engine-Keeps}
use gowsclient.Engine.Stop.{StopEnv, wait_stopped, after_shutdown}
use gowsclient.Engine.Start.{StartEnv, routines, new_session, launch, open_session, start_engine}
use gowsclient.Engine.Invariant.Defs.{onces}

-- The sessions that a step opens are at most as many as its calls of OnOpen. Its calls of Close and
-- the sessions that it opens are at most as many as its calls of Dial and the sessions that it shuts
-- down.
pub record Opens (e e' : Engine) : Type 0 where
  pub paid :
      blocks (onces e') + count is_on_open e.calls ≤ blocks (onces e) + count is_on_open e'.calls
  pub settled :
      count is_close e'.calls + blocks (onces e') + (count is_dial e.calls + length e.shut_down)
      ≤ count is_close e.calls + blocks (onces e) + (count is_dial e'.calls + length e'.shut_down)

Opens-refl : (e : Engine) → Opens e e
Opens-refl e = record { paid = omega arith; settled = omega arith }

Opens-trans : {a b c : Engine} → Opens a b → Opens b c → Opens a c
Opens-trans f g = record {
  paid = omega (arith, f.paid, g.paid);
  settled = omega (arith, f.settled, g.settled);
}

cancel-Opens : (c : Option ℕ) (e : Engine) → Opens e (cancel c e)
cancel-Opens none e = Opens-refl e
cancel-Opens (some c) e = record { paid = omega arith; settled = omega arith }

-- A shutdown closes the connection at most once.
shutdown_engine-closes :
    (env : ShutdownEnv) (msg : Option CloseMessageDetails) (skip : Bool) (e : Engine)
    → let e' = (shutdown_engine env msg skip e).0 in
      (count is_close e'.calls ≤ suc (count is_close e.calls))
      × (count is_dial e'.calls ≡ count is_dial e.calls)
      × (count is_on_open e'.calls ≡ count is_on_open e.calls)
unfolding shutdown_engine
shutdown_engine-closes env msg skip e = ground arith

once_do-Opens :
    (once : ℕ) (env : ShutdownEnv) (msg : Option CloseMessageDetails) (skip : Bool) (e : Engine)
    → Opens e (once_do once (shutdown_engine env msg skip) e).0
unfolding once_do
once_do-Opens once env msg skip e =
    let marked = record e { shut_down = once ∷ e.shut_down } in
    let (few, dials, opens) = shutdown_engine-closes env msg skip marked in
    let same = shutdown_engine-Keeps env msg skip marked in
    let readers = ap (λ ss. blocks (map Session.shutdown_sync ss)) same.readers in
    if_cases (λ (r : Engine × Bool). Opens e r.0) (elem once e.shut_down) (λ done. Opens-refl e)
      (λ new. record {
        paid = omega (arith, opens, readers);
        settled = omega (arith, few, dials, readers, ap length same.shut_down);
      })

after_shutdown-Opens : (env : StopEnv) (r : Engine × Bool) → Opens r.0 (after_shutdown env r).0
unfolding after_shutdown wait_stopped
after_shutdown-Opens env r = record { paid = ground arith; settled = ground arith }

blocks-launched :
    (n : ℕ) (s : Session) (ss : List Session)
    → blocks (map Session.shutdown_sync (replicate n s ++ ss))
      ≤ suc (blocks (map Session.shutdown_sync ss))
blocks-launched n s ss =
    subst (λ os. blocks os ≤ suc (blocks (map Session.shutdown_sync ss))) (sym (mapped n))
      (blocks-replicate n s.shutdown_sync (map Session.shutdown_sync ss))
  where
    mapped :
        (k : ℕ)
        → map Session.shutdown_sync (replicate k s ++ ss)
          ≡ replicate k s.shutdown_sync ++ map Session.shutdown_sync ss
    mapped zero = refl
    mapped (suc k) = ap (λ os. s.shutdown_sync ∷ os) (mapped k)

launch-blocks :
    (exit : Option ℕ) (e : Engine) → blocks (onces (launch exit e)) ≤ suc (blocks (onces e))
unfolding launch
launch-blocks exit e =
    blocks-launched (routines e.engine_cfg_opts.reader_routines_count) (new_session exit e)
      e.readers

-- Opens, but for the dial before the call of OnOpen.
record OpensDialed (e e' : Engine) : Type 0 where
  paid : blocks (onces e') + count is_on_open e.calls ≤ blocks (onces e) + count is_on_open e'.calls
  settled :
      count is_close e'.calls + blocks (onces e') + (count is_dial e.calls + length e.shut_down)
      ≤ suc (
          count is_close e.calls
          + blocks (onces e)
          + (count is_dial e'.calls + length e'.shut_down))

open_session-OpensDialed :
    (env : StartEnv) (restart : Bool) (exit : Option ℕ) (e : Engine)
    → OpensDialed e (open_session env restart exit e).0
unfolding open_session
open_session-OpensDialed env restart exit e =
    let called = note (on_open restart) e in
    let opened = if env.open_exits then cancel exit called else called in
    let q : Opens called opened =
      if_cases (Opens called) env.open_exits (λ t. cancel-Opens exit called)
        (λ t. Opens-refl called) in
    if_cases (λ (r : Engine × Error). OpensDialed e r.0) (is_nil env.open_err)
      (λ ok. record {
        paid = omega (arith, q.paid, launch-blocks exit opened);
        settled = omega (arith, q.settled, launch-blocks exit opened);
      })
      (λ bad. record { paid = omega (arith, q.paid); settled = omega (arith, q.settled) })

start_engine-Opens :
    (env : StartEnv) (restart : Bool) (exit : Option ℕ) (e : Engine)
    → Opens e (start_engine env restart exit e).0
unfolding start_engine
start_engine-Opens env restart exit e =
    let o = open_session-OpensDialed env restart exit (note dial e) in
    record { paid = ground (arith, o.paid); settled = ground (arith, o.settled) }

send_stopped-Opens : (e : Engine) → Opens e (send_stopped e).0
unfolding send_stopped
send_stopped-Opens e = record { paid = ground arith; settled = ground arith }

pub Opens-IsKept : IsKept Opens
Opens-IsKept = record {
  same = Opens-refl;
  then_on = Opens-trans;
  cancels = λ c e. record { paid = omega arith; settled = omega arith };
  shuts = once_do-Opens;
  waits = after_shutdown-Opens;
  starts = start_engine-Opens;
  sleeps = λ d e. record { paid = omega arith; settled = omega arith };
  fails = λ err k e. record { paid = omega arith; settled = omega arith };
  sends = send_stopped-Opens;
}
