-- ===== src/Engine/Starters/Counts.antt =====
-- What overlapping calls of Start of wscengine/websocket_engine.go have opened.
use gowsclient.Base.{
  ℕ, suc, ◌+◌, ◌≤◌, ◌≡◌, refl, ap, subst, ◌∙◌, false, Option, none, some, ◌∷◌, length, replicate,
  length-append, length-replicate, if◌then◌else◌, if_cases, arith,
}
use gowsclient.Errors.{Error, is_nil}
use gowsclient.Config.{WebsocketEngineConfigurationOptions}
use gowsclient.Engine.State.{Engine, dial, on_open, note, cancel}
use gowsclient.Engine.Calls.{count, is_on_open}
use gowsclient.Engine.Shutdown.{ShutdownEnv, shutdown_engine}
use gowsclient.Engine.Start.{
  StartEnv, routines, new_session, renew_ctx, launch, open_session, start_engine,
}
use gowsclient.Engine.Stop.{StopEnv, stop, begin_stop, after_shutdown, wait_stopped}

-- What Stop and the cancel functions leave alone.
pub record Quiet (e e' : Engine) : Type 0 where
  pub readers : e'.readers ≡ e.readers
  pub opts : e'.engine_cfg_opts ≡ e.engine_cfg_opts
  pub opens : count is_on_open e'.calls ≡ count is_on_open e.calls

pub cancel-Quiet : (c : Option ℕ) (e : Engine) → Quiet e (cancel c e)
cancel-Quiet none e = record { readers = refl; opts = refl; opens = refl }
cancel-Quiet (some c) e = record { readers = refl; opts = refl; opens = refl }

pub renew_ctx-Quiet : (e : Engine) → Quiet e (renew_ctx e)
unfolding renew_ctx
renew_ctx-Quiet e = record { readers = refl; opts = refl; opens = refl }

shutdown_engine-Quiet :
    (env : ShutdownEnv) (e : Engine) → Quiet e (shutdown_engine env none false e).0
unfolding shutdown_engine
shutdown_engine-Quiet env e = ground arith

begin_stop-Quiet : (env : ShutdownEnv) (e : Engine) → Quiet e (begin_stop env e).0
unfolding begin_stop
begin_stop-Quiet env e =
    let c = cancel-Quiet e.engine_stop_func e in
    let stopping = cancel e.engine_stop_func e in
    let s =
      shutdown_engine-Quiet env
        (record stopping { shut_down = stopping.shutdown_sync ∷ stopping.shut_down }) in
    ground (arith, c.readers, c.opts, c.opens, s.readers, s.opts, s.opens)

pub stop-Quiet : (env : StopEnv) (e : Engine) → Quiet e (stop env e).0
unfolding stop after_shutdown wait_stopped
stop-Quiet env e =
    let b = begin_stop-Quiet env.shutdown e in ground (arith, b.readers, b.opts, b.opens)

length-launched :
    (exit : Option ℕ) (e : Engine)
    → length (launch exit e).readers
      ≡ routines e.engine_cfg_opts.reader_routines_count + length e.readers
unfolding launch
length-launched exit e =
    let n = routines e.engine_cfg_opts.reader_routines_count in
    omega (
      arith,
      length-append (replicate n (new_session exit e)) e.readers,
      length-replicate n (new_session exit e),
    )

-- One startEngine: readers are started exactly if it sends nil, and then OnOpen has been called once.
pub record Answers (e e' : Engine) (err : Error) : Type 0 where
  pub opts : e'.engine_cfg_opts ≡ e.engine_cfg_opts
  pub readers :
      length e'.readers
      ≡ (if is_nil err then routines e.engine_cfg_opts.reader_routines_count else 0)
        + length e.readers
  pub opens : (if is_nil err then 1 else 0) + count is_on_open e.calls ≤ count is_on_open e'.calls
  pub opens_once : count is_on_open e'.calls ≤ suc (count is_on_open e.calls)

-- The same behind the dial, where OnOpen is called.
open_session-Answers :
    (env : StartEnv) (exit : Option ℕ) (e : Engine)
    → Answers e (open_session env false exit e).0 (open_session env false exit e).1
unfolding open_session
open_session-Answers env exit e =
    let called = note (on_open false) e in
    let opened = if env.open_exits then cancel exit called else called in
    let q : Quiet called opened =
      if_cases (Quiet called) env.open_exits (λ t. cancel-Quiet exit called)
        (λ t. record { readers = refl; opts = refl; opens = refl }) in
    if_cases (λ (r : Engine × Error). Answers e r.0 r.1) (is_nil env.open_err)
      (λ ok. record {
        opts = q.opts;
        readers =
            subst
              (λ o.
                length (launch exit opened).readers
                ≡ routines (WebsocketEngineConfigurationOptions.reader_routines_count o)
                  + length e.readers)
              q.opts
              (length-launched exit opened
                ∙ ap (λ rs. routines opened.engine_cfg_opts.reader_routines_count + length rs)
                    q.readers);
        opens = omega (arith, q.opens);
        opens_once = omega (arith, q.opens);
      })
      (λ bad. record {
        opts = q.opts;
        readers = omega (arith, ap length q.readers);
        opens = omega (arith, q.opens);
        opens_once = omega (arith, q.opens);
      })

pub start_engine-Answers :
    (env : StartEnv) (exit : Option ℕ) (e : Engine)
    → Answers e (start_engine env false exit e).0 (start_engine env false exit e).1
unfolding start_engine
start_engine-Answers env exit e =
    let o = open_session-Answers env exit (note dial e) in
    ground (arith, o.opts, o.readers, o.opens, o.opens_once)
