-- ===== src/Examples/Application.antt =====
-- The applications of example/client and example/server, where the server refuses the first
-- connection, and calls of Start that overlap.
use text.Mathlib.Text.{◌==◌}
use gowsclient.Base.{
  ◌+◌, suc, ◌≤◌, ◌≡◌, refl, ◌↔◌, inr, String, true, false, none, some, [], ◌∷◌, ◌++◌, replicate,
  length, sum_of, All, ltb, if◌then◌else◌,
}
use gowsclient.Errors.{nil, foreign, engine_start_error}
use gowsclient.Adapters.Gorilla.Adapter
use gowsclient.Config.{default_options, validate}
use gowsclient.Engine.State.{cancel, session_done}
use gowsclient.Engine.Factory.{new_websocket_engine, Built, decorated, Succeeds}
use gowsclient.Engine.State.{new_engine_state}
use gowsclient.Engine.Start.{StartCall, start, start_engine}
use gowsclient.Engine.Shutdown.{shutdown_engine}
use gowsclient.Engine.Stop.{stop, returns, stop_ctx_err}
use gowsclient.Engine.Calls.{count, is_on_open, is_on_close}
use gowsclient.Engine.Composed.{after_calls}
use gowsclient.Engine.System.Invariant.{init-Inv}
use gowsclient.Engine.Starters.{
  awaits, returned, StartAttempt, Starters, begins, runs, stops, call_stop, Run, here, next, init,
  begin_start, run_starter,
}
use gowsclient.Engine.Starters.Opened.{has_run, has_sent_nil, has_returned_nil, start_opens}
use gowsclient.Engine.Starters.Alternate.{starts-stops}
use gowsclient.Engine.Starters.Retry.{
  already_started, run_both, late_session, start-times_out-start,
}
use gowsclient.Example.Callbacks.{ExampleClient, new_client}
use gowsclient.Example.Configuration.{load_configuration}
use gowsclient.Example.StartHook.{hook_returns, hook_waits}
use gowsclient.Example.Hooks.{on_start_hook, on_stop_hook}
use gowsclient.Engine.Cycles.Exits.{opened_session}
use gowsclient.Example.Timeout.{on_start_hook_times_out}
use gowsclient.Example.Provider.{IsParsed, provide_websocket_client_engine}
use gowsclient.Example.Tracer
use gowsclient.Example.Tracer.{CanTrace}
use gowsclient.Example.Application.{
  Surroundings, GorillaAdapter, HasLogger, application, IsReady, application_iff,
}
use gowsclient.Example.Life.{EngineAdapter, EngineClient, built_world, application-life}
use gowsclient.Examples.Fixtures.{calm, refused, first_call, patient, fresh}
use gowsclient.Examples.Adapters.{gorilla, status_text}
use gowsclient.Examples.Options.{checker}

-- The first dial is refused.
abbrev refusing : Adapter.Library
refusing = record gorilla {
  dial_context = λ d url h n. (suc n, none, n, if ltb n 1 then foreign 7 else nil);
}

abbrev tracing : Tracer.Library
tracing = record {
  Exporter = String;
  Provider = String;
  to_lower = λ text. text;
  new_exporter = λ endpoint. inr endpoint;
  new_provider = λ exporter service environment. service;
}

abbrev surroundings : Surroundings
surroundings = record {
  gorilla = refusing;
  tracing = tracing;
  Logger = Unit;
  new_development = inr tt;
  nil_header = tt;
  parse = λ text. inr text;
  getenv = λ name. if name == "WSCEX_TRACING_ENABLED" then "true" else "wss://localhost";
  validator = checker;
}

application_iff_example :
    (Succeeds (application surroundings none) ↔ (
      CanTrace tracing (load_configuration (Surroundings.getenv surroundings))
      × HasLogger surroundings (inr tt)
      × IsParsed (Surroundings.parse surroundings "wss://localhost")))
    × IsReady surroundings (application surroundings none)
application_iff_example = application_iff surroundings none

abbrev built : Built String (GorillaAdapter surroundings) ExampleClient
built = record {
  target = "wss://localhost";
  conn = decorated (record { conn = none; dialer = tt; request_header = tt; ping_requests = [] });
  wsclient = decorated new_client;
  engine = new_engine_state default_options;
}

abbrev refused_call : StartCall
refused_call = record first_call { run = refused }

application-life_example :
    let a = EngineAdapter surroundings status_text (λ url. url) in
    let c = EngineClient surroundings status_text (λ url. url) in
    let x = built_world surroundings status_text (λ url. url) built 0 [] in
    let (up, result) = on_start_hook (refused_call ∷ first_call ∷ []) fresh in
    let (down, stopped) = on_stop_hook patient up in
    (a.connected x.0 ≡ false)
    × (result ≡ hook_returns nil)
    × (stopped ≡ returns nil)
    × (a.connected (after_calls a c "wss://localhost" up.calls x).0 ≡ true)
    × (a.connected (after_calls a c "wss://localhost" down.calls x).0 ≡ false)
unfolding application Adapter.new_adapter after_calls Adapter.dial start start_engine
    Tracer.provide_tracer_provider provide_websocket_client_engine new_websocket_engine validate
application-life_example =
    application-life surroundings status_text (λ url. url) none built 0 [] (refused_call ∷ [])
      first_call patient refl ((refl, refl, refl, refl, refl), tt) (refl, refl, refl, refl, refl)
      refl

-- One Start that waits, and whose goroutine has then run.
abbrev begun : Starters
begun = begin_start (init default_options)

abbrev waiting_call : StartAttempt
waiting_call = record { exit = some 1; sent = none; caller = awaits }

abbrev ran : Starters
ran = run_starter calm [] waiting_call [] begun

abbrev ran_run : Run (init default_options) ran
unfolding begin_start
ran_run = next (next here (begins refl)) (runs calm [] [] waiting_call refl refl refl refl)

start_opens_example :
    (length ran.engine.readers ≡ sum_of (has_sent_nil 4) ran.attempts)
    × (sum_of (has_sent_nil 1) ran.attempts ≤ count is_on_open ran.engine.calls)
    × (count is_on_open ran.engine.calls ≤ sum_of has_run ran.attempts)
    × All (λ a. has_returned_nil a ≤ has_sent_nil 1 a) ran.attempts
start_opens_example = start_opens ran_run

start-times_out-start_example :
    let t = run_both calm calm (init default_options) in
    let ses = late_session fresh in
    Run (init default_options) t
    × (t.attempts
        ≡ record { exit = some 2; sent = some already_started; caller = returned already_started }
          ∷ record { exit = some 1; sent = some nil; caller = returned (engine_start_error nil) }
          ∷ [])
    × (t.engine.started ≡ true)
    × (t.engine.readers ≡ replicate 4 ses ++ [])
    × (session_done (cancel (some 1) t.engine) ses ≡ false)
    × (session_done (cancel t.engine.engine_stop_func t.engine) ses ≡ true)
start-times_out-start_example =
    start-times_out-start calm calm (init default_options) (init-Inv default_options).sound refl
      refl refl refl refl

-- A Stop of it, in time.
abbrev ended : Starters
ended = call_stop patient ran

starts-stops_example :
    sum_of (has_sent_nil 1) ended.attempts
    ≡ count is_on_close ended.engine.calls + (if ended.engine.started then 1 else 0)
unfolding call_stop start stop run_starter begin_start shutdown_engine
starts-stops_example =
    starts-stops (next ran_run (stops patient refl refl)) (((tt, tt), refl), tt) refl

on_start_hook_times_out_example :
    let (up, result) =
      on_start_hook (record first_call { gives_up = true } ∷ first_call ∷ first_call ∷ []) fresh in
    let (down, stopped) = on_stop_hook patient up in
    (result ≡ hook_waits)
    × (up.started ≡ true)
    × (up.readers ≡ replicate 4 (opened_session fresh) ++ [])
    × (stopped ≡ returns nil)
    × (session_done down (opened_session fresh) ≡ false)
unfolding stop_ctx_err
on_start_hook_times_out_example =
    on_start_hook_times_out (record first_call { gives_up = true }) first_call (first_call ∷ [])
      patient fresh
      (record {
        sound = (init-Inv default_options).sound;
        off = refl;
        empty = refl;
        unblocked = refl;
      })
      (refl, refl, refl, refl, refl, refl) (inr refl, (inr refl, tt)) refl
