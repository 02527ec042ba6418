-- ===== src/Example/Life.antt =====
-- The application of example/client from its constructors over the OnStart and the OnStop hook to its
-- end.
use gowsclient.Base.{
  ◌≡◌, refl, ap, sym, subst, String, true, false, Option, List, [], ◌∷◌, ◌++◌, All,
}
use gowsclient.Errors.{Error, nil}
use gowsclient.Tracing.{Status, Span}
use gowsclient.Config.{default_options}
use gowsclient.Adapters.Interface.{ConnectionAdapter}
use gowsclient.Adapters.Gorilla.Adapter
use gowsclient.Adapters.Gorilla.Laws.{gorilla_adapter}
use gowsclient.Adapters.Traced.{traced_adapter}
use gowsclient.Client.{WebsocketClient}
use gowsclient.Client.Traced.{traced_client}
use gowsclient.Engine.State.{new_engine_state}
use gowsclient.Engine.Factory.{Built, builds, bare}
use gowsclient.Engine.Start.{StartCall}
use gowsclient.Engine.Stop.{StopEnv, returns}
use gowsclient.Engine.Composed.{after_calls}
use gowsclient.Engine.Cycles.{IsIdle, IsSmooth}
use gowsclient.Engine.System.Invariant.{init-Inv}
use gowsclient.Example.Callbacks.{ExampleClient}
use gowsclient.Example.Client.{World, example_client}
use gowsclient.Example.StartHook.{hook_returns}
use gowsclient.Example.Hooks.{
  on_start_hook, on_stop_hook, IsRefused, after_refused, on_start_hook-on_stop_hook,
}
use gowsclient.Example.Application.{
  Surroundings, GorillaAdapter, Provider, application, IsReady, application_iff,
}

new_engine_state-IsIdle : IsIdle (new_engine_state default_options)
new_engine_state-IsIdle = record {
  sound = (init-Inv default_options).sound;
  off = refl;
  empty = refl;
  unblocked = refl;
}

module _ (s : Surroundings) (status_text : Status → String)
    (url_text : Adapter.Library.Url (Surroundings.gorilla s) → String) where
  open s use {gorilla}

  abbrev pub EngineAdapter :
      ConnectionAdapter
        (Adapter.GorillaWorld gorilla × List Span)
        (Adapter.Library.Url gorilla)
        (Adapter.Library.Response gorilla)
  EngineAdapter = traced_adapter status_text url_text (gorilla_adapter gorilla)

  abbrev pub EngineClient : WebsocketClient (World × List Span)
  EngineClient = traced_client status_text example_client

  -- The adapter and the client as the application has built them, in a network and with the results
  -- of the writes that are to come; no span has ended yet.
  abbrev pub built_world :
      Built (Adapter.Library.Url gorilla) (GorillaAdapter s) ExampleClient
      → Adapter.Library.Net gorilla
      → List Error
      → (Adapter.GorillaWorld gorilla × List Span) × (World × List Span)
  built_world b net writes = (
    (
      record { adapter = bare b.conn; net = net; active = []; next_listener = 0; received = [] },
      [],
    ),
    ((bare b.wsclient, writes), []),
  )

  -- An application that got its engine, whose server refuses the connection any number of times and
  -- then accepts it with nothing else failing: the adapter has no connection at first, OnStart
  -- returns nil and leaves one in it, and OnStop returns nil and leaves none.
  pub application-life :
      (global : Option (Provider s))
      (b : Built (Adapter.Library.Url gorilla) (GorillaAdapter s) ExampleClient)
      (net : Adapter.Library.Net gorilla) (writes : List Error) (refused : List StartCall)
      (call : StartCall) (env : StopEnv)
      → application s global ≡ builds b
      → All IsRefused refused
      → IsSmooth (call, env)
      → let x = built_world b net writes in
        let waited = after_refused refused b.engine in
        call.run.dial_err
          ≡ (EngineAdapter.dial nil b.target
              (after_calls EngineAdapter EngineClient b.target waited.calls x).0).2
        → let (up, result) = on_start_hook (refused ++ (call ∷ [])) b.engine in
          let (down, stopped) = on_stop_hook env up in
          (EngineAdapter.connected x.0 ≡ false)
          × (result ≡ hook_returns nil)
          × (stopped ≡ returns nil)
          × (EngineAdapter.connected (after_calls EngineAdapter EngineClient b.target up.calls x).0
              ≡ true)
          × (EngineAdapter.connected
                (after_calls EngineAdapter EngineClient b.target down.calls x).0
              ≡ false)
  unfolding Adapter.new_adapter
  application-life global b net writes refused call env built h smooth answers =
      let ready = subst (IsReady s) built (application_iff s global).1 in
      let idle = subst IsIdle (sym ready.3) new_engine_state-IsIdle in
      let life =
        on_start_hook-on_stop_hook EngineAdapter EngineClient b.target refused call env b.engine
          (built_world b net writes) idle h smooth answers in
      (
        ap (λ c. Adapter.is_set gorilla (Adapter.Adapter.conn (bare c))) ready.1,
        life.0,
        life.1,
        life.2,
        life.3,
      )
