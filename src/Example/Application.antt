-- ===== src/Example/Application.antt =====
-- The application of example/client: main.go, and the constructors of example/client/providers that
-- it hands to fx. fx calls a constructor when what it provides is needed first, and the error of one
-- ends the application.
use gowsclient.Base.{String, ◌≡◌, ◌⊎◌, ◌↔◌, refl, inl, inr, ap, Option, none, some}
use gowsclient.Errors.{Error, nil}
use gowsclient.Config.{Validator, default_options}
use gowsclient.Adapters.Gorilla.Adapter
use gowsclient.Engine.Factory.{Instrumented, plain, decorated, Result, builds, fails, Succeeds}
use gowsclient.Engine.State.{new_engine_state}
use gowsclient.Example.Callbacks.{ExampleClient, new_client}
use gowsclient.Example.Configuration.{load_configuration}
use gowsclient.Example.Provider.{
  provide_websocket_client_engine, provide_websocket_client_engine-builds, IsParsed, with_parsed,
}
use gowsclient.Example.Tracer
use gowsclient.Example.Tracer.{
  provide_tracer_provider, HasTracer, CanTrace, provide_tracer_provider-CanTrace,
}

-- The libraries, and what they answer: zap.NewDevelopment, url.Parse, os.Getenv and the validator.
-- `nil_header` is the nil http.Header.
pub record Surroundings : Type 1 where
  pub gorilla : Adapter.Library
  pub tracing : Tracer.Library
  pub Logger : Type 0
  pub new_development : Error ⊎ Logger
  pub nil_header : Adapter.Library.Header gorilla
  pub parse : String → Error ⊎ Adapter.Library.Url gorilla
  pub getenv : String → String
  pub validator : Validator

module _ (s : Surroundings) where
  open s use {gorilla, tracing, Logger, new_development, nil_header, parse, getenv, validator}

  abbrev pub GorillaAdapter : Type 0
  GorillaAdapter =
      Adapter.Adapter (Adapter.Library.Conn gorilla) (Adapter.Library.Dialer gorilla)
        (Adapter.Library.Header gorilla)

  abbrev pub Provider : Type 0
  Provider = Tracer.Library.Provider tracing

  -- The context never ends.
  abbrev pub provide_application_context : Error
  provide_application_context = nil

  abbrev pub provide_logger : Error ⊎ Logger
  provide_logger = new_development

  -- It does not use the tracer provider.
  abbrev pub provide_websocket_connection_adapter : Option Provider → Instrumented GorillaAdapter
  provide_websocket_connection_adapter tracer_provider =
      plain (Adapter.new_adapter gorilla none nil_header)

  -- Without the logs and the spans of the client.
  abbrev pub provide_websocket_client : Logger → Option Provider → ExampleClient
  provide_websocket_client logger tracer_provider = new_client

  abbrev with_logger :
      Option Provider
      → Error ⊎ Logger
      → Result (Adapter.Library.Url gorilla) GorillaAdapter ExampleClient
  with_logger tp (inl err) = fails err
  with_logger tp (inr logger) =
      provide_websocket_client_engine parse validator (load_configuration getenv).server_url
        (some (provide_websocket_connection_adapter tp)) (some (provide_websocket_client logger tp))

  abbrev with_tracer :
      Error ⊎ Option Provider → Result (Adapter.Library.Url gorilla) GorillaAdapter ExampleClient
  with_tracer (inl err) = fails err
  with_tracer (inr tp) = with_logger tp provide_logger

  -- What is needed for the engine, in the order of the parameters of ProvideWebsocketClienEngine.
  -- `global` is the tracer provider of the package otel.
  unfoldable pub application :
      (global : Option Provider) → Result (Adapter.Library.Url gorilla) GorillaAdapter ExampleClient
  application global =
      with_tracer (provide_tracer_provider tracing (load_configuration getenv) global).1

  abbrev pub HasLogger : Error ⊎ Logger → Type 0
  HasLogger (inl err) = ⊥
  HasLogger (inr logger) = Unit

  -- The application's engine, with its adapter and its client.
  abbrev pub IsReady : Result (Adapter.Library.Url gorilla) GorillaAdapter ExampleClient → Type 0
  IsReady (builds b) =
      (parse (getenv "WSCEX_SERVER_URL") ≡ inr b.target)
      × (b.conn ≡ decorated (Adapter.new_adapter gorilla none nil_header))
      × (b.wsclient ≡ decorated new_client)
      × (b.engine ≡ new_engine_state default_options)
  IsReady (fails err) = Unit

  provided-IsReady :
      (p : Error ⊎ Adapter.Library.Url gorilla)
      → parse (getenv "WSCEX_SERVER_URL") ≡ p
      → let r =
          provide_websocket_client_engine parse validator
            (getenv "WSCEX_SERVER_URL")
            (some (plain (Adapter.new_adapter gorilla none nil_header)))
            (some new_client) in
        (Succeeds r ↔ IsParsed p) × IsReady r
  unfolding provide_websocket_client_engine
  provided-IsReady (inl err) eq =
      let refused =
        ap
          (λ p.
            with_parsed validator p (some (plain (Adapter.new_adapter gorilla none nil_header)))
              (some new_client))
          eq in
      rw refused ((λ h. h, λ h. h), tt)
  provided-IsReady (inr u) eq =
      rw
        (provide_websocket_client_engine-builds parse validator (getenv "WSCEX_SERVER_URL") u
          (Adapter.new_adapter gorilla none nil_header) new_client eq)
        ((λ h. tt, λ h. tt), (eq, refl, refl, refl))

  with_logger-IsReady :
      (tp : Option Provider) (logger : Error ⊎ Logger)
      → (Succeeds (with_logger tp logger)
          ↔ (HasLogger logger × IsParsed (parse (getenv "WSCEX_SERVER_URL"))))
        × IsReady (with_logger tp logger)
  with_logger-IsReady tp (inl err) = ((λ h. absurd h, λ h. absurd h.0), tt)
  with_logger-IsReady tp (inr logger) =
      let ready = provided-IsReady (parse (getenv "WSCEX_SERVER_URL")) refl in
      ((λ h. (tt, ready.0.0 h), λ h. ready.0.1 h.1), ready.1)

  with_tracer-IsReady :
      (tp : Error ⊎ Option Provider)
      → (Succeeds (with_tracer tp) ↔ (
          HasTracer tracing tp
          × HasLogger new_development
          × IsParsed (parse (getenv "WSCEX_SERVER_URL"))))
        × IsReady (with_tracer tp)
  with_tracer-IsReady (inl err) = ((λ h. absurd h, λ h. absurd h.0), tt)
  with_tracer-IsReady (inr tp) =
      let ready = with_logger-IsReady tp new_development in
      ((λ h. (tt, (ready.0.0 h).0, (ready.0.0 h).1), λ h. ready.0.1 (h.1, h.2)), ready.1)

  -- The application gets its engine exactly if tracing is disabled or its exporter can be made, and
  -- there is a logger, and the configured url can be parsed. What it gets is an engine that is not
  -- started, with that url and the default options, over a gorilla adapter that has no connection
  -- and uses the default dialer, and over the example client; both are decorated.
  pub application_iff :
      (global : Option Provider)
      → (Succeeds (application global) ↔ (
          CanTrace tracing (load_configuration getenv)
          × HasLogger new_development
          × IsParsed (parse (getenv "WSCEX_SERVER_URL"))))
        × IsReady (application global)
  unfolding application
  application_iff global =
      let config = load_configuration getenv in
      let ready = with_tracer-IsReady (provide_tracer_provider tracing config global).1 in
      let can = provide_tracer_provider-CanTrace tracing config global in
      (
        (
          λ h. (can.0 (ready.0.0 h).0, (ready.0.0 h).1, (ready.0.0 h).2),
          λ h. ready.0.1 (can.1 h.0, h.1, h.2),
        ),
        ready.1,
      )
