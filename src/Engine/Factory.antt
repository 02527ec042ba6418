-- ===== src/Engine/Factory.antt =====
-- NewWebsocketEngine of wscengine/websocket_engine.go, with the factories of the two decorators in
-- wscengine/websocket_client_instrumentation_decorator.go and
-- wscengine/wsadapters/websocket_connection_adapter_instrumentation_decorator.go. A nil argument is
-- `none`.
use gowsclient.Base.{
  ◌≡◌, ◌⊎◌, refl, inl, inr, Bool-cases, Bool, true, false, Option, none, some, if◌then◌else◌, ◌↔◌,
}
use gowsclient.Errors.{Error, errorf, is_nil}
use gowsclient.Config.{WebsocketEngineConfigurationOptions, default_options, Validator, validate}
use gowsclient.Config.Validation.{IsValid, validate_iff}
use gowsclient.Engine.State.{Engine, new_engine_state}

-- An adapter or a client as it is given, and with its instrumentation decorator around it.
pub data Instrumented (A : Type 0) : Type 0 where
  plain : A → Instrumented A
  decorated : A → Instrumented A

-- NewWebsocketConnectionAdapterInstrumentationDecorator, NewWebsocketClientInstrumentationDecorator
abbrev pub new_adapter_decorator : {A : Type 0} → Option A → Error ⊎ Instrumented A
new_adapter_decorator none = inl (errorf "provided decorated is nil")
new_adapter_decorator (some a) = inr (decorated a)

abbrev pub new_client_decorator : {C : Type 0} → Option C → Error ⊎ Instrumented C
new_client_decorator none = inl (errorf "provided decorated is nil")
new_client_decorator (some c) = inr (decorated c)

-- An adapter that is decorated already is taken as it is.
abbrev pub decorate : {A : Type 0} → Instrumented A → Error ⊎ Instrumented A
decorate (plain a) = new_adapter_decorator (some a)
decorate (decorated a) = inr (decorated a)

-- The engine's fields that do not change, with its state.
pub record Built (Url A C : Type 0) : Type 0 where
  pub target : Url
  pub conn : Instrumented A
  pub wsclient : Instrumented C
  pub engine : Engine

pub data Result (Url A C : Type 0) : Type 0 where
  builds : Built Url A C → Result Url A C
  fails : Error → Result Url A C

abbrev pub or_default_options :
    Option WebsocketEngineConfigurationOptions → WebsocketEngineConfigurationOptions
or_default_options none = default_options
or_default_options (some o) = o

abbrev pub IsGiven : {X : Type 0} → Option X → Type 0
IsGiven none = ⊥
IsGiven (some x) = Unit

-- What is decorated.
abbrev pub bare : {A : Type 0} → Instrumented A → A
bare (plain a) = a
bare (decorated a) = a

abbrev pub given : {A : Type 0} → Option (Instrumented A) → Option A
given none = none
given (some i) = some (bare i)

module _ {Url A C : Type 0} where
  -- The part behind the validation of the options.
  abbrev pub build :
      Url → Option (Instrumented A) → C → WebsocketEngineConfigurationOptions → Result Url A C
  build url none client o = fails (errorf "provided connection adapter is nil")
  build url (some conn) client o = elim (decorate conn) [
    | inl err ↦ fails err
    | inr conn' ↦ elim (new_client_decorator (some client)) [
      | inl err ↦ fails err
      | inr wsclient ↦
          builds (record {
            target = url;
            conn = conn';
            wsclient = wsclient;
            engine = new_engine_state o;
          })
    ]
  ]

  unfoldable pub new_websocket_engine :
      Validator
      → Option Url
      → Option (Instrumented A)
      → Option C
      → Option WebsocketEngineConfigurationOptions
      → Result Url A C
  new_websocket_engine v none conn client opts = fails (errorf "provided url is nil")
  new_websocket_engine v (some url) conn none opts =
      fails (errorf "provided websocket client is nil")
  new_websocket_engine v (some url) conn (some client) opts =
      let o = or_default_options opts in
      let err = validate v (some o) in if is_nil err then build url conn client o else fails err

  abbrev pub Succeeds : Result Url A C → Type 0
  Succeeds (builds b) = Unit
  Succeeds (fails e) = ⊥

  -- An engine that is not started, with the url and the options, and with the decorated adapter and
  -- client that were given.
  abbrev pub IsFresh :
      Option Url
      → Option (Instrumented A)
      → Option C
      → WebsocketEngineConfigurationOptions
      → Result Url A C
      → Type 0
  IsFresh url conn client o (builds b) =
      (url ≡ some b.target)
      × (given conn ≡ some (bare b.conn))
      × (b.conn ≡ decorated (bare b.conn))
      × (client ≡ some (bare b.wsclient))
      × (b.wsclient ≡ decorated (bare b.wsclient))
      × (b.engine ≡ new_engine_state o)
  IsFresh url conn client o (fails e) = Unit

  -- NewWebsocketEngine succeeds exactly if the url, the adapter and the client are given and the
  -- options, or the defaults if none are given, are valid. What it builds is an engine that is not
  -- started, with the url, these options, and the decorated adapter and client.
  pub new_websocket_engine_iff :
      (v : Validator) (url : Option Url) (conn : Option (Instrumented A)) (client : Option C)
      (opts : Option WebsocketEngineConfigurationOptions)
      → (Succeeds (new_websocket_engine v url conn client opts)
          ↔ (IsGiven url × IsGiven client × IsGiven conn × IsValid (or_default_options opts)))
        × IsFresh url conn client
            (or_default_options opts)
            (new_websocket_engine v url conn client opts)
  unfolding new_websocket_engine
  new_websocket_engine_iff v none conn client opts = ((λ s. absurd s, λ g. absurd g.0), tt)
  new_websocket_engine_iff v (some url) conn none opts = ((λ s. absurd s, λ g. absurd g.1), tt)
  new_websocket_engine_iff v (some url) conn (some client) opts =
      let o = or_default_options opts in
      elim (Bool-cases (is_nil (validate v (some o)))) [
        | inl ok ↦ rw ok (built url conn client o ((validate_iff v (some o)).0 ok))
        | inr bad ↦
            rw bad
              ((λ s. absurd s, λ g. absurd (false_ne ((validate_iff v (some o)).1 g.3) bad)), tt)
      ]
    where
      false_ne : {b : Bool} → b ≡ true → b ≡ false → ⊥
      false_ne h k = cc

      built :
          (url : Url) (conn : Option (Instrumented A)) (client : C)
          (o : WebsocketEngineConfigurationOptions)
          → IsValid o
          → (Succeeds (build url conn client o) ↔ (Unit {0} × Unit {0} × IsGiven conn × IsValid o))
            × IsFresh (some url) conn (some client) o (build url conn client o)
      built url none client o valid = ((λ s. absurd s, λ g. absurd g.2), tt)
      built url (some (plain a)) client o valid =
          ((λ s. (tt, tt, tt, valid), λ g. tt), (refl, refl, refl, refl, refl, refl))
      built url (some (decorated a)) client o valid =
          ((λ s. (tt, tt, tt, valid), λ g. tt), (refl, refl, refl, refl, refl, refl))
