-- ===== src/Example/Tracer.antt =====
-- ProvideTracerProvider of example/client/providers/provide_tracer_provider.go.
use text.Mathlib.Text.{◌==◌}
use gowsclient.Base.{
  ◌≡◌, ◌⊎◌, ◌↔◌, refl, inl, inr, String, Bool, true, false, ◌||◌, Option, none, some, if◌then◌else◌,
  arith,
}
use gowsclient.Errors.{Error}
use gowsclient.Example.Configuration.{Configuration}

-- strings.ToLower, the exporter of the package otlptracehttp, given its endpoint, and the provider of
-- the OpenTelemetry SDK over an exporter, which is given the service's name and environment.
pub record Library : Type 1 where
  pub Exporter : Type 0
  pub Provider : Type 0
  pub to_lower : String → String
  pub new_exporter : (endpoint : String) → Error ⊎ Exporter
  pub new_provider : Exporter → (service environment : String) → Provider

abbrev pub is_tracing_enabled : (to_lower : String → String) → Configuration → Bool
is_tracing_enabled to_lower config =
    (to_lower config.tracing_enabled == "true") || (config.tracing_enabled == "1")

module _ (lib : Library) where
  open lib use {Exporter, Provider, to_lower, new_exporter, new_provider}

  abbrev pub with_exporter :
      Option Provider → Error ⊎ Exporter → Option Provider × (Error ⊎ Option Provider)
  with_exporter global (inl err) = (global, inl err)
  with_exporter global (inr exp) =
      let tp = new_provider exp "wsclient.example.client" "production" in (some tp, inr (some tp))

  -- With the global provider of the package otel, which is handed in and returned. A nil provider is
  -- `none`.
  unfoldable pub provide_tracer_provider :
      Configuration → (global : Option Provider) → Option Provider × (Error ⊎ Option Provider)
  provide_tracer_provider config global =
      if is_tracing_enabled to_lower config
      then with_exporter global (new_exporter config.jaeger_tracing_backend_endpoint)
      else (global, inr none)

  -- NewWebsocketEngine takes the global provider in place of a nil one.
  abbrev pub or_global : Option Provider → Option Provider → Option Provider
  or_global global none = global
  or_global global (some tp) = some tp

  -- Whether tracing is enabled or not, the provider that the engine comes to use is the global one.
  provide_tracer_provider_global :
      (config : Configuration) (global global' given : Option Provider)
      → provide_tracer_provider config global ≡ (global', inr given)
      → or_global global' given ≡ global'
  unfolding provide_tracer_provider
  provide_tracer_provider_global config global global' given h = ground (arith, h)

  -- Whether there is a provider, nil or not, and no error.
  abbrev pub HasTracer : Error ⊎ Option Provider → Type 0
  HasTracer (inl err) = ⊥
  HasTracer (inr tp) = Unit

  abbrev pub IsMade : Error ⊎ Exporter → Type 0
  IsMade (inl err) = ⊥
  IsMade (inr exp) = Unit

  abbrev pub CanTrace : Configuration → Type 0
  CanTrace config =
      (is_tracing_enabled to_lower config ≡ false)
      ⊎ IsMade (new_exporter config.jaeger_tracing_backend_endpoint)

  pub provide_tracer_provider-CanTrace :
      (config : Configuration) (global : Option Provider)
      → HasTracer (provide_tracer_provider config global).1 ↔ CanTrace config
  unfolding provide_tracer_provider
  provide_tracer_provider-CanTrace config global =
      traced (is_tracing_enabled to_lower config)
        (new_exporter config.jaeger_tracing_backend_endpoint)
    where
      traced :
          (b : Bool) (p : Error ⊎ Exporter)
          → HasTracer (if b then with_exporter global p else (global, inr none)).1
            ↔ ((b ≡ false) ⊎ IsMade p)
      traced true (inl err) = (λ h. absurd h, λ h. ground (arith, h))
      traced true (inr exp) = (λ h. inr tt, λ h. tt)
      traced false p = (λ h. inl refl, λ h. tt)
