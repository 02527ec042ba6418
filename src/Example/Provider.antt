-- ===== src/Example/Provider.antt =====
-- ProvideWebsocketClienEngine of example/client/providers/provide_websocket_client_engine.go: the
-- engine that it builds. The hooks that it registers are in StartHook; url.Parse is a parameter.
use gowsclient.Base.{String, ap, ◌∙◌, ◌≡◌, refl, ◌⊎◌, ◌↔◌, inl, inr, Option, none, some}
use gowsclient.Errors.{Error}
use gowsclient.Config.{Validator, default_options}
use gowsclient.Config.Validation.{IsValid, validate_iff, default_options-validate}
use gowsclient.Engine.State.{new_engine_state}
use gowsclient.Engine.Factory.{
  Instrumented, plain, decorated, builds, Result, fails, new_websocket_engine, Succeeds, IsGiven,
  new_websocket_engine_iff,
}

-- Whether the url can be parsed.
abbrev pub IsParsed : {Url : Type 0} → Error ⊎ Url → Type 0
IsParsed (inl err) = ⊥
IsParsed (inr u) = Unit

module _ {Url A C : Type 0} where
  abbrev pub with_parsed :
      Validator → Error ⊎ Url → Option (Instrumented A) → Option C → Result Url A C
  with_parsed v (inl err) conn client = fails err
  with_parsed v (inr u) conn client = new_websocket_engine v (some u) conn client none

module _ {Url A C : Type 0} (parse : String → Error ⊎ Url) where
  -- The configuration's server url is parsed, and the engine has the default options.
  unfoldable pub provide_websocket_client_engine :
      Validator → String → Option (Instrumented A) → Option C → Result Url A C
  provide_websocket_client_engine v server_url conn client =
      with_parsed v (parse server_url) conn client

  -- The application gets an engine exactly if the configured url can be parsed and the adapter and
  -- the client are given: the default options are always valid.
  pub provide_websocket_client_engine_iff :
      (v : Validator) (server_url : String) (conn : Option (Instrumented A)) (client : Option C)
      → Succeeds (provide_websocket_client_engine v server_url conn client)
        ↔ (IsParsed (parse server_url) × IsGiven client × IsGiven conn)
  unfolding provide_websocket_client_engine
  provide_websocket_client_engine_iff v server_url conn client = provided (parse server_url)
    where
      default_IsValid : IsValid default_options
      default_IsValid = (validate_iff v (some default_options)).0 (default_options-validate v)

      provided :
          (p : Error ⊎ Url)
          → Succeeds (with_parsed v p conn client) ↔ (IsParsed p × IsGiven client × IsGiven conn)
      provided (inl err) = (λ s. absurd s, λ g. absurd g.0)
      provided (inr u) =
          let iff = (new_websocket_engine_iff v (some u) conn client none).0 in
          (λ s. (tt, (iff.0 s).1, (iff.0 s).2), λ g. iff.1 (tt, g.1, g.2, default_IsValid))

  -- With an adapter that is not decorated.
  pub provide_websocket_client_engine-builds :
      (v : Validator) (server_url : String) (u : Url) (a : A) (c : C)
      → parse server_url ≡ inr u
      → provide_websocket_client_engine v server_url (some (plain a)) (some c)
        ≡ builds (record {
          target = u;
          conn = decorated a;
          wsclient = decorated c;
          engine = new_engine_state default_options;
        })
  unfolding provide_websocket_client_engine new_websocket_engine
  provide_websocket_client_engine-builds v server_url u a c parsed =
      ap (λ p. with_parsed v p (some (plain a)) (some c)) parsed
      ∙ rw (default_options-validate v) refl
