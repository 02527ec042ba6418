-- ===== src/Example/Configuration.antt =====
-- example/client/configuration/configuration.go, with os.Getenv as a parameter.
use gowsclient.Base.{String}

pub record Configuration : Type 0 where
  pub server_url : String
  pub tracing_enabled : String
  pub jaeger_tracing_backend_endpoint : String

abbrev pub load_configuration : (getenv : String → String) → Configuration
load_configuration getenv = record {
  server_url = getenv "WSCEX_SERVER_URL";
  tracing_enabled = getenv "WSCEX_TRACING_ENABLED";
  jaeger_tracing_backend_endpoint = getenv "WSCEX_TRACING_JAEGER_ENDPOINT";
}
