-- ===== src/Config.antt =====
-- wscengine/websocket_engine_configuration.go: the options, their defaults and setters, and their
-- validation. The validator package is a parameter: it is handed the rules of the struct tags.
use gowsclient.Base.{
  ℕ, ℤ, pos, String, ◌≡◌, ◌↔◌, Bool, true, false, Option, none, some, List, [], ◌∷◌, IsAtLeast, All,
}
use gowsclient.Errors.{Error, is_nil}
pub mod Validation
pub mod Timeouts
pub mod Delay

pub record WebsocketEngineConfigurationOptions : Type 0 where
  pub reader_routines_count : ℤ
  pub auto_reconnect : Bool
  pub auto_reconnect_retry_delay_base_seconds : ℤ
  pub auto_reconnect_retry_delay_max_exponent : ℤ
  pub on_open_timeout_ms : ℤ
  pub stop_timeout_ms : ℤ

unfoldable pub with_reader_routines_count :
    ℤ → WebsocketEngineConfigurationOptions → WebsocketEngineConfigurationOptions
with_reader_routines_count value opts = record opts { reader_routines_count = value }

unfoldable pub with_auto_reconnect :
    Bool → WebsocketEngineConfigurationOptions → WebsocketEngineConfigurationOptions
with_auto_reconnect value opts = record opts { auto_reconnect = value }

unfoldable pub with_auto_reconnect_retry_delay_base_seconds :
    ℤ → WebsocketEngineConfigurationOptions → WebsocketEngineConfigurationOptions
with_auto_reconnect_retry_delay_base_seconds value opts = record opts {
  auto_reconnect_retry_delay_base_seconds = value;
}

unfoldable pub with_auto_reconnect_retry_delay_max_exponent :
    ℤ → WebsocketEngineConfigurationOptions → WebsocketEngineConfigurationOptions
with_auto_reconnect_retry_delay_max_exponent value opts = record opts {
  auto_reconnect_retry_delay_max_exponent = value;
}

unfoldable pub with_on_open_timeout_ms :
    ℤ → WebsocketEngineConfigurationOptions → WebsocketEngineConfigurationOptions
with_on_open_timeout_ms value opts = record opts { on_open_timeout_ms = value }

unfoldable pub with_stop_timeout_ms :
    ℤ → WebsocketEngineConfigurationOptions → WebsocketEngineConfigurationOptions
with_stop_timeout_ms value opts = record opts { stop_timeout_ms = value }

-- NewWebsocketEngineConfigurationOptions
abbrev pub default_options : WebsocketEngineConfigurationOptions
default_options = record {
  reader_routines_count = pos 4;
  auto_reconnect = true;
  auto_reconnect_retry_delay_base_seconds = pos 5;
  auto_reconnect_retry_delay_max_exponent = pos 1;
  on_open_timeout_ms = pos 300000;
  stop_timeout_ms = pos 300000;
}

-- A field with a `validate:"gte=…"` tag.
pub record Rule : Type 0 where
  pub field : String
  pub value : ℤ
  pub gte : ℕ

unfoldable pub rules : WebsocketEngineConfigurationOptions → List Rule
rules o =
    record { field = "ReaderRoutinesCount"; value = o.reader_routines_count; gte = 1 }
    ∷ record {
      field = "AutoReconnectRetryDelayBaseSeconds";
      value = o.auto_reconnect_retry_delay_base_seconds;
      gte = 1;
    }
    ∷ record {
      field = "AutoReconnectRetryDelayMaxExponent";
      value = o.auto_reconnect_retry_delay_max_exponent;
      gte = 1;
    }
    ∷ record { field = "OnOpenTimeoutMs"; value = o.on_open_timeout_ms; gte = 0 }
    ∷ record { field = "StopTimeoutMs"; value = o.stop_timeout_ms; gte = 0 }
    ∷ []

-- What the documentation of validator says of Struct: a nil pointer is an error, and a struct is
-- accepted exactly when each field meets its rule.
pub record Validator : Type 0 where
  pub struct : Option (List Rule) → Error
  pub struct_nil : is_nil (struct none) ≡ false
  pub struct_iff :
      (rs : List Rule)
      → (is_nil (struct (some rs)) ≡ true) ↔ All (λ r. IsAtLeast (Rule.gte r) (Rule.value r)) rs

-- Validate; `none` is the nil pointer.
unfoldable pub validate : Validator → Option WebsocketEngineConfigurationOptions → Error
unfolding rules
validate v none = v.struct none
validate v (some opts) = v.struct (some (rules opts))
