-- ===== src/Config/Validation.antt =====
-- Which options Validate accepts, and what the setters build.
use gowsclient.Base.{ℤ, IsAtLeast, ◌≡◌, refl, ◌↔◌, Bool, true, Option, none, some, arith}
use gowsclient.Errors.{is_nil}
use gowsclient.Config.{
  WebsocketEngineConfigurationOptions, with_reader_routines_count, with_auto_reconnect,
  with_auto_reconnect_retry_delay_base_seconds, with_auto_reconnect_retry_delay_max_exponent,
  with_on_open_timeout_ms, with_stop_timeout_ms, default_options, Validator, validate,
}

-- The conditions that the comment of Validate lists.
pub record IsValid (o : WebsocketEngineConfigurationOptions) : Type 0 where
  pub readers : IsAtLeast 1 o.reader_routines_count
  pub base : IsAtLeast 1 o.auto_reconnect_retry_delay_base_seconds
  pub exponent : IsAtLeast 1 o.auto_reconnect_retry_delay_max_exponent
  pub on_open : IsAtLeast 0 o.on_open_timeout_ms
  pub stop : IsAtLeast 0 o.stop_timeout_ms

abbrev pub IsValidPointer : Option WebsocketEngineConfigurationOptions → Type 0
IsValidPointer none = ⊥
IsValidPointer (some o) = IsValid o

-- Validate returns nil exactly on a non-nil pointer to options with at least one reader, a retry
-- base and a maximal exponent of at least 1 and no negative timeout.
pub validate_iff :
    (v : Validator) (o : Option WebsocketEngineConfigurationOptions)
    → (is_nil (validate v o) ≡ true) ↔ IsValidPointer o
unfolding validate
validate_iff v none = (λ e. ground (arith, v.struct_nil), λ h. absurd h)
validate_iff v (some o) = (
  λ e.
      let h = (v.struct_iff _).0 e in
      record {
        readers = h.0;
        base = h.1.0;
        exponent = h.1.1.0;
        on_open = h.1.1.1.0;
        stop = h.1.1.1.1.0;
      },
  λ h. (v.struct_iff _).1 (h.readers, (h.base, (h.exponent, (h.on_open, (h.stop, tt))))),
)

-- The options that NewWebsocketEngineConfigurationOptions returns pass Validate.
pub default_options-validate : (v : Validator) → is_nil (validate v (some default_options)) ≡ true
default_options-validate v = (validate_iff v (some default_options)).1 (record {
  readers = omega arith;
  base = omega arith;
  exponent = omega arith;
  on_open = omega arith;
  stop = omega arith;
})

-- A chain of the six setters, in the order of the file and on any options, gives each field the
-- value that was passed for it.
setters_chain :
    (o : WebsocketEngineConfigurationOptions) (readers base exponent on_open stop : ℤ) (auto : Bool)
    → with_stop_timeout_ms stop (
        with_on_open_timeout_ms on_open (
          with_auto_reconnect_retry_delay_max_exponent exponent (
            with_auto_reconnect_retry_delay_base_seconds base
              (with_auto_reconnect auto (with_reader_routines_count readers o)))))
      ≡ record {
        reader_routines_count = readers;
        auto_reconnect = auto;
        auto_reconnect_retry_delay_base_seconds = base;
        auto_reconnect_retry_delay_max_exponent = exponent;
        on_open_timeout_ms = on_open;
        stop_timeout_ms = stop;
      }
unfolding with_reader_routines_count with_auto_reconnect
    with_auto_reconnect_retry_delay_base_seconds with_auto_reconnect_retry_delay_max_exponent
    with_on_open_timeout_ms with_stop_timeout_ms
setters_chain o readers base exponent on_open stop auto = refl
