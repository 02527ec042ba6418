-- ===== src/Errors.antt =====
-- wscengine/errors.go and wscengine/wsadapters/errors.go: Go's `error` values, the nil error
-- included, the two error types of the repository, and the chain that errors.As follows.
pub mod Chain
pub mod Text
use gowsclient.Base.{ℤ, String, Bool, true, false, Option, none, some, ℕ}

-- `errorf` and `wrapf` are what fmt.Errorf builds without and with a `%w` verb; `foreign n` is an
-- error value of a package outside the repository, told apart by its number.
pub data Error : Type 0 where
  nil : Error
  errorf : String → Error
  wrapf : String → Error → Error
  canceled : Error
  deadline_exceeded : Error
  net_closed : Error
  foreign : ℕ → Error
  engine_start_error : Error → Error
  websocket_close_error : ℤ → String → Error → Error

abbrev pub is_nil : Error → Bool
is_nil nil = true
is_nil _ = false

-- The `Unwrap` methods, and that of the errors which fmt.Errorf builds with `%w`.
unfoldable pub unwrap : Error → Error
unwrap (wrapf _ e) = e
unwrap (engine_start_error e) = e
unwrap (websocket_close_error _ _ e) = e
unwrap _ = nil

-- The fields of a WebsocketCloseError.
pub record CloseError : Type 0 where
  pub code : ℤ
  pub reason : String
  pub err : Error

-- errors.As with a target of type WebsocketCloseError: the first one along the chain.
unfoldable pub as_close_error : Error → Option CloseError
as_close_error (websocket_close_error c r e) = some (record { code = c; reason = r; err = e })
as_close_error (wrapf _ e) = as_close_error e
as_close_error (engine_start_error e) = as_close_error e
as_close_error _ = none
