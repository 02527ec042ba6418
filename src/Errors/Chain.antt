-- ===== src/Errors/Chain.antt =====
-- errors.As, which wscengine/websocket_engine.go calls on the error of conn.Read, as the loop that
-- its documentation describes: it looks at an error, then at what Unwrap returns, up to nil.
use gowsclient.Base.{ℕ, zero, suc, ◌<◌, ◌≡◌, Option, none, some, arith}
use gowsclient.Errors.{
  Error, wrapf, engine_start_error, websocket_close_error, unwrap, CloseError, as_close_error,
}

-- The type test of a WebsocketCloseError.
abbrev pub as_is : Error → Option CloseError
as_is (websocket_close_error code reason err) =
    some (record { code = code; reason = reason; err = err })
as_is _ = none

-- The loop, for at most the given number of errors.
unfoldable pub errors_as : ℕ → Error → Option CloseError
unfolding unwrap
errors_as zero err = none
errors_as (suc n) err = elim (as_is err) [ some c ↦ some c | none ↦ errors_as n (unwrap err) ]

-- How often an error can be unwrapped.
abbrev pub depth : Error → ℕ
depth (wrapf _ e) = suc (depth e)
depth (engine_start_error e) = suc (depth e)
depth (websocket_close_error _ _ e) = suc (depth e)
depth _ = 0

-- Along the Unwrap methods of the two error types the loop finds the outermost WebsocketCloseError
-- of a chain, if there is one, within as many errors as the chain has.
errors_as-as_close_error :
    (n : ℕ) (err : Error) → depth err < n → errors_as n err ≡ as_close_error err
unfolding errors_as as_close_error
errors_as-as_close_error zero err h = absurd (omega arith)
errors_as-as_close_error (suc zero) err h = ground arith
errors_as-as_close_error (suc (suc n)) err h =
    ground (arith, errors_as-as_close_error (suc n) (unwrap err))
