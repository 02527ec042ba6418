-- ===== src/Errors/Text.antt =====
-- The texts of errors: the Error methods of wscengine/errors.go and wscengine/wsadapters/errors.go.
use Prim.Native.String.{◌++◌}
use gowsclient.Base.{ℤ, String, ◌≡◌, arith}
use gowsclient.Errors.{Error, nil, errorf, wrapf, engine_start_error, websocket_close_error, unwrap}

-- EngineStartError.Error, given the text of the error that it embeds.
abbrev pub start_error_text : String → String
start_error_text embedded = "websocket engine failed to start: " ++ embedded

-- `show` is the verb %d, and `foreign_text` the text of an error of another package. The verb %v
-- shows the nil error as "<nil>"; the text of an error that fmt.Errorf builds with a `%w` at its
-- end has the text before it, as everywhere in this repository, a colon and a space.
module _ (show : ℤ → String) (foreign_text : Error → String) where
  -- WebsocketCloseError.Error
  abbrev pub close_error_text : ℤ → String → String
  close_error_text code reason = "connection has been closed: " ++ (show code ++ (" - " ++ reason))

  unfoldable pub error_text : Error → String
  error_text nil = "<nil>"
  error_text (errorf text) = text
  error_text (wrapf text e) = text ++ (": " ++ error_text e)
  error_text (engine_start_error e) = start_error_text (error_text e)
  error_text (websocket_close_error code reason e) = close_error_text code reason
  error_text e = foreign_text e

  -- The text of an EngineStartError ends with that of the error that Unwrap returns, whatever it
  -- embeds; that of a WebsocketCloseError does not tell the error that it embeds.
  error_text-unwrap :
      (e f : Error) (code : ℤ) (reason : String)
      → (error_text (engine_start_error e)
          ≡ start_error_text (error_text (unwrap (engine_start_error e))))
        × (error_text (websocket_close_error code reason e)
            ≡ error_text (websocket_close_error code reason f))
  unfolding error_text unwrap
  error_text-unwrap e f code reason = ground arith
