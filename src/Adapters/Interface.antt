-- ===== src/Adapters/Interface.antt =====
-- WebsocketConnectionAdapterInterface of
-- wscengine/wsadapters/websocket_connection_adapter_interface.go: the methods, as functions of a
-- state of the adapter and its surroundings, and what its comments ask of the connection.
use gowsclient.Base.{ℕ, String, ◌≡◌, Bool, true, false, Option, none, some, List}
use gowsclient.Errors.{Error, is_nil, as_close_error}
use gowsclient.Adapters.Constants.{StatusCode, MessageType}

pub record ReadResult : Type 0 where
  pub msg_type : MessageType
  pub msg : List ℕ
  pub err : Error

-- What GetUnderlyingWebsocketConnection returns: a Go `any` that holds a pointer of the library's
-- type. It is not a nil `any`, also if the pointer is nil.
pub data AnyConn (Conn : Type 0) : Type 0 where
  pointer : Option Conn → AnyConn Conn

-- What a call of Ping meets: the context's error at its first look, that at a second look before
-- the ping is sent and the choice of that select if it can go on as well, and what ends the wait
-- for the pong: nil for a pong, else the error of a closed connection or of the context.
pub record PingEnv : Type 0 where
  pub ctx : Error
  pub queue_ctx : Error
  pub prefers_ctx : Bool
  pub answer : Error

-- Whether an error is a WebsocketCloseError, or wraps one.
abbrev pub is_close_error : Error → Bool
is_close_error e = elim (as_close_error e) [ none ↦ false | some _ ↦ true ]

-- A context is given by its error when the method looks at it: nil if it is not done.
pub record ConnectionAdapter (W Url Response : Type 0) : Type 0 where
  pub dial : Error → Url → W → W × Option Response × Error
  pub close : StatusCode → String → W → W × Error
  pub ping : PingEnv → W → W × Error
  pub read : Error → W → W × ReadResult
  pub write : Error → MessageType → List ℕ → W → W × Error
  -- whether a connection is set
  pub connected : W → Bool
  pub dial_again :
      (ctx : Error) (url : Url) (w : W)
      → connected w ≡ true
      → (is_nil (dial ctx url w).2 ≡ false) × (connected (dial ctx url w).0 ≡ true)
  pub dial_opens :
      (ctx : Error) (url : Url) (w : W)
      → connected (dial ctx url w).0 ≡ true
      → connected w ≡ false
      → is_nil (dial ctx url w).2 ≡ true
  pub dial_succeeds :
      (ctx : Error) (url : Url) (w : W)
      → is_nil (dial ctx url w).2 ≡ true
      → connected (dial ctx url w).0 ≡ true
  pub close_drops :
      (code : StatusCode) (reason : String) (w : W) → connected (close code reason w).0 ≡ false
  pub close_again :
      (code : StatusCode) (reason : String) (w : W)
      → connected w ≡ false
      → is_nil (close code reason w).1 ≡ false
  pub ping_keeps : (env : PingEnv) (w : W) → connected (ping env w).0 ≡ connected w
  pub ping_closed : (env : PingEnv) (w : W) → connected w ≡ false → is_nil (ping env w).1 ≡ false
  pub ping_expired : (env : PingEnv) (w : W) → is_nil env.ctx ≡ false → (ping env w).1 ≡ env.ctx
  pub read_keeps :
      (ctx : Error) (w : W)
      → is_close_error (read ctx w).1.err ≡ false
      → connected (read ctx w).0 ≡ connected w
  pub read_drops :
      (ctx : Error) (w : W)
      → is_close_error ctx ≡ false
      → is_close_error (read ctx w).1.err ≡ true
      → connected (read ctx w).0 ≡ false
  pub write_keeps :
      (ctx : Error) (ty : MessageType) (msg : List ℕ) (w : W)
      → connected (write ctx ty msg w).0 ≡ connected w
