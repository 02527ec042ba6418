-- ===== src/Adapters/Gorilla/Adapter.antt =====
-- The methods of GorillaWebsocketConnectionAdapter, in
-- wscengine/wsadapters/gorilla/gorilla_websocket_connection_adapter.go.
use gowsclient.Base.{
  ℕ, ℤ, negsuc, String, Bool, true, false, not, Option, none, some, List, [], ◌∷◌, ◌==◌,
  if◌then◌else◌, ◌≡◌,
}
use gowsclient.Errors.{Error, nil, errorf, websocket_close_error, is_nil, as_close_error}
use gowsclient.Adapters.Constants.{StatusCode, MessageType}
use gowsclient.Adapters.Interface.{ReadResult, AnyConn, pointer}
use gowsclient.Adapters.Gorilla.Listeners.{
  propagate_to_first_active_listener, propagate_to_all_active_listener,
}

-- A control frame that the library handles inside ReadMessage, by calling a handler.
pub data Control : Type 0 where
  pong_frame : Control
  close_frame : ℤ → String → Control

-- gorilla/websocket: its types, the state of its connections and of the network, and the calls that
-- the adapter makes. `close_error_code` is the type assertion to *websocket.CloseError, with the
-- Code of the error; `error_text` is the text of an error.
pub record Library : Type 1 where
  pub Net : Type 0
  pub Conn : Type 0
  pub Dialer : Type 0
  pub Url : Type 0
  pub Header : Type 0
  pub Response : Type 0
  pub default_dialer : Dialer
  pub dial_context : Dialer → Url → Header → Net → Net × Option Response × Conn × Error
  pub write_close : Conn → ℤ → String → Net → Net × Error
  pub write_ping : Conn → Net → Net × Error
  pub read_message : Conn → Net → Net × List Control × ReadResult
  pub write_message : Conn → ℤ → List ℕ → Net → Net × Error
  pub close_error_code : Error → Option ℤ
  pub error_text : Error → String
  -- its errors are not of a type of this repository
  pub read_foreign : (c : Conn) (n : Net) → as_close_error (read_message c n).2.err ≡ none

-- GorillaWebsocketConnectionAdapter, without its mutex.
pub record Adapter (Conn Dialer Header : Type 0) : Type 0 where
  pub conn : Option Conn
  pub dialer : Dialer
  pub request_header : Header
  pub ping_requests : List ℕ  -- oldest first, at most 10

-- The adapter, the library's state, the listeners that wait on their channel, the next channel, and
-- the notifications that were received, newest first.
pub record World (Net Conn Dialer Header : Type 0) : Type 0 where
  pub adapter : Adapter Conn Dialer Header
  pub net : Net
  pub active : List ℕ
  pub next_listener : ℕ
  pub received : List (ℕ × Error)

abbrev pub ping_capacity : ℕ
ping_capacity = 10

abbrev pub without : ℕ → List ℕ → List ℕ
without l [] = []
without l (x ∷ xs) = if l == x then without l xs else x ∷ without l xs

module _ {Net Conn Dialer Header : Type 0} where
  -- A notification ends the wait of its listener.
  abbrev pub deliver :
      List ℕ → Option (ℕ × Error) → World Net Conn Dialer Header → World Net Conn Dialer Header
  deliver left none w = record w { adapter = record (World.adapter w) { ping_requests = left } }
  deliver left (some (l, n)) w = record w {
    adapter = record (World.adapter w) { ping_requests = left };
    active = without l (World.active w);
    received = (l, n) ∷ World.received w;
  }

  unfoldable pub pong_handler : World Net Conn Dialer Header → World Net Conn Dialer Header
  unfolding propagate_to_first_active_listener
  pong_handler w =
      let p = propagate_to_first_active_listener w.active w.adapter.ping_requests nil in
      deliver p.left p.notified w

  -- propagateToAllActiveListener on the adapter's channel.
  unfoldable pub notify_all : Error → World Net Conn Dialer Header → World Net Conn Dialer Header
  unfolding propagate_to_all_active_listener
  notify_all notification w =
      let (left, notified) =
        propagate_to_all_active_listener w.active w.adapter.ping_requests notification in
      deliver left notified w

  unfoldable pub close_handler :
      ℤ → String → World Net Conn Dialer Header → World Net Conn Dialer Header
  unfolding notify_all
  close_handler code text w =
      notify_all (websocket_close_error code text (errorf "close message received from server")) w

  abbrev pub handle : Control → World Net Conn Dialer Header → World Net Conn Dialer Header
  handle pong_frame w = pong_handler w
  handle (close_frame code text) w = close_handler code text w

  abbrev pub handle_all : List Control → World Net Conn Dialer Header → World Net Conn Dialer Header
  handle_all [] w = w
  handle_all (c ∷ cs) w = handle_all cs (handle c w)

module _ (lib : Library) where
  open lib use {
    Net, Conn, Dialer, Url, Header, Response, default_dialer, dial_context, write_close, write_ping,
    read_message, write_message, close_error_code, error_text,
  }

  abbrev pub GorillaWorld : Type 0
  GorillaWorld = World Net Conn Dialer Header

  -- NewGorillaWebsocketConnectionAdapter
  unfoldable pub new_adapter : Option Dialer → Header → Adapter Conn Dialer Header
  new_adapter dialer header = record {
    conn = none;
    dialer = elim dialer [ none ↦ default_dialer | some d ↦ d ];
    request_header = header;
    ping_requests = [];
  }

  abbrev pub with_conn : Option Conn → GorillaWorld → GorillaWorld
  with_conn c w = record w { adapter = record (World.adapter w) { conn = c } }

  abbrev pub is_set : Option Conn → Bool
  is_set none = false
  is_set (some _) = true

  unfoldable pub dial : Error → Url → GorillaWorld → GorillaWorld × Option Response × Error
  dial ctx url w =
      if not (is_nil ctx)
      then (w, none, ctx)
      else if is_set w.adapter.conn
      then (w, none, errorf "a connection has already been established")
      else (let (net, res, conn, err) =
            dial_context w.adapter.dialer url w.adapter.request_header w.net in
          let dialed = record w { net = net } in
          if not (is_nil err) then (dialed, res, err) else (with_conn (some conn) dialed, res, nil))

  -- Close with a connection set.
  unfoldable pub close_conn : Conn → StatusCode → String → GorillaWorld → GorillaWorld × Error
  unfolding notify_all
  close_conn c code reason w =
      let (net, err) = write_close c code reason w.net in
      let told =
        notify_all (websocket_close_error code reason (errorf "client closed the connection"))
          (record w { net = net }) in
      (with_conn none told, err)

  unfoldable pub close : StatusCode → String → GorillaWorld → GorillaWorld × Error
  unfolding close_conn
  close code reason w = elim w.adapter.conn [
    | none ↦ (w, errorf "close failed because no connection is already up")
    | some c ↦ close_conn c code reason w
  ]

  -- What Read makes of the library's result.
  unfoldable pub read_result : Option ℤ → ReadResult → GorillaWorld → GorillaWorld × ReadResult
  read_result (some code) r w = (
    with_conn none w,
    record {
      msg_type = negsuc 0;
      msg = [];
      err = websocket_close_error code (error_text r.err) r.err;
    },
  )
  read_result none r w =
      (w, if is_nil r.err then r else record { msg_type = negsuc 0; msg = []; err = r.err })

  abbrev pub failed_read : Error → ReadResult
  failed_read e = record { msg_type = negsuc 0; msg = []; err = e }

  unfoldable pub read_conn : Conn → GorillaWorld → GorillaWorld × ReadResult
  unfolding read_result
  read_conn c w =
      let (net, controls, r) = read_message c w.net in
      let handled = handle_all controls (record w { net = net }) in
      read_result (if is_nil r.err then none else close_error_code r.err) r handled

  unfoldable pub read : Error → GorillaWorld → GorillaWorld × ReadResult
  unfolding read_conn
  read ctx w = if not (is_nil ctx) then (w, failed_read ctx) else elim w.adapter.conn [
    | none ↦ (w, failed_read (errorf "read failed because no connection is already up"))
    | some c ↦ read_conn c w
  ]

  unfoldable pub write_conn : Conn → MessageType → List ℕ → GorillaWorld → GorillaWorld × Error
  write_conn c ty msg w =
      let (net, err) = write_message c ty msg w.net in (record w { net = net }, err)

  unfoldable pub write : Error → MessageType → List ℕ → GorillaWorld → GorillaWorld × Error
  unfolding write_conn
  write ctx ty msg w = if not (is_nil ctx) then (w, ctx) else elim w.adapter.conn [
    | none ↦ (w, errorf "write failed because no connection is already up")
    | some c ↦ write_conn c ty msg w
  ]

  abbrev pub get_underlying_websocket_connection : GorillaWorld → AnyConn Conn
  get_underlying_websocket_connection w = pointer w.adapter.conn
