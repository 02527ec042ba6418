-- ===== src/Adapters/Nhooyr.antt =====
-- wscengine/wsadapters/nhooyr/nhooyr_websocket_connection_adapter.go. The library nhooyr.io/websocket
-- is a parameter, its constants included.
use gowsclient.Base.{
  ℕ, ℤ, negsuc, String, Bool, true, false, not, ◌||◌, ◌&&◌, ◌==ℤ◌, ◌≡◌, Option, none, some, List,
  [], if◌then◌else◌,
}
use gowsclient.Errors.{
  Error, nil, errorf, wrapf, net_closed, websocket_close_error, is_nil, as_close_error,
}
use gowsclient.Adapters.Constants.{
  StatusCode, MessageType, normal_closure, going_away, protocol_error, unsupported_data,
  no_status_received, abnormal_closure, invalid_frame_payload_data, policy_violation,
  message_too_big, mandatory_extension, internal_error, tls_handshake, text, binary,
}
use gowsclient.Adapters.Interface.{ReadResult, AnyConn, pointer}
pub mod Conversions
pub mod Laws
pub mod Races

-- The status codes and message types of the library, which are ints.
pub record Constants : Type 0 where
  pub status_normal_closure : ℤ
  pub status_going_away : ℤ
  pub status_protocol_error : ℤ
  pub status_unsupported_data : ℤ
  pub status_no_status_rcvd : ℤ
  pub status_abnormal_closure : ℤ
  pub status_invalid_frame_payload_data : ℤ
  pub status_policy_violation : ℤ
  pub status_message_too_big : ℤ
  pub status_mandatory_extension : ℤ
  pub status_internal_error : ℤ
  pub status_tls_handshake : ℤ
  pub message_text : ℤ
  pub message_binary : ℤ

unfoldable pub convert_to_nhooyr_status_codes : Constants → StatusCode → ℤ
convert_to_nhooyr_status_codes k code =
    if code ==ℤ normal_closure
    then k.status_normal_closure
    else if code ==ℤ going_away
    then k.status_going_away
    else if code ==ℤ protocol_error
    then k.status_protocol_error
    else if code ==ℤ unsupported_data
    then k.status_unsupported_data
    else if code ==ℤ no_status_received
    then k.status_no_status_rcvd
    else if code ==ℤ invalid_frame_payload_data
    then k.status_invalid_frame_payload_data
    else if code ==ℤ policy_violation
    then k.status_policy_violation
    else if code ==ℤ message_too_big
    then k.status_message_too_big
    else if code ==ℤ mandatory_extension
    then k.status_mandatory_extension
    else if code ==ℤ internal_error
    then k.status_internal_error
    else if code ==ℤ tls_handshake
    then k.status_tls_handshake
    else k.status_abnormal_closure

unfoldable pub convert_from_nhooyr_status_codes : Constants → ℤ → StatusCode
convert_from_nhooyr_status_codes k code =
    if code ==ℤ k.status_normal_closure
    then normal_closure
    else if code ==ℤ k.status_going_away
    then going_away
    else if code ==ℤ k.status_protocol_error
    then protocol_error
    else if code ==ℤ k.status_unsupported_data
    then unsupported_data
    else if code ==ℤ k.status_no_status_rcvd
    then no_status_received
    else if code ==ℤ k.status_invalid_frame_payload_data
    then invalid_frame_payload_data
    else if code ==ℤ k.status_policy_violation
    then policy_violation
    else if code ==ℤ k.status_message_too_big
    then message_too_big
    else if code ==ℤ k.status_mandatory_extension
    then mandatory_extension
    else if code ==ℤ k.status_internal_error
    then internal_error
    else if code ==ℤ k.status_tls_handshake
    then tls_handshake
    else abnormal_closure

unfoldable pub convert_to_nhooyr_msg_types : Constants → MessageType → ℤ
convert_to_nhooyr_msg_types k ty = if ty ==ℤ text then k.message_text else k.message_binary

unfoldable pub convert_from_nhooyr_msg_types : Constants → ℤ → MessageType
convert_from_nhooyr_msg_types k ty = if ty ==ℤ k.message_text then text else binary

-- nhooyr.io/websocket: its types, the state of its connections and of the network, and the calls
-- that the adapter makes. A context is given by its error when the library looks at it.
-- `close_status` is -1 on an error that holds no close status; `is_eof` is errors.Is with io.EOF;
-- `wrote_close` compares the text of an error with the one of a repeated close.
pub record Library : Type 1 where
  pub Net : Type 0
  pub Conn : Type 0
  pub Options : Type 0
  pub Url : Type 0
  pub Response : Type 0
  pub constants : Constants
  pub dial : Error → Url → Option Options → Net → Net × Option Response × Conn × Error
  pub close : Conn → ℤ → String → Net → Net × Error
  pub ping : Error → Conn → Net → Net × Error
  pub read : Error → Conn → Net → Net × ReadResult
  pub write : Error → Conn → ℤ → List ℕ → Net → Net × Error
  pub close_status : Error → ℤ
  pub is_eof : Error → Bool
  pub wrote_close : Error → Bool
  pub error_text : Error → String
  -- its errors are not of a type of this repository
  pub read_foreign : (ctx : Error) (c : Conn) (n : Net) → as_close_error (read ctx c n).1.err ≡ none

-- NhooyrWebsocketConnectionAdapter without its mutex, and the library's state.
pub record World (Net Conn Options : Type 0) : Type 0 where
  pub conn : Option Conn
  pub opts : Option Options
  pub net : Net

abbrev pub is_set : {Conn : Type 0} → Option Conn → Bool
is_set none = false
is_set (some _) = true

abbrev pub failed_read : Error → ReadResult
failed_read e = record { msg_type = negsuc 0; msg = []; err = e }

module _ (lib : Library) where
  open lib use {Net, Conn, Options, Url, Response, constants}

  abbrev pub NhooyrWorld : Type 0
  NhooyrWorld = World Net Conn Options

  -- NewNhooyrWebsocketConnectionAdapter
  abbrev pub new_adapter : Option Options → Net → NhooyrWorld
  new_adapter opts net = record { conn = none; opts = opts; net = net }

  unfoldable pub dial : Error → Url → NhooyrWorld → NhooyrWorld × Option Response × Error
  dial ctx url w =
      if not (is_nil ctx)
      then (w, none, ctx)
      else if is_set w.conn
      then (w, none, errorf "a connection has already been established")
      else (let (net, res, conn, err) = Library.dial lib ctx url w.opts w.net in
          let dialed = record w { net = net } in
          if not (is_nil err)
          then (dialed, res, err)
          else (record dialed { conn = some conn }, res, nil))

  -- Close with a connection set.
  unfoldable pub close_conn : Conn → StatusCode → String → NhooyrWorld → NhooyrWorld × Error
  close_conn c code reason w =
      let (net, err) =
        Library.close lib c (convert_to_nhooyr_status_codes constants code) reason w.net in
      (
        record w { net = net; conn = none },
        if not (is_nil err) && Library.wrote_close lib err
            then wrapf "failed to close WebSocket" net_closed
            else err,
      )

  unfoldable pub close : StatusCode → String → NhooyrWorld → NhooyrWorld × Error
  unfolding close_conn
  close code reason w = elim w.conn [
    | none ↦ (w, errorf "close failed because no connection is already up")
    | some c ↦ close_conn c code reason w
  ]

  unfoldable pub ping : Error → NhooyrWorld → NhooyrWorld × Error
  ping ctx w = if not (is_nil ctx) then (w, ctx) else elim w.conn [
    | none ↦ (w, errorf "ping failed because no connection is already up")
    | some c ↦ let (net, err) = Library.ping lib ctx c w.net in (record w { net = net }, err)
  ]

  abbrev pub get_underlying_websocket_connection : NhooyrWorld → AnyConn Conn
  get_underlying_websocket_connection w = pointer w.conn

  abbrev pub has_status : Error → Bool
  has_status e = not (Library.close_status lib e ==ℤ negsuc 0)

  -- Read with a connection set.
  unfoldable pub read_conn : Error → Conn → NhooyrWorld → NhooyrWorld × ReadResult
  read_conn ctx c w =
      let (net, r) = Library.read lib ctx c w.net in
      let done = record w { net = net } in
      if is_nil r.err
      then (
        done,
        record {
          msg_type = convert_from_nhooyr_msg_types constants r.msg_type;
          msg = r.msg;
          err = nil;
        },
      )
      else if has_status r.err || Library.is_eof lib r.err
      then (
        record done { conn = none },
        failed_read (
            if has_status r.err
            then websocket_close_error
                (convert_from_nhooyr_status_codes constants (Library.close_status lib r.err))
                (Library.error_text lib r.err) r.err
            else websocket_close_error abnormal_closure "websocket connection abnormal closure"
                r.err),
      )
      else (done, failed_read r.err)

  unfoldable pub read : Error → NhooyrWorld → NhooyrWorld × ReadResult
  unfolding read_conn
  read ctx w = if not (is_nil ctx) then (w, failed_read ctx) else elim w.conn [
    | none ↦ (w, failed_read (errorf "read failed because no connection is already up"))
    | some c ↦ read_conn ctx c w
  ]

  unfoldable pub write : Error → MessageType → List ℕ → NhooyrWorld → NhooyrWorld × Error
  write ctx ty msg w = if not (is_nil ctx) then (w, ctx) else elim w.conn [
    | none ↦ (w, errorf "write failed because no connection is already up")
    | some c ↦
        let (net, err) =
          Library.write lib ctx c (convert_to_nhooyr_msg_types constants ty) msg w.net in
        (record w { net = net }, err)
  ]
