-- ===== src/Adapters/Names.antt =====
-- wscengine/wsadapters/tracing.go: the names of the tracer, its spans, event and attributes.
use gowsclient.Base.{String}
use Prim.Native.String.{◌++◌}

abbrev pub pkg_name : String
pkg_name = "gowsclient.wsadapters"

abbrev pub pkg_version : String
pkg_version = "0.0.0"

abbrev pub namespace : String
namespace = "websocket"

abbrev pub span_dial : String
span_dial = namespace ++ "." ++ "dial"

abbrev pub span_close : String
span_close = namespace ++ "." ++ "close"

abbrev pub span_ping : String
span_ping = namespace ++ "." ++ "ping"

abbrev pub span_write : String
span_write = namespace ++ "." ++ "write"

abbrev pub span_read : String
span_read = namespace ++ "." ++ "read"

abbrev pub event_received : String
event_received = namespace ++ "." ++ "message.received"

abbrev pub attr_url : String
attr_url = "url.full"

abbrev pub attr_close_code : String
attr_close_code = namespace ++ "." ++ "close.code"

abbrev pub attr_close_reason : String
attr_close_reason = namespace ++ "." ++ "close.reason"

abbrev pub attr_message_byte_size : String
attr_message_byte_size = namespace ++ "." ++ "message.size"

abbrev pub attr_message_type : String
attr_message_type = namespace ++ "." ++ "message.opcode"
