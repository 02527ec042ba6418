-- ===== src/Tracing/Names.antt =====
-- wscengine/tracing.go: the names of the tracer, its spans, events and attributes.
use gowsclient.Base.{String}
use Prim.Native.String.{◌++◌}

abbrev pub pkg_name : String
pkg_name = "wscengine"

abbrev pub pkg_version : String
pkg_version = "0.0.0"

abbrev pub namespace : String
namespace = "wscengine"

abbrev pub engine_background_namespace : String
engine_background_namespace = namespace ++ ".background"

abbrev pub callbacks_namespace : String
callbacks_namespace = namespace ++ ".callback"

abbrev pub span_engine_start : String
span_engine_start = namespace ++ ".start"

abbrev pub span_engine_stop : String
span_engine_stop = namespace ++ ".stop"

abbrev pub span_engine_background_start : String
span_engine_background_start = engine_background_namespace ++ ".start"

abbrev pub span_engine_on_open : String
span_engine_on_open = callbacks_namespace ++ ".on_open"

abbrev pub span_engine_background_run : String
span_engine_background_run = engine_background_namespace ++ ".run"

abbrev pub span_engine_on_read_error : String
span_engine_on_read_error = callbacks_namespace ++ ".on_read_error"

abbrev pub span_engine_on_message : String
span_engine_on_message = callbacks_namespace ++ ".on_message"

abbrev pub span_engine_on_close : String
span_engine_on_close = callbacks_namespace ++ ".on_close"

abbrev pub span_engine_on_close_error : String
span_engine_on_close_error = callbacks_namespace ++ ".on_close_error"

abbrev pub span_engine_shutdown : String
span_engine_shutdown = engine_background_namespace ++ ".shutdown"

abbrev pub span_engine_restart : String
span_engine_restart = engine_background_namespace ++ ".restart"

abbrev pub span_engine_on_restart_error : String
span_engine_on_restart_error = callbacks_namespace ++ ".on_restart_error"

abbrev pub event_engine_goroutine_exit : String
event_engine_goroutine_exit = namespace ++ ".worker_exit"

abbrev pub event_connection_closed : String
event_connection_closed = namespace ++ ".connection_closed"

abbrev pub event_engine_exit : String
event_engine_exit = namespace ++ ".exit"

abbrev pub attr_close_code : String
attr_close_code = namespace ++ ".close_code"

abbrev pub attr_close_reason : String
attr_close_reason = namespace ++ ".close_reason"

abbrev pub attr_restart : String
attr_restart = namespace ++ ".restart"

abbrev pub attr_session_id : String
attr_session_id = namespace ++ ".session_id"

abbrev pub attr_goroutine_id : String
attr_goroutine_id = namespace ++ ".worker_id"

abbrev pub attr_skip_close_connection : String
attr_skip_close_connection = namespace ++ ".skip_close_connection"

abbrev pub attr_has_close_message : String
attr_has_close_message = namespace ++ ".has_close_message"

abbrev pub attr_msg_length : String
attr_msg_length = namespace ++ ".message.length"

abbrev pub attr_msg_type : String
attr_msg_type = namespace ++ ".message.opcode"

abbrev pub attr_auto_reconnect : String
attr_auto_reconnect = namespace ++ ".auto_reconnect"

abbrev pub attr_retry_count : String
attr_retry_count = namespace ++ ".retry_count"
