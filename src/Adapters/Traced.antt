-- ===== src/Adapters/Traced.antt =====
-- wscengine/wsadapters/websocket_connection_adapter_instrumentation_decorator.go: the decorator is
-- again an adapter, over the state of the adapter that it decorates and the spans that have ended.
use gowsclient.Base.{
  ℕ, pos, String, ◌≡◌, refl, ap, ◌∙◌, Option, none, some, List, [], ◌∷◌, map, length, if◌then◌else◌,
  arith,
}
use gowsclient.Errors.{Error, nil, is_nil}
use gowsclient.Tracing.{
  Attribute, string_attribute, int_attribute, span_kind_client, Status, error_status, starts,
  record_error, set_status, add_event, ends, Span,
}
use gowsclient.Tracing.Summary.{Summary, summary}
use gowsclient.Adapters.Names.{
  span_dial, span_close, span_ping, span_write, span_read, event_received, attr_url,
  attr_close_code, attr_close_reason, attr_message_byte_size, attr_message_type,
}
use gowsclient.Adapters.Constants.{StatusCode, MessageType}
use gowsclient.Adapters.Interface.{ConnectionAdapter, PingEnv, ReadResult}
use gowsclient.Adapters.Client.{Op, dials, closes, pings, reads, writes, after, run}

-- What a method does on its span for the error of the decorated method.
abbrev pub trace_error : (Status → String) → Error → Span → Span
trace_error status_text err span =
    if is_nil err
    then span
    else set_status error_status (status_text error_status) ∷ record_error err ∷ span

-- The span of a method, of the given name and attributes.
abbrev pub span_of : (Status → String) → String → List Attribute → Error → Span
span_of status_text name attributes err =
    ends ∷ trace_error status_text err (starts name span_kind_client attributes ∷ [])

abbrev pub message_attributes : MessageType → List ℕ → List Attribute
message_attributes ty msg =
    int_attribute attr_message_byte_size (pos (length msg))
    ∷ int_attribute attr_message_type ty
    ∷ []

-- Read adds its event whether or not there is an error.
abbrev pub read_span_of : (Status → String) → MessageType → List ℕ → Error → Span
read_span_of status_text ty msg err =
    ends
    ∷ add_event event_received (message_attributes ty msg)
    ∷ trace_error status_text err (starts span_read span_kind_client [] ∷ [])

-- The summary that the span of a method is to show.
abbrev pub method_summary : String → Error → Summary
method_summary name err = record {
  name = name;
  error = err;
  status = if is_nil err then none else some error_status;
}

summary-span_of :
    (status_text : Status → String) (name : String) (attributes : List Attribute) (err : Error)
    → summary (span_of status_text name attributes err) ≡ method_summary name err
summary-span_of status_text name attributes nil = refl
summary-span_of status_text name attributes err = ground arith

summary-read_span_of :
    (status_text : Status → String) (ty : MessageType) (msg : List ℕ) (err : Error)
    → summary (read_span_of status_text ty msg err) ≡ method_summary span_read err
summary-read_span_of status_text ty msg nil = refl
summary-read_span_of status_text ty msg err = ground arith

module _ {W Url Response : Type 0} (a : ConnectionAdapter W Url Response) where
  -- The summary of a call of the decorated adapter: the name of its span and its error.
  abbrev pub entry : Op Url → W → Summary
  entry (dials ctx url) w = method_summary span_dial (a.dial ctx url w).2
  entry (closes code reason) w = method_summary span_close (a.close code reason w).1
  entry (pings env) w = method_summary span_ping (a.ping env w).1
  entry (reads ctx) w = method_summary span_read (a.read ctx w).1.err
  entry (writes ctx ty msg) w = method_summary span_write (a.write ctx ty msg w).1

  -- The summaries of a sequence of calls of it, newest first, before earlier ones.
  unfoldable pub entries : List (Op Url) → W → List Summary → List Summary
  entries [] w earlier = earlier
  entries (op ∷ ops) w earlier = entries ops (after a op w) (entry op w ∷ earlier)

-- `url_text` is the String method of a URL.
module _ {W Url Response : Type 0} (status_text : Status → String) (url_text : Url → String)
    (a : ConnectionAdapter W Url Response) where
  abbrev pub Traced : Type 0
  Traced = W × List Span

  abbrev pub traced_dial : Error → Url → W × List Span → (W × List Span) × Option Response × Error
  traced_dial ctx url (w, spans) =
      let (w', res, err) = a.dial ctx url w in
      let span =
        span_of status_text span_dial (string_attribute attr_url (url_text url) ∷ []) err in
      ((w', span ∷ spans), res, err)

  abbrev pub traced_close : StatusCode → String → W × List Span → (W × List Span) × Error
  traced_close code reason (w, spans) =
      let (w', err) = a.close code reason w in
      let attributes =
        int_attribute attr_close_code code ∷ string_attribute attr_close_reason reason ∷ [] in
      ((w', span_of status_text span_close attributes err ∷ spans), err)

  abbrev pub traced_ping : PingEnv → W × List Span → (W × List Span) × Error
  traced_ping env (w, spans) =
      let (w', err) = a.ping env w in ((w', span_of status_text span_ping [] err ∷ spans), err)

  abbrev pub traced_read : Error → W × List Span → (W × List Span) × ReadResult
  traced_read ctx (w, spans) =
      let (w', r) = a.read ctx w in
      ((w', read_span_of status_text r.msg_type r.msg r.err ∷ spans), r)

  abbrev pub traced_write : Error → MessageType → List ℕ → W × List Span → (W × List Span) × Error
  traced_write ctx ty msg (w, spans) =
      let (w', err) = a.write ctx ty msg w in
      ((w', span_of status_text span_write (message_attributes ty msg) err ∷ spans), err)

  -- WebsocketConnectionAdapterInstrumentationDecorator meets the interface, if what it decorates does.
  abbrev pub traced_adapter : ConnectionAdapter (W × List Span) Url Response
  traced_adapter = record {
    dial = traced_dial;
    close = traced_close;
    ping = traced_ping;
    read = traced_read;
    write = traced_write;
    connected = λ w. a.connected w.0;
    dial_again = λ ctx url w. a.dial_again ctx url w.0;
    dial_opens = λ ctx url w. a.dial_opens ctx url w.0;
    dial_succeeds = λ ctx url w. a.dial_succeeds ctx url w.0;
    close_drops = λ code reason w. a.close_drops code reason w.0;
    close_again = λ code reason w. a.close_again code reason w.0;
    ping_keeps = λ env w. a.ping_keeps env w.0;
    ping_closed = λ env w. a.ping_closed env w.0;
    ping_expired = λ env w. a.ping_expired env w.0;
    read_keeps = λ ctx w. a.read_keeps ctx w.0;
    read_drops = λ ctx w. a.read_drops ctx w.0;
    write_keeps = λ ctx ty msg w. a.write_keeps ctx ty msg w.0;
  }

  traced_after :
      (op : Op Url) (w : W) (spans : List Span)
      → ((after traced_adapter op (w, spans)).0 ≡ after a op w)
        × (map summary (after traced_adapter op (w, spans)).1 ≡ entry a op w ∷ map summary spans)
  unfolding after
  traced_after (dials ctx url) w spans =
      (refl, ap (λ o. o ∷ map summary spans) (summary-span_of status_text span_dial _ _))
  traced_after (closes code reason) w spans =
      (refl, ap (λ o. o ∷ map summary spans) (summary-span_of status_text span_close _ _))
  traced_after (pings env) w spans =
      (refl, ap (λ o. o ∷ map summary spans) (summary-span_of status_text span_ping _ _))
  traced_after (reads ctx) w spans =
      let r = (a.read ctx w).1 in
      (
        refl,
        ap (λ o. o ∷ map summary spans) (summary-read_span_of status_text r.msg_type r.msg r.err),
      )
  traced_after (writes ctx ty msg) w spans =
      (refl, ap (λ o. o ∷ map summary spans) (summary-span_of status_text span_write _ _))

  -- Any sequence of calls through the decorator leaves the decorated adapter in the state in which
  -- the same calls without it do, and its spans show the calls in their order: the span of each
  -- call has the name of the method, the error that the decorated method returned, and the status
  -- Error if there was one, else no status.
  pub traced_run :
      (ops : List (Op Url)) (w : W) (spans : List Span)
      → ((run traced_adapter ops (w, spans)).0 ≡ run a ops w)
        × (map summary (run traced_adapter ops (w, spans)).1 ≡ entries a ops w (map summary spans))
  unfolding run entries
  traced_run [] w spans = (refl, refl)
  traced_run (op ∷ ops) w spans =
      let one = traced_after op w spans in
      let w' = after traced_adapter op (w, spans) in
      let rest = traced_run ops w'.0 w'.1 in
      (rest.0 ∙ ap (run a ops) one.0, rest.1 ∙ λ i. entries a ops (one.0 i) (one.1 i))
