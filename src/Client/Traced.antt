-- ===== src/Client/Traced.antt =====
-- wscengine/websocket_client_instrumentation_decorator.go: the decorator is again a client, over the
-- state of the client that it decorates and the spans that have ended.
use gowsclient.Base.{
  ℕ, pos, String, ◌≡◌, refl, ap, ◌∙◌, Bool, Option, some, List, [], ◌∷◌, map, length,
}
use gowsclient.Errors.{Error, nil}
use gowsclient.Tracing.{
  Attribute, int_attribute, bool_attribute, span_kind_internal, Status, ok_status, starts,
  set_status, ends, Span, handle_potential_error, handle_potential_error_lem,
}
use gowsclient.Tracing.Names.{
  span_engine_on_open, span_engine_on_message, span_engine_on_read_error, span_engine_on_close,
  span_engine_on_close_error, span_engine_on_restart_error, attr_restart, attr_msg_type,
  attr_msg_length, attr_retry_count,
}
use gowsclient.Tracing.Summary.{Summary, summary, result_status, summary-handle_potential_error}
use gowsclient.Adapters.Constants.{MessageType}
use gowsclient.Client.{
  WebsocketClient, CloseMessageDetails, Signals, Callback, opens, messages, read_errors, closes,
  close_errors, restart_errors, opened, call, run,
}

-- The span of a callback that returns no error: the status is set by a deferred call.
abbrev pub ok_span : (Status → String) → String → List Attribute → Span
ok_span status_text name attributes =
    ends
    ∷ set_status ok_status (status_text ok_status)
    ∷ starts name span_kind_internal attributes
    ∷ []

module _ {C : Type 0} (client : WebsocketClient C) where
  -- The summary that the span of a callback is to show: only OnOpen has an error.
  abbrev pub entry : Callback → C → Summary
  entry (opens restarting) c =
      let err = (client.on_open restarting c).1 in
      record { name = span_engine_on_open; error = err; status = some (result_status err) }
  entry (messages session ty msg) c = record {
    name = span_engine_on_message;
    error = nil;
    status = some ok_status;
  }
  entry (read_errors err) c = record {
    name = span_engine_on_read_error;
    error = nil;
    status = some ok_status;
  }
  entry (closes m) c = record { name = span_engine_on_close; error = nil; status = some ok_status }
  entry (close_errors err) c = record {
    name = span_engine_on_close_error;
    error = nil;
    status = some ok_status;
  }
  entry (restart_errors err k) c = record {
    name = span_engine_on_restart_error;
    error = nil;
    status = some ok_status;
  }

  -- The summaries of a sequence of callbacks, newest first, before earlier ones.
  unfoldable pub entries : List Callback → C → List Summary → List Summary
  entries [] c earlier = earlier
  entries (cb ∷ cbs) c earlier = entries cbs (call client cb c).0 (entry cb c ∷ earlier)

module _ {C : Type 0} (status_text : Status → String) (client : WebsocketClient C) where
  abbrev pub traced_on_open : Bool → C × List Span → (C × List Span) × Error × Bool
  traced_on_open restarting (c, spans) =
      let (c', err, exits) = client.on_open restarting c in
      let attributes = bool_attribute attr_restart restarting ∷ [] in
      let (span, err') =
        handle_potential_error status_text err
          (starts span_engine_on_open span_kind_internal attributes ∷ []) in
      ((c', (ends ∷ span) ∷ spans), err', exits)

  abbrev pub traced_on_message :
      ℕ → MessageType → List ℕ → C × List Span → (C × List Span) × Signals
  traced_on_message session ty msg (c, spans) =
      let (c', sg) = client.on_message session ty msg c in
      let attributes =
        int_attribute attr_msg_type ty ∷ int_attribute attr_msg_length (pos (length msg)) ∷ [] in
      ((c', ok_span status_text span_engine_on_message attributes ∷ spans), sg)

  abbrev pub traced_on_read_error : Error → C × List Span → (C × List Span) × Signals
  traced_on_read_error err (c, spans) =
      let (c', sg) = client.on_read_error err c in
      ((c', ok_span status_text span_engine_on_read_error [] ∷ spans), sg)

  abbrev pub traced_on_close :
      Option CloseMessageDetails → C × List Span → (C × List Span) × Option CloseMessageDetails
  traced_on_close m (c, spans) =
      let (c', reply) = client.on_close m c in
      ((c', ok_span status_text span_engine_on_close [] ∷ spans), reply)

  abbrev pub traced_on_close_error : Error → C × List Span → C × List Span
  traced_on_close_error err (c, spans) =
      (client.on_close_error err c, ok_span status_text span_engine_on_close_error [] ∷ spans)

  abbrev pub traced_on_restart_error : Error → ℕ → C × List Span → (C × List Span) × Bool
  traced_on_restart_error err k (c, spans) =
      let (c', exits) = client.on_restart_error err k c in
      let attributes = int_attribute attr_retry_count (pos k) ∷ [] in
      ((c', ok_span status_text span_engine_on_restart_error attributes ∷ spans), exits)

  abbrev pub traced_client : WebsocketClient (C × List Span)
  traced_client = record {
    on_open = traced_on_open;
    on_message = traced_on_message;
    on_read_error = traced_on_read_error;
    on_close = traced_on_close;
    on_close_error = traced_on_close_error;
    on_restart_error = traced_on_restart_error;
  }

  traced_call :
      (cb : Callback) (c : C) (spans : List Span)
      → ((call traced_client cb (c, spans)).0.0 ≡ (call client cb c).0)
        × ((call traced_client cb (c, spans)).1 ≡ (call client cb c).1)
        × (map summary (call traced_client cb (c, spans)).0.1
            ≡ entry client cb c ∷ map summary spans)
  unfolding call
  traced_call (opens restarting) c spans =
      let err = (client.on_open restarting c).1 in
      let start =
        starts span_engine_on_open span_kind_internal (bool_attribute attr_restart restarting ∷ [])
        ∷ [] in
      (
        refl,
        ap (λ e. opened e (client.on_open restarting c).2)
            (handle_potential_error_lem status_text err start).0,
        ap (λ o. o ∷ map summary spans) (summary-handle_potential_error status_text err start refl),
      )
  traced_call (messages session ty msg) c spans = (refl, refl, refl)
  traced_call (read_errors err) c spans = (refl, refl, refl)
  traced_call (closes m) c spans = (refl, refl, refl)
  traced_call (close_errors err) c spans = (refl, refl, refl)
  traced_call (restart_errors err k) c spans = (refl, refl, refl)

  -- Any sequence of callbacks through the decorator leaves the decorated client in the state in
  -- which the same callbacks without it do, with the same replies, and its spans show the callbacks
  -- in their order: the span of each has the name of the callback and the status Ok, but for an
  -- OnOpen that returns an error, whose span has that error and the status Error.
  pub traced_client-run :
      (cbs : List Callback) (c : C) (spans : List Span)
      → ((run traced_client cbs (c, spans)).0.0 ≡ (run client cbs c).0)
        × ((run traced_client cbs (c, spans)).1 ≡ (run client cbs c).1)
        × (map summary (run traced_client cbs (c, spans)).0.1
            ≡ entries client cbs c (map summary spans))
  unfolding run entries
  traced_client-run [] c spans = (refl, refl, refl)
  traced_client-run (cb ∷ cbs) c spans =
      let one = traced_call cb c spans in
      let x = (call traced_client cb (c, spans)).0 in
      let rest = traced_client-run cbs x.0 x.1 in
      (
        rest.0 ∙ ap (λ y. (run client cbs y).0) one.0,
        λ i. one.1 i ∷ (rest.1 ∙ ap (λ y. (run client cbs y).1) one.0) i,
        rest.2 ∙ λ i. entries client cbs (one.0 i) (one.2 i),
      )
