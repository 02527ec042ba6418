-- ===== src/Adapters/Gorilla/Laws.antt =====
-- What the methods of wscengine/wsadapters/gorilla/gorilla_websocket_connection_adapter.go keep of
-- their interface, and how pongs and close messages reach the listeners.
use gowsclient.Base.{
  ℕ, ◌≡◌, refl, ◌∙◌, Bool, true, false, Option, none, some, List, [], ◌∷◌, All, String, arith, inl,
  inr, Option-cases, ap, if◌then◌else◌,
}
use gowsclient.Errors.{Error, nil, errorf, is_nil, websocket_close_error, as_close_error}
use gowsclient.Adapters.Constants.{StatusCode, MessageType}
use gowsclient.Adapters.Interface.{ConnectionAdapter, PingEnv, is_close_error}
use gowsclient.Adapters.Gorilla.Listeners.{Propagation, IsIdle, propagate_to_first_idle}
use gowsclient.Adapters.Gorilla.Ping.{ping_call, ping_keeps}
use gowsclient.Adapters.Gorilla.Adapter.{
  Library, Adapter, World, GorillaWorld, Control, pong_frame, close_frame, deliver, handle,
  handle_all, pong_handler, close_handler, notify_all, is_set, dial, close, close_conn, read,
  read_conn, read_result, write, write_conn,
}

module _ {Net Conn Dialer Header : Type 0} where
  deliver-conn :
      (left : List ℕ) (n : Option (ℕ × Error)) (w : World Net Conn Dialer Header)
      → (deliver left n w).adapter.conn ≡ w.adapter.conn
  deliver-conn left none w = refl
  deliver-conn left (some n) w = refl

  deliver-net :
      (left : List ℕ) (n : Option (ℕ × Error)) (w : World Net Conn Dialer Header)
      → (deliver left n w).net ≡ w.net
  deliver-net left none w = refl
  deliver-net left (some n) w = refl

  notify_all-conn :
      (n : Error) (w : World Net Conn Dialer Header)
      → (notify_all n w).adapter.conn ≡ w.adapter.conn
  unfolding notify_all
  notify_all-conn n w = deliver-conn _ _ w

  notify_all-net : (n : Error) (w : World Net Conn Dialer Header) → (notify_all n w).net ≡ w.net
  unfolding notify_all
  notify_all-net n w = deliver-net _ _ w

  handle-conn :
      (c : Control) (w : World Net Conn Dialer Header) → (handle c w).adapter.conn ≡ w.adapter.conn
  unfolding pong_handler close_handler
  handle-conn pong_frame w = deliver-conn _ _ w
  handle-conn (close_frame code text) w = notify_all-conn _ w

  handle_all-conn :
      (cs : List Control) (w : World Net Conn Dialer Header)
      → (handle_all cs w).adapter.conn ≡ w.adapter.conn
  handle_all-conn [] w = refl
  handle_all-conn (c ∷ cs) w = handle_all-conn cs (handle c w) ∙ handle-conn c w

  -- A pong that arrives while no queued listener waits on its channel, as between the sending of a
  -- ping and the wait of Ping, notifies nobody and empties the queue: the listeners that were in it
  -- are never notified of a pong.
  pong_lost :
      (w : World Net Conn Dialer Header)
      → All (IsIdle w.active) w.adapter.ping_requests
      → ((pong_handler w).adapter.ping_requests ≡ []) × ((pong_handler w).received ≡ w.received)
  unfolding pong_handler
  pong_lost w idle =
      let e = propagate_to_first_idle w.active w.adapter.ping_requests nil idle in
      (
        ap
            (λ p.
              Adapter.ping_requests
                (World.adapter (deliver (Propagation.left p) (Propagation.notified p) w)))
            e,
        ap (λ p. World.received (deliver (Propagation.left p) (Propagation.notified p) w)) e,
      )

module _ (lib : Library) where
  abbrev pub connected : GorillaWorld lib → Bool
  connected w = is_set lib w.adapter.conn

  pub dial_again :
      (ctx : Error) (url : Library.Url lib) (w : GorillaWorld lib)
      → connected w ≡ true
      → (is_nil (dial lib ctx url w).2 ≡ false) × (connected (dial lib ctx url w).0 ≡ true)
  unfolding dial
  dial_again ctx url w h = ground arith

  pub dial_opens :
      (ctx : Error) (url : Library.Url lib) (w : GorillaWorld lib)
      → connected (dial lib ctx url w).0 ≡ true
      → connected w ≡ false
      → is_nil (dial lib ctx url w).2 ≡ true
  unfolding dial
  dial_opens ctx url w h k = ground arith

  pub dial_succeeds :
      (ctx : Error) (url : Library.Url lib) (w : GorillaWorld lib)
      → is_nil (dial lib ctx url w).2 ≡ true
      → connected (dial lib ctx url w).0 ≡ true
  unfolding dial
  dial_succeeds ctx url w h = ground arith

  pub close_drops :
      (code : StatusCode) (reason : String) (w : GorillaWorld lib)
      → connected (close lib code reason w).0 ≡ false
  unfolding close close_conn
  close_drops code reason w = ground arith

  pub close_again :
      (code : StatusCode) (reason : String) (w : GorillaWorld lib)
      → connected w ≡ false
      → is_nil (close lib code reason w).1 ≡ false
  unfolding close close_conn
  close_again code reason w h = ground arith

  pub write_keeps :
      (ctx : Error) (ty : MessageType) (msg : List ℕ) (w : GorillaWorld lib)
      → connected (write lib ctx ty msg w).0 ≡ connected w
  unfolding write write_conn
  write_keeps ctx ty msg w = ground arith

  pub ping_closed :
      (env : PingEnv) (w : GorillaWorld lib)
      → connected w ≡ false
      → is_nil (ping_call lib env w).1 ≡ false
  unfolding ping_call
  ping_closed env w h = ground arith

  pub ping_expired :
      (env : PingEnv) (w : GorillaWorld lib)
      → is_nil env.ctx ≡ false
      → (ping_call lib env w).1 ≡ env.ctx
  unfolding ping_call
  ping_expired env w h = ground arith

  read_conn_keeps :
      (c : Library.Conn lib) (w : GorillaWorld lib)
      → is_close_error (read_conn lib c w).1.err ≡ false
      → (read_conn lib c w).0.adapter.conn ≡ w.adapter.conn
  unfolding read_conn read_result as_close_error
  read_conn_keeps c w h =
      let (net, controls, r) = Library.read_message lib c w.net in
      let kept = handle_all-conn controls (record w { net = net }) in
      elim (Option-cases (if is_nil r.err then none else Library.close_error_code lib r.err)) [
        | inl e ↦ ground (arith, kept)
        | inr (code, e) ↦ ground (arith, kept)
      ]

  pub read_keeps :
      (ctx : Error) (w : GorillaWorld lib)
      → is_close_error (read lib ctx w).1.err ≡ false
      → connected (read lib ctx w).0 ≡ connected w
  unfolding read
  read_keeps ctx w h = elim (Option-cases w.adapter.conn) [
    | inl e ↦ ground arith
    | inr (c, e) ↦ ground (arith, read_conn_keeps c w)
  ]

  read_conn_drops :
      (c : Library.Conn lib) (w : GorillaWorld lib)
      → is_close_error (read_conn lib c w).1.err ≡ true
      → (read_conn lib c w).0.adapter.conn ≡ none
  unfolding read_conn read_result as_close_error
  read_conn_drops c w h =
      let r = (Library.read_message lib c w.net).2 in
      elim (Option-cases (if is_nil r.err then none else Library.close_error_code lib r.err)) [
        | inl e ↦ ground (arith, Library.read_foreign lib c w.net)
        | inr (code, e) ↦ ground arith
      ]

  pub read_drops :
      (ctx : Error) (w : GorillaWorld lib)
      → is_close_error ctx ≡ false
      → is_close_error (read lib ctx w).1.err ≡ true
      → connected (read lib ctx w).0 ≡ false
  unfolding read as_close_error
  read_drops ctx w plain h = elim (Option-cases w.adapter.conn) [
    | inl e ↦ ground arith
    | inr (c, e) ↦ ground (arith, read_conn_drops c w)
  ]

  -- The gorilla adapter meets the interface.
  abbrev pub gorilla_adapter :
      ConnectionAdapter (GorillaWorld lib) (Library.Url lib) (Library.Response lib)
  gorilla_adapter = record {
    dial = dial lib;
    close = close lib;
    ping = ping_call lib;
    read = read lib;
    write = write lib;
    connected = connected;
    dial_again = dial_again;
    dial_opens = dial_opens;
    dial_succeeds = dial_succeeds;
    close_drops = close_drops;
    close_again = close_again;
    ping_keeps = λ env w. ap (is_set lib) (ping_keeps lib env w);
    ping_closed = ping_closed;
    ping_expired = ping_expired;
    read_keeps = read_keeps;
    read_drops = read_drops;
    write_keeps = write_keeps;
  }

  -- A Close with a connection set sends one close frame with the code and the reason, whose error
  -- it returns, and drops the connection also if that fails.
  close_sends :
      (c : Library.Conn lib) (code : StatusCode) (reason : String) (w : GorillaWorld lib)
      → w.adapter.conn ≡ some c
      → let (w', err) = close lib code reason w in
        let (net, sent) = Library.write_close lib c code reason w.net in
        (w'.net ≡ net) × (err ≡ sent) × (w'.adapter.conn ≡ none)
  unfolding close close_conn
  close_sends c code reason w e = ground (
    arith,
    notify_all-net (websocket_close_error code reason (errorf "client closed the connection"))
        (record w { net = (Library.write_close lib c code reason w.net).0 }),
  )
