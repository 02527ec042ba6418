-- ===== src/Adapters/Gorilla/Ping.antt =====
-- Ping of wscengine/wsadapters/gorilla/gorilla_websocket_connection_adapter.go, and how a pong
-- answers it.
use gowsclient.Base.{
  ℕ, suc, ◌<◌, Bool, true, not, ◌||◌, ◌&&◌, none, some, List, [], ◌∷◌, ◌++◌, length, ltb,
  if◌then◌else◌, ◌≡◌, refl, ap, ◌∙◌, All, Below, elem, arith,
}
use gowsclient.Errors.{Error, nil, errorf, wrapf, is_nil}
use gowsclient.Adapters.Interface.{PingEnv}
use gowsclient.Adapters.Gorilla.Listeners.{
  Propagation, IsIdle, propagate_to_first_active_listener, propagate_to_first_found,
}
use gowsclient.Adapters.Gorilla.Adapter.{
  Library, Adapter, World, GorillaWorld, ping_capacity, deliver, pong_handler,
}

-- How Ping stands: it has returned, or waits on the channel of the given number.
pub data PingStep : Type 0 where
  ping_returns : Error → PingStep
  ping_waits : ℕ → PingStep
  ping_blocks : PingStep

module _ (lib : Library) where
  open lib use {Conn, write_ping}

  abbrev pub enqueue : GorillaWorld lib → GorillaWorld lib
  enqueue w = record w {
    adapter = record (World.adapter w) {
      ping_requests = w.adapter.ping_requests ++ (w.next_listener ∷ []);
    };
    next_listener = suc w.next_listener;
  }

  -- After the channel is queued: the ping message is sent.
  unfoldable pub send_ping : Conn → ℕ → GorillaWorld lib → GorillaWorld lib × PingStep
  send_ping c l w =
      let (net, err) = write_ping c w.net in
      (
        record w { net = net },
        if is_nil err then ping_waits l else ping_returns (wrapf "ping failed" err),
      )

  -- The part of Ping with a connection set: the channel is queued, if there is room. `queue_ctx` is
  -- the context's error at that select, and `prefers_ctx` the choice of the select when both of its
  -- cases are ready.
  unfoldable pub ping_conn :
      (queue_ctx : Error) (prefers_ctx : Bool)
      → Conn
      → GorillaWorld lib
      → GorillaWorld lib × PingStep
  unfolding send_ping
  ping_conn queue_ctx prefers_ctx c w =
      let room = ltb (length w.adapter.ping_requests) ping_capacity in
      if not (is_nil queue_ctx) && (prefers_ctx || not room)
      then (w, ping_returns queue_ctx)
      else if room
      then send_ping c w.next_listener (enqueue w)
      else (w, ping_blocks)

  -- Ping up to its wait for a pong.
  unfoldable pub ping :
      Error
      → (queue_ctx : Error) (prefers_ctx : Bool) → GorillaWorld lib
      → GorillaWorld lib × PingStep
  unfolding ping_conn
  ping ctx queue_ctx prefers_ctx w =
      if not (is_nil ctx) then (w, ping_returns ctx) else elim w.adapter.conn [
        | none ↦ (w, ping_returns (errorf "ping failed because no connection is already up"))
        | some c ↦ ping_conn queue_ctx prefers_ctx c w
      ]

  -- The last select of Ping is reached: its listener waits on its channel.
  abbrev pub listen : ℕ → GorillaWorld lib → GorillaWorld lib
  listen l w = record w { active = l ∷ World.active w }

  -- A whole call of Ping; at a full queue it waits for its context to end.
  unfoldable pub ping_call : PingEnv → GorillaWorld lib → GorillaWorld lib × Error
  unfolding ping
  ping_call env w =
      let (w', step) = ping env.ctx env.queue_ctx env.prefers_ctx w in
      (
        w',
        elim step [ ping_returns err ↦ err | ping_waits l ↦ env.answer | ping_blocks ↦ env.answer ],
      )

  pub ping_keeps :
      (env : PingEnv) (w : GorillaWorld lib) → (ping_call env w).0.adapter.conn ≡ w.adapter.conn
  unfolding ping_call
  ping_keeps env w = ground arith

-- Listeners that do not wait still do not when a younger one does.
IsIdle-listen :
    (l : ℕ) (active pending : List ℕ)
    → Below l pending
    → All (IsIdle active) pending
    → All (IsIdle (l ∷ active)) pending
IsIdle-listen l active [] h k = tt
IsIdle-listen l active (x ∷ pending) h k =
    (ground (arith, h.0, k.0), IsIdle-listen l active pending h.1 k.1)

module _ {Net Conn Dialer Header : Type 0} where
  -- A pong reaches the first queued listener that waits, and those before it leave the queue.
  pong_reaches :
      (w : World Net Conn Dialer Header) (idle rest : List ℕ) (l : ℕ)
      → w.adapter.ping_requests ≡ idle ++ (l ∷ rest)
      → All (IsIdle w.active) idle
      → elem l w.active ≡ true
      → ((pong_handler w).received ≡ (l, nil) ∷ w.received)
        × ((pong_handler w).adapter.ping_requests ≡ rest)
  unfolding pong_handler
  pong_reaches w idle rest l queue h waits =
      let e =
        ap (λ q. propagate_to_first_active_listener w.active q nil) queue
        ∙ propagate_to_first_found w.active idle rest l nil h waits in
      (
        ap (λ p. World.received (deliver (Propagation.left p) (Propagation.notified p) w)) e,
        ap
            (λ p.
              Adapter.ping_requests
                (World.adapter (deliver (Propagation.left p) (Propagation.notified p) w)))
            e,
      )

module _ (lib : Library) where
  -- A Ping with a live context on a set connection, fewer than 10 queued listeners and a write that
  -- succeeds comes to its wait. If none of the listeners that were queued before waits, the next
  -- pong that arrives then answers this Ping with nil, and leaves the queue empty. The number of
  -- the listener is taken to be larger than those of the queued ones.
  pub ping-pong_handler :
      (c : Library.Conn lib) (prefers_ctx : Bool) (w : GorillaWorld lib)
      → w.adapter.conn ≡ some c
      → length w.adapter.ping_requests < 10
      → is_nil (Library.write_ping lib c w.net).1 ≡ true
      → All (IsIdle w.active) w.adapter.ping_requests
      → Below w.next_listener w.adapter.ping_requests
      → let (w', step) = ping lib nil nil prefers_ctx w in
        let answered = pong_handler (listen lib w.next_listener w') in
        (step ≡ ping_waits w.next_listener)
        × (answered.received ≡ (w.next_listener, nil) ∷ w.received)
        × (answered.adapter.ping_requests ≡ [])
  unfolding ping
  ping-pong_handler c prefers_ctx w set room sent idle young =
      let answer =
        pong_reaches (listen lib w.next_listener asked) w.adapter.ping_requests [] w.next_listener
          refl (IsIdle-listen w.next_listener w.active w.adapter.ping_requests young idle)
          (ground arith) in
      rw waits (refl, answer.0, answer.1)
    where
      asked : GorillaWorld lib
      asked = record (enqueue lib w) { net = (Library.write_ping lib c w.net).0 }

      waits : ping lib nil nil prefers_ctx w ≡ (asked, ping_waits w.next_listener)
      waits = ground arith
