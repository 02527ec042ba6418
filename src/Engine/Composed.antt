-- ===== src/Engine/Composed.antt =====
-- A reader of wscengine/websocket_engine.go between a connection adapter and a client: what conn.Read
-- returns and what the callbacks do is computed by them, in the state that the rounds before have
-- left them in.
use gowsclient.Base.{
  ℕ, zero, suc, ◌+◌, ◌≡◌, refl, true, false, Option, none, some, List, [], ◌∷◌, ◌++◌, All, elem,
  arith, if◌then◌else◌, ap, sym, ◌∙◌,
}
use gowsclient.Errors.{Error, CloseError, nil, is_nil, as_close_error}
use gowsclient.Adapters.Interface.{ConnectionAdapter, ReadResult, is_close_error}
use gowsclient.Client.{WebsocketClient, CloseMessageDetails, Signals}
use gowsclient.Engine.State.{
  Engine, Session, Call, session_done, sleep, dial, close, read, on_open, on_read_error,
  on_close_error, on_restart_error, on_message, on_close,
}
use gowsclient.Engine.Shutdown.{ShutdownEnv, or_default}
use gowsclient.Engine.Reader.{exited, close_message}
use gowsclient.Engine.Reader.Loop.{Round, Delivers, run_engine, delivered, run_engine-delivered}

abbrev pub no_signals : Signals
no_signals = record { restarts = false; exits = false }

as_close_error-some :
    (err : Error) (ce : CloseError)
    → as_close_error err ≡ some ce
    → (is_nil err ≡ false) × (is_close_error err ≡ true)
unfolding as_close_error
as_close_error-some err ce h = ground arith

module _ {W Url Response C : Type 0} (a : ConnectionAdapter W Url Response)
    (client : WebsocketClient C) where
  -- The answers to a shutdown: OnClose is called, then conn.Close with its message.
  abbrev pub shutdown_answer : Option CloseMessageDetails → W × C → ShutdownEnv
  shutdown_answer msg (w, c) =
      let reply = (client.on_close msg c).1 in
      let m = or_default reply in
      record { reply = reply; close_err = (a.close m.close_reason m.close_message w).1 }

  -- The callback that is handed what was read, with the functions that it calls. A close error is
  -- handed to OnClose by the shutdown.
  abbrev pub handle : (session : ℕ) → ReadResult → C → C × Signals
  handle session r c =
      if is_nil r.err
      then client.on_message session r.msg_type r.msg c
      else elim (as_close_error r.err) [
        | some ce ↦ (c, no_signals)
        | none ↦ client.on_read_error r.err c
      ]

  abbrev pub close_message_of : Error → Option CloseMessageDetails
  close_message_of err = elim (as_close_error err) [
    | none ↦ none
    | some ce ↦ some (close_message ce)
  ]

  -- What a reader of a live session meets in one round.
  unfoldable pub round_of : Session → W × C → Round
  round_of s (w, c) =
      let (w', r) = a.read nil w in
      let (c', sg) = handle s.ctx r c in
      record {
        shutdown = shutdown_answer none (w, c);
        read_env = record {
          msg_type = r.msg_type;
          msg = r.msg;
          err = r.err;
          signals = sg;
          shutdown = shutdown_answer (close_message_of r.err) (w', c');
        };
        signals = sg;
      }

  abbrev pub after_round : Session → W × C → W × C
  after_round s (w, c) = let (w', r) = a.read nil w in (w', (handle s.ctx r c).0)

  -- That many reads, each with its callback.
  unfoldable pub after_rounds : Session → ℕ → W × C → W × C
  after_rounds s zero x = x
  after_rounds s (suc n) x = after_rounds s n (after_round s x)

  unfoldable pub rounds_of : Session → ℕ → W × C → List Round
  unfolding round_of
  rounds_of s zero x = []
  rounds_of s (suc n) x = round_of s x ∷ rounds_of s n (after_round s x)

  -- A call of the engine on the adapter or on the client; contexts are live.
  abbrev pub run_call : Url → Call → W × C → W × C
  run_call url dial (w, c) = ((a.dial nil url w).0, c)
  run_call url (close code reason) (w, c) = ((a.close code reason w).0, c)
  run_call url read (w, c) = ((a.read nil w).0, c)
  run_call url (on_open restarting) (w, c) = (w, (client.on_open restarting c).0)
  run_call url (on_message session ty msg) (w, c) = (w, (client.on_message session ty msg c).0)
  run_call url (on_read_error err) (w, c) = (w, (client.on_read_error err c).0)
  run_call url (on_close m) (w, c) = (w, (client.on_close m c).0)
  run_call url (on_close_error err) (w, c) = (w, client.on_close_error err c)
  run_call url (on_restart_error err k) (w, c) = (w, (client.on_restart_error err k c).0)
  run_call url (sleep d) x = x

  -- The calls of an engine, newest first.
  unfoldable pub after_calls : Url → List Call → W × C → W × C
  after_calls url [] x = x
  after_calls url (call ∷ calls) x = run_call url call (after_calls url calls x)

  -- The next reads give messages, and OnMessage calls neither of its functions on them.
  abbrev pub IsQuiet : Session → ℕ → W × C → Type 0
  IsQuiet s zero x = Unit
  IsQuiet s (suc n) x =
      (is_nil (a.read nil x.0).1.err ≡ true)
      × ((client.on_message s.ctx (a.read nil x.0).1.msg_type (a.read nil x.0).1.msg x.1).1
          ≡ no_signals)
      × IsQuiet s n (after_round s x)

  rounds_of-append :
      (s : Session) (n m : ℕ) (x : W × C)
      → rounds_of s (n + suc m) x
        ≡ rounds_of s n x
          ++ (round_of s (after_rounds s n x) ∷ rounds_of s m (after_rounds s (suc n) x))
  unfolding rounds_of after_rounds
  rounds_of-append s zero m x = ap (λ k. rounds_of s k x) zero_add_suc
    where
      zero_add_suc : 0 + suc m ≡ suc m
      zero_add_suc = omega arith
  rounds_of-append s (suc n) m x =
      ap (λ k. rounds_of s k x) suc_add_suc
      ∙ ap (λ rs. round_of s x ∷ rs) (rounds_of-append s n m (after_round s x))
    where
      suc_add_suc : suc n + suc m ≡ suc (n + suc m)
      suc_add_suc = omega arith

  handle_message :
      (session : ℕ) (r : ReadResult) (c : C)
      → is_nil r.err ≡ true
      → handle session r c ≡ client.on_message session r.msg_type r.msg c
  handle_message session r c h = rw h refl

  Delivers-rounds_of :
      (s : Session) (n : ℕ) (x : W × C) → IsQuiet s n x → All Delivers (rounds_of s n x)
  unfolding rounds_of round_of
  Delivers-rounds_of s zero x q = tt
  Delivers-rounds_of s (suc n) x q =
      let handled = handle_message s.ctx (a.read nil x.0).1 x.1 q.0 in
      (
        (
          q.0,
          ap (λ h. Signals.restarts h.1) handled ∙ ap Signals.restarts q.1,
          ap (λ h. Signals.exits h.1) handled ∙ ap Signals.exits q.1,
        ),
        Delivers-rounds_of s n (after_round s x) q.2,
      )

  after_calls-delivered :
      (url : Url) (s : Session) (n : ℕ) (x0 x : W × C) (calls : List Call)
      → IsQuiet s n x
      → after_calls url calls x0 ≡ x
      → after_calls url (delivered s (rounds_of s n x) calls) x0 ≡ after_rounds s n x
  unfolding after_calls rounds_of round_of after_rounds
  after_calls-delivered url s zero x0 x calls q eq = eq
  after_calls-delivered url s (suc n) x0 x calls q eq =
      let r = (a.read nil x.0).1 in
      let next = on_message s.ctx r.msg_type r.msg ∷ read ∷ calls in
      after_calls-delivered url s n x0 (after_round s x) next q.2 (
        ap (λ y. run_call url (on_message s.ctx r.msg_type r.msg) (run_call url read y)) eq
        ∙ ap (λ h. ((a.read nil x.0).0, h.0)) (sym (handle_message s.ctx r x.1 q.0)))

  -- A reader of a live session that was not shut down yet, on an engine that holds no stop signal,
  -- between any adapter and any client: if the first `n` reads of the adapter give messages, and
  -- OnMessage calls neither of its functions on them, and the next read gives a close error, the
  -- reader exits after that read, whatever rounds would follow. What its calls leave is `n` reads,
  -- each handed to OnMessage before the next, one more read, and OnClose with the code and the
  -- reason of the close error; the adapter has no connection any more.
  pub run_engine-after_rounds :
      (url : Url) (s : Session) (n m : ℕ) (x0 : W × C) (e : Engine) (ce : CloseError)
      → let x = after_calls url e.calls x0 in
        let (w, c) = after_rounds s n x in
        IsQuiet s n x
        → as_close_error (a.read nil w).1.err ≡ some ce
        → session_done e s ≡ false
        → elem s.shutdown_sync e.shut_down ≡ false
        → e.stopped_channel ≡ false
        → let (e', pc) = run_engine (rounds_of s (n + suc m) x) s e in
          (pc ≡ exited)
          × (after_calls url e'.calls x0
              ≡ ((a.read nil w).0, (client.on_close (some (close_message ce)) c).0))
          × (a.connected (a.read nil w).0 ≡ false)
  unfolding after_calls round_of as_close_error
  run_engine-after_rounds url s n m x0 e ce q ends live new empty =
      let x = after_calls url e.calls x0 in
      let y = after_rounds s n x in
      let met = as_close_error-some (a.read nil y.0).1.err ce ends in
      let run =
        run_engine-delivered (rounds_of s n x) (round_of s y)
          (rounds_of s m (after_rounds s (suc n) x)) s e ce (Delivers-rounds_of s n x q) live met.0
          ends new empty in
      rw (rounds_of-append s n m x) (
        run.1,
        ap (λ cs. after_calls url cs x0) run.0
            ∙ ap (λ z. run_call url (on_close (some (close_message ce))) (run_call url read z))
                (after_calls-delivered url s n x0 x e.calls q refl),
        a.read_drops nil y.0 refl met.1,
      )
