-- ===== src/Engine/Reader/Laws.antt =====
-- What a reader of wscengine/websocket_engine.go calls when its session ends.
use gowsclient.Base.{
  ℕ, ◌≡◌, refl, ap, ◌∙◌, ◌⊎◌, Bool, true, false, Option, none, some, List, ◌∷◌, ◌++◌, [], elem,
  arith, if◌then◌else◌, if_cases,
}
use gowsclient.Errors.{CloseError, is_nil, as_close_error}
use gowsclient.Adapters.Constants.{MessageType}
use gowsclient.Engine.State.{
  Engine, Session, Call, CloseMessageDetails, on_close, on_read_error, on_message, session_done,
  note, cancel,
}
use gowsclient.Engine.Calls.{count, is_close}
use gowsclient.Engine.Shutdown.{ShutdownEnv}
use gowsclient.Engine.Shutdown.Laws.{shutdown_calls, shutdown_engine-calls}
use gowsclient.Engine.Reader.{
  waiting, Signals, signal, leave, begin_read, ReadEnv, read_failed, end_read, process,
  close_message,
}

-- The calls of a reader that leaves: those of the shutdown, if the session was not shut down yet.
abbrev pub leave_calls :
    ShutdownEnv → Option CloseMessageDetails → Bool → Session → Engine → List Call
leave_calls env msg skip s e =
    if elem s.shutdown_sync e.shut_down then [] else shutdown_calls env msg skip

leave-calls :
    (env : ShutdownEnv) (msg : Option CloseMessageDetails) (skip : Bool) (s : Session) (e : Engine)
    → (leave env msg skip s e).0.calls ≡ leave_calls env msg skip s e ++ e.calls
unfolding leave
leave-calls env msg skip s e = ground (
  arith,
  shutdown_engine-calls env msg skip (record e { shut_down = s.shutdown_sync ∷ e.shut_down }),
)

-- On a close error, anywhere in the chain of the error that conn.Read returns, the reader of a live
-- session leaves with one shutdown: OnClose is called with the code and the reason of that error
-- and the connection is not closed again, unless the session was shut down before.
pub end_read_close :
    (env : ReadEnv) (s : Session) (e : Engine) (c : CloseError)
    → session_done e s ≡ false
    → is_nil env.err ≡ false
    → as_close_error env.err ≡ some c
    → (end_read env s e).0.calls
      ≡ (if elem s.shutdown_sync e.shut_down then [] else (on_close (some (close_message c)) ∷ []))
        ++ e.calls
unfolding end_read read_failed
end_read_close env s e c live bad close =
    ground (arith, leave-calls env.shutdown (some (close_message c)) true s (cancel (some s.ctx) e))

-- On any other error OnReadError is called. If it leaves the session live the reader goes on to its
-- next round, and if not it leaves with a shutdown that closes the connection.
pub end_read_error :
    (env : ReadEnv) (s : Session) (e : Engine)
    → session_done e s ≡ false
    → is_nil env.err ≡ false
    → as_close_error env.err ≡ none
    → let called = note (on_read_error env.err) e in
      let signaled = signal env.signals s s.exit called in
      (session_done signaled s ≡ false) × (end_read env s e ≡ (signaled, waiting))
      ⊎ (session_done signaled s ≡ true)
        × ((end_read env s e).0.calls
            ≡ leave_calls env.shutdown none false s signaled ++ on_read_error env.err ∷ e.calls)
unfolding end_read read_failed
end_read_error env s e live bad other = ground (
  arith,
  leave-calls env.shutdown none false s
      (signal env.signals s s.exit (note (on_read_error env.err) e)),
)

closes-leave :
    (env : ShutdownEnv) (s : Session) (e : Engine)
    → count is_close (leave env none true s e).0.calls ≡ count is_close e.calls
closes-leave env s e =
    ap (count is_close) (leave-calls env none true s e)
    ∙ if_cases (λ (cs : List Call). count is_close (cs ++ e.calls) ≡ count is_close e.calls)
        (elem s.shutdown_sync e.shut_down) (λ old. refl) (λ new. refl)

closes-begin_read :
    (env : ShutdownEnv) (s : Session) (e : Engine)
    → session_done e s ≡ true
    → count is_close (begin_read env s e).0.calls ≡ count is_close e.calls
unfolding begin_read
closes-begin_read env s e done = ground (arith, closes-leave env s e)

closes-end_read :
    (env : ReadEnv) (s : Session) (e : Engine)
    → session_done e s ≡ true
    → count is_close (end_read env s e).0.calls ≡ count is_close e.calls
unfolding end_read
closes-end_read env s e done = ground (arith, closes-leave env.shutdown s e)

signal_restarts :
    (sg : Signals) (s : Session) (exit : Option ℕ) (e : Engine)
    → sg.restarts ≡ true
    → session_done (signal sg s exit e) s ≡ true
signal_restarts sg s exit e h = ground arith

closes-signal :
    (sg : Signals) (s : Session) (exit : Option ℕ) (e : Engine)
    → count is_close (signal sg s exit e).calls ≡ count is_close e.calls
closes-signal sg s exit e = ground arith

-- When OnMessage calls the restart function, the connection is not closed: no reader of the session
-- that then comes to the check before conn.Read or to the one after it calls conn.Close.
restart_in_on_message :
    (sg : Signals) (s : Session) (ty : MessageType) (msg : List ℕ) (env : ReadEnv) (e : Engine)
    → sg.restarts ≡ true
    → let e' = (process sg s ty msg e).0 in
      (count is_close (begin_read env.shutdown s e').0.calls ≡ count is_close e.calls)
      × (count is_close (end_read env s e').0.calls ≡ count is_close e.calls)
unfolding process
restart_in_on_message sg s ty msg env e restarts =
    let e' = signal sg s e.engine_stop_func (note (on_message s.ctx ty msg) e) in
    let done =
      signal_restarts sg s e.engine_stop_func (note (on_message s.ctx ty msg) e) restarts in
    let same = closes-signal sg s e.engine_stop_func (note (on_message s.ctx ty msg) e) in
    (closes-begin_read env.shutdown s e' done ∙ same, closes-end_read env s e' done ∙ same)
