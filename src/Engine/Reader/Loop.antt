-- ===== src/Engine/Reader/Loop.antt =====
-- The loop of runEngine of wscengine/websocket_engine.go, run by one reader without a step of
-- another goroutine in between, and the messages that it delivers.
use gowsclient.Base.{
  ◌≡◌, Bool, true, false, some, List, [], ◌∷◌, ◌++◌, All, elem, arith, if◌then◌else◌,
}
use gowsclient.Errors.{CloseError, is_nil, as_close_error}
use gowsclient.Engine.State.{Engine, Session, Call, read, on_message, on_close, session_done}
use gowsclient.Engine.Shutdown.{ShutdownEnv}
use gowsclient.Engine.Shutdown.Laws.{shutdown_engine-calls, shutdown_engine-HandsOver}
use gowsclient.Engine.Reader.{
  Pc, waiting, reading, processing, exited, Signals, begin_read, ReadEnv, end_read, process,
  read_failed, leave, close_message,
}

-- What one round meets: the shutdown at the first check, the read, and what OnMessage calls.
pub record Round : Type 0 where
  pub shutdown : ShutdownEnv
  pub read_env : ReadEnv
  pub signals : Signals

-- What follows the return of conn.Read.
unfoldable pub handle_read : Round → Session → Engine × Pc → Engine × Pc
unfolding process
handle_read r s (e, processing ty msg) = process r.signals s ty msg e
handle_read r s (e, pc) = (e, pc)

-- A round from the locking of the read mutex.
unfoldable pub run_round : Round → Session → Engine × Pc → Engine × Pc
unfolding end_read handle_read
run_round r s (e, reading) = handle_read r s (end_read r.read_env s e)
run_round r s (e, pc) = (e, pc)

abbrev pub goes_on : Pc → Bool
goes_on waiting = true
goes_on _ = false

-- The loop over the rounds that are given.
unfoldable pub run_engine : List Round → Session → Engine → Engine × Pc
unfolding run_round begin_read
run_engine [] s e = (e, waiting)
run_engine (r ∷ rest) s e =
    let (e', pc) = run_round r s (begin_read r.shutdown s e) in
    let again = run_engine rest s e' in if goes_on pc then again else (e', pc)

-- A round in which a message is read and OnMessage calls neither of its functions.
abbrev pub Delivers : Round → Type 0
Delivers r =
    (is_nil r.read_env.err ≡ true) × (r.signals.restarts ≡ false) × (r.signals.exits ≡ false)

-- The calls of such rounds, newest first, before the given ones.
abbrev pub delivered : Session → List Round → List Call → List Call
delivered s [] cs = cs
delivered s (r ∷ rest) cs =
    delivered s rest (on_message s.ctx r.read_env.msg_type r.read_env.msg ∷ read ∷ cs)

pub one_delivery :
    (r : Round) (s : Session) (e : Engine)
    → Delivers r
    → session_done e s ≡ false
    → run_round r s (begin_read r.shutdown s e) ≡ (
      record e { calls = on_message s.ctx r.read_env.msg_type r.read_env.msg ∷ read ∷ e.calls },
      waiting,
    )
unfolding run_round begin_read
one_delivery r s e (good, stays, on) live = ground arith

-- The engine in which the reader shuts the session down, after a close error.
abbrev closing : Session → Engine → Engine
closing s e = record e {
  calls = read ∷ e.calls;
  canceled = s.ctx ∷ e.canceled;
  shut_down = s.shutdown_sync ∷ e.shut_down;
}

last_round :
    (r : Round) (s : Session) (e : Engine) (c : CloseError)
    → session_done e s ≡ false
    → is_nil r.read_env.err ≡ false
    → as_close_error r.read_env.err ≡ some c
    → elem s.shutdown_sync e.shut_down ≡ false
    → e.stopped_channel ≡ false
    → let (e', pc) = run_round r s (begin_read r.shutdown s e) in
      (e'.calls ≡ on_close (some (close_message c)) ∷ read ∷ e.calls) × (pc ≡ exited)
unfolding run_round begin_read read_failed leave
last_round r s e c live bad close new empty = ground (
  arith,
  shutdown_engine-calls r.read_env.shutdown (some (close_message c)) true (closing s e),
  shutdown_engine-HandsOver r.read_env.shutdown (some (close_message c)) true (closing s e),
)

pub run_engine-delivered :
    (rounds : List Round) (last : Round) (rest : List Round) (s : Session) (e : Engine)
    (c : CloseError)
    → All Delivers rounds
    → session_done e s ≡ false
    → is_nil last.read_env.err ≡ false
    → as_close_error last.read_env.err ≡ some c
    → elem s.shutdown_sync e.shut_down ≡ false
    → e.stopped_channel ≡ false
    → let (e', pc) = run_engine (rounds ++ (last ∷ rest)) s e in
      (e'.calls ≡ on_close (some (close_message c)) ∷ read ∷ delivered s rounds e.calls)
      × (pc ≡ exited)
unfolding run_engine
run_engine-delivered [] last rest s e c all live bad close new empty =
    ground (arith, last_round last s e c)
run_engine-delivered (r ∷ rounds) last rest s e c all live bad close new empty =
    let e' = record e {
      calls = on_message s.ctx r.read_env.msg_type r.read_env.msg ∷ read ∷ e.calls;
    } in
    rw (one_delivery r s e all.0 live)
      (run_engine-delivered rounds last rest s e' c all.1 live bad close new empty)
