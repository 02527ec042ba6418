-- ===== src/Examples/Fixtures.antt =====
-- Concrete engines and surroundings of wscengine/websocket_engine.go: an engine with the default
-- options that was started once, and a system in which a reader has met a close message.
use gowsclient.Base.{true, false, none, some, [], ◌∷◌, refl, ◌≡◌}
use gowsclient.Errors.{Error, nil, foreign, canceled, websocket_close_error, as_close_error}
use gowsclient.Adapters.Constants.{normal_closure, text}
use gowsclient.Config.{default_options}
use gowsclient.Engine.State.{Engine, Session, dial, read, on_open, on_close, new_engine_state}
use gowsclient.Engine.Shutdown.{ShutdownEnv, shutdown_engine}
use gowsclient.Engine.Stop.{StopEnv}
use gowsclient.Engine.Stop.Laws.{IsRunning}
use gowsclient.Engine.Start.{StartEnv, StartCall, start}
use gowsclient.Engine.Reader.{
  ReadEnv, Signals, reading, exited, begin_read, end_read, read_failed, leave,
}
use gowsclient.Engine.System.Whole.{start-Reach}
use gowsclient.Engine.System.{
  System, Thread, free, by_reader, thread_of, Reach, here, next, reader, locks, returns,
}

-- Nothing fails.
abbrev pub calm : StartEnv
calm = record {
  entry_err = nil;
  dial_err = nil;
  dialed_err = nil;
  open_err = nil;
  open_exits = false;
}

abbrev pub refused : StartEnv
refused = record calm { dial_err = foreign 7 }

abbrev pub first_call : StartCall
first_call = record { caller_err = nil; run = calm; gives_up = false; waiting_err = nil }

abbrev pub quiet : ShutdownEnv
quiet = record { reply = none; close_err = nil }

abbrev pub patient : StopEnv
patient = record { shutdown = quiet; caller_err = nil; timed_out = false; prefers_ctx = false }

abbrev pub impatient : StopEnv
impatient = record {
  shutdown = quiet;
  caller_err = canceled;
  timed_out = false;
  prefers_ctx = true;
}

abbrev pub fresh : Engine
fresh = new_engine_state default_options

-- The session that the first start of the engine opens.
abbrev pub first_session : Session
first_session = record { ctx = 2; parent = some 1; exit = some 1; shutdown_sync = 3 }

abbrev pub running : Engine
running = record fresh {
  engine_ctx = some 1;
  engine_stop_func = some 1;
  started = true;
  shutdown_sync = 3;
  next = 4;
  readers = first_session ∷ first_session ∷ first_session ∷ first_session ∷ [];
  calls = on_open false ∷ dial ∷ [];
}

start-fresh : start first_call fresh ≡ (running, nil)
unfolding start
start-fresh = refl

pub running-IsRunning : IsRunning running 1
running-IsRunning = record {
  ctx = refl;
  stop_func = refl;
  started = refl;
  unclosed = refl;
  empty = refl;
}

abbrev pub idle : Thread
idle = thread_of first_session

abbrev pub opened : System
opened = record { engine = running; read_mutex = free; threads = idle ∷ idle ∷ idle ∷ idle ∷ [] }

pub opened-Reach : Reach default_options opened
unfolding start
opened-Reach = start-Reach first_call here

-- One reader is in conn.Read.
abbrev pub in_read : System
in_read = record {
  engine = record running { calls = read ∷ on_open false ∷ dial ∷ [] };
  read_mutex = by_reader;
  threads = record { session = first_session; pc = reading } ∷ idle ∷ idle ∷ idle ∷ [];
}

pub in_read-Reach : Reach default_options in_read
unfolding begin_read
in_read-Reach = next opened-Reach (
    reader [] (idle ∷ idle ∷ idle ∷ []) idle (begin_read quiet first_session running) by_reader refl
      (locks quiet refl refl refl refl) refl)

abbrev pub hush : Signals
hush = record { restarts = false; exits = false }

abbrev pub read_of : Error → ReadEnv
read_of e = record { msg_type = text; msg = []; err = e; signals = hush; shutdown = quiet }

-- The server has closed the connection.
abbrev pub bye : Error
bye = websocket_close_error normal_closure "bye" (foreign 1)

-- That reader has met the close message and has left.
abbrev pub left : System
left = record {
  engine = record running {
    canceled = 2 ∷ [];
    shut_down = 3 ∷ [];
    restarts = 1;
    calls =
        on_close (some (record { close_reason = normal_closure; close_message = "bye" }))
        ∷ read
        ∷ on_open false
        ∷ dial
        ∷ [];
  };
  read_mutex = free;
  threads = record { session = first_session; pc = exited } ∷ idle ∷ idle ∷ idle ∷ [];
}

pub left-Reach : Reach default_options left
unfolding end_read read_failed as_close_error leave shutdown_engine
left-Reach = next in_read-Reach (
    reader [] (idle ∷ idle ∷ idle ∷ []) (record { session = first_session; pc = reading })
      (end_read (read_of bye) first_session in_read.engine) free refl
      (returns (read_of bye) refl refl refl) refl)
