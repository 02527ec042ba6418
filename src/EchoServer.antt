-- ===== src/EchoServer.antt =====
-- echowsserver/echo_websocket_server.go: the start and stop of the server, and the session of one
-- client. net/http and gorilla/websocket are given by what their calls return. Clients holds the
-- clients of a server with their goroutines.
pub mod Clients
use gowsclient.Base.{
  elem, ℕ, suc, ℤ, ◌≡◌, refl, Bool, true, false, not, List, [], ◌∷◌, ◌++◌, map, All, if◌then◌else◌,
  arith,
}
use gowsclient.Errors.{Error, nil, errorf, is_nil}

-- EchoWebsocketServer: the flag, how many server contexts were made, which of them were canceled,
-- newest first, and how often the http server was told to listen and to close. The contexts are
-- numbered from 1; the cancel function is that of the newest.
pub record Server : Type 0 where
  pub started : Bool
  pub contexts : ℕ
  pub canceled : List ℕ
  pub listens : ℕ
  pub closes : ℕ

-- NewEchoWebsocketServer
abbrev pub new_server : Server
new_server = record { started = false; contexts = 0; canceled = []; listens = 0; closes = 0 }

unfoldable pub start : Server → Server × Error
start srv = if srv.started then (srv, errorf "server already started") else (
  record srv { contexts = suc srv.contexts; started = true; listens = suc srv.listens },
  nil,
)

-- `close_err` is what httpServer.Close returns.
unfoldable pub stop : Error → Server → Server × Error
stop close_err srv =
    if not srv.started
    then (srv, errorf "server not started")
    else (record srv { canceled = srv.contexts ∷ srv.canceled; closes = suc srv.closes }, close_err)

-- A message that the session reads, and what the write of its echo returns; `read_err` ends it.
pub data Event : Type 0 where
  message : (msg_type : ℤ) (msg : List ℕ) (write_err : Error) → Event
  read_err : Error → Event

-- runClientSession: the messages that are written, for the events of one connection. Every branch
-- of a read error logs and returns.
unfoldable pub run_client_session : List Event → List (ℤ × List ℕ)
run_client_session [] = []
run_client_session (read_err err ∷ events) = []
run_client_session (message ty msg write_err ∷ events) =
    let rest = run_client_session events in (ty, msg) ∷ (if is_nil write_err then rest else [])

abbrev pub IsEchoed : Event → Type 0
IsEchoed (message _ _ write_err) = is_nil write_err ≡ true
IsEchoed (read_err _) = ⊥

abbrev pub echo_of : Event → ℤ × List ℕ
echo_of (message ty msg _) = (ty, msg)
echo_of (read_err _) = (ℤ.pos 0, [])

-- Every message that arrives before the first error is written back once, in order, with its type
-- and content, and nothing is written after a read error.
run_client_session-echo :
    (events rest : List Event) (err : Error)
    → All IsEchoed events
    → run_client_session (events ++ (read_err err ∷ rest)) ≡ map echo_of events
unfolding run_client_session
run_client_session-echo [] rest err h = refl
run_client_session-echo (message ty msg write_err ∷ events) rest err h =
    ground (arith, run_client_session-echo events rest err h.1)
run_client_session-echo (read_err e ∷ events) rest err h = absurd h.0

-- A server that was started and stopped cannot be started again, and it can be stopped again: Stop
-- leaves the started flag set.
stop_keeps_started :
    (srv : Server) (close_err : Error)
    → srv.started ≡ true
    → let stopped = (stop close_err srv).0 in
      (elem srv.contexts stopped.canceled ≡ true)
      × (start stopped ≡ (stopped, errorf "server already started"))
      × ((stop close_err stopped).1 ≡ close_err)
unfolding start stop
stop_keeps_started srv close_err h = ground arith
