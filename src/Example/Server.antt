-- ===== src/Example/Server.antt =====
-- The application of example/server: main.go, with the constructors of example/server/providers, and
-- the hooks that ProvideEchoServer registers. zap.NewDevelopment is a parameter.
use gowsclient.Base.{◌≡◌, ◌⊎◌, inl, inr, true, List, All}
use gowsclient.Errors.{Error}
use gowsclient.EchoServer.{Server, new_server, start, stop}
use gowsclient.EchoServer.Clients.{
  Client, IsClosed, Hub, init, Steps, WatchdogSteps, stop-closes_all,
}

-- A server that listens on all interfaces on the port 8081; the address is left out.
abbrev pub provide_echo_server : {Logger : Type 0} → Logger → Server
provide_echo_server logger = new_server

abbrev pub on_start_server : Server → Server × Error
on_start_server = start

abbrev pub on_stop_server : (close_err : Error) → Server → Server × Error
on_stop_server = stop

-- fx.Invoke calls the constructor of the server with the logger.
abbrev pub server_application : {Logger : Type 0} → Error ⊎ Logger → Error ⊎ Server
server_application (inl err) = inl err
server_application (inr logger) = inr (provide_echo_server logger)

-- Whatever the clients have done while the server of the application was started, and do after OnStop:
-- it returns what the http server's Close returns, and the watchdogs can then close every connection.
on_stop_server-closes_all :
    (close_err : Error) (h t : Hub)
    → Steps init h
    → h.server.started ≡ true
    → Steps (record h { server = (on_stop_server close_err h.server).0 }) t
    → ((on_stop_server close_err h.server).1 ≡ close_err)
      × ((cs : List Client) × WatchdogSteps t (record { server = t.server; clients = cs })
          × All IsClosed cs)
on_stop_server-closes_all = stop-closes_all
