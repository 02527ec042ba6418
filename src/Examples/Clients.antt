-- ===== src/Examples/Clients.antt =====
-- Clients of the engine and of the echo server.
use gowsclient.Base.{map, ◌≡◌, refl, false, none, List, [], ◌∷◌, All, arith}
use gowsclient.Errors.{nil, foreign}
use gowsclient.Adapters.Constants.{text}
use gowsclient.Client
use gowsclient.Client.{Callback, opens, messages, closes}
use gowsclient.Tracing.Summary.{summary}
use gowsclient.Client.Traced.{traced_client, entries, traced_client-run}
use gowsclient.Example.Client.{World, example_client}
use gowsclient.EchoServer.{start, stop}
use gowsclient.EchoServer.Clients.{
  Client, Hub, Steps, WatchdogSteps, here, next, starts, accepts, serve_http, init, IsClosed,
  stop-closes_all,
}
use gowsclient.Examples.Adapters.{status_text}

abbrev callbacks : List Callback
callbacks = opens false ∷ messages 2 text (104 ∷ []) ∷ closes none ∷ []

-- The second write fails.
abbrev world : World
world = (record { processed_msg_count = 0; restart_count = 0 }, nil ∷ foreign 1 ∷ [])

traced_client-run_example :
    let x = Client.run (traced_client status_text example_client) callbacks (world, []) in
    (x.0.0 ≡ (Client.run example_client callbacks world).0)
    × (x.1 ≡ (Client.run example_client callbacks world).1)
    × (map summary x.0.1 ≡ entries example_client callbacks world [])
traced_client-run_example = traced_client-run status_text example_client callbacks world []

-- The server was started and has taken two clients.
abbrev served : Hub
served = (let up = record init { server = (start init.server).0 } in serve_http (serve_http up))

served-Steps : Steps init served
unfolding start serve_http
served-Steps =
    next (next (next here (starts refl)) (accepts (omega arith) refl)) (accepts (omega arith) refl)

abbrev stopped : Hub
stopped = record served { server = (stop nil served.server).0 }

-- One more connection is accepted after the Stop.
late-Steps : Steps stopped (serve_http stopped)
unfolding start stop serve_http
late-Steps = next here (accepts (omega arith) refl)

stop-closes_all_example :
    let t = serve_http stopped in
    ((stop nil served.server).1 ≡ nil)
    × ((cs : List Client) × WatchdogSteps t (record { server = t.server; clients = cs })
        × All IsClosed cs)
unfolding start serve_http
stop-closes_all_example =
    stop-closes_all nil served (serve_http stopped) served-Steps refl late-Steps
