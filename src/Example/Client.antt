-- ===== src/Example/Client.antt =====
-- ExampleClientImpl of example/client/websocket/client.go as a client of the engine, and how long a
-- restart goes on with it.
use gowsclient.Base.{ℕ, ◌+◌, ◌≡◌, Bool, true, false, none, List, [], ◌∷◌}
use gowsclient.Errors.{Error, nil}
use gowsclient.Client.{WebsocketClient, Signals}
use gowsclient.Engine.State.{Engine}
use gowsclient.Engine.Restart.{Attempt}
use gowsclient.Example.Callbacks.{ExampleClient, on_open, on_message, on_restart_error}

-- The counters, and what the next calls of conn.Write return; nil when none is left.
abbrev pub World : Type 0
World = ExampleClient × List Error

abbrev pub next_write : List Error → Error × List Error
next_write [] = (nil, [])
next_write (err ∷ errs) = (err, errs)

abbrev pub no_signals : Signals
no_signals = record { restarts = false; exits = false }

abbrev client_on_open : Bool → World → World × Error × Bool
client_on_open restarting (c, writes) =
    let (write_err, rest) = next_write writes in
    let (c', err, exits) = on_open restarting write_err c in ((c', rest), err, exits)

abbrev client_on_message : World → World × Signals
client_on_message (c, writes) =
    let (write_err, rest) = next_write writes in
    let (c', restarts) = on_message write_err c in
    ((c', rest), record { restarts = restarts; exits = false })

-- OnReadError, OnClose and OnCloseError only log; OnClose returns no message.
abbrev pub example_client : WebsocketClient World
example_client = record {
  on_open = client_on_open;
  on_message = λ session ty msg w. client_on_message w;
  on_read_error = λ err w. (w, no_signals);
  on_close = λ m w. (w, none);
  on_close_error = λ err w. w;
  on_restart_error = λ err k w. (w, on_restart_error k);
}

-- The rounds of restartEngine with the answers of the example's OnRestartError, whose retry counts
-- start at `k`.
abbrev pub with_example : (k : ℕ) → List Attempt → List Attempt
with_example k [] = []
with_example k (a ∷ rest) = record a { exits = on_restart_error k } ∷ with_example (k + 1) rest

false_ne : {b : Bool} → b ≡ true → b ≡ false → ⊥
false_ne h k = cc
