-- ===== src/Example/Callbacks.antt =====
-- The callbacks of ExampleClientImpl in example/client/websocket/client.go: the counters, and what a
-- callback calls of what it is handed. Its logs and spans are left out.
use gowsclient.Base.{
  ℕ, ◌+◌, ◌≤◌, ◌≡◌, refl, Bool, true, false, ◌&&◌, leb, List, [], ◌∷◌, if◌then◌else◌, arith,
}
use gowsclient.Errors.{Error, nil, wrapf, is_nil}

-- The counters are int64; that they do not wrap around is taken for granted.
pub record ExampleClient : Type 0 where
  pub processed_msg_count : ℕ
  pub restart_count : ℕ

abbrev pub new_client : ExampleClient
new_client = record { processed_msg_count = 0; restart_count = 0 }

-- The new counters, the error that is returned, and whether `exit` was called. `write_err` is what
-- conn.Write returns.
unfoldable pub on_open :
    (restarting : Bool) (write_err : Error) → ExampleClient → ExampleClient × Error × Bool
on_open restarting write_err client =
    let counted =
      if restarting
      then record client { restart_count = client.processed_msg_count + 1 }
      else client in
    let exits = restarting && leb 3 counted.restart_count in
    if is_nil write_err
    then (record { processed_msg_count = 0; restart_count = 0 }, nil, exits)
    else (counted, wrapf "failed to start demo client" write_err, exits)

-- The new counters, and whether `restart` was called.
unfoldable pub on_message : (write_err : Error) → ExampleClient → ExampleClient × Bool
on_message write_err client =
    let counted = record client { processed_msg_count = client.processed_msg_count + 1 } in
    if is_nil write_err then (counted, false) else (counted, true)

-- Whether `exit` was called.
unfoldable pub on_restart_error : (retry_count : ℕ) → Bool
on_restart_error retry_count = leb 5 retry_count

-- Whether OnOpen gives up depends on the messages that were processed since the last success, and
-- not on the restarts: two clients that processed the same number of messages exit alike, whatever
-- their restart counts, and a client exits exactly if it restarts after at least two messages.
on_open_exits :
    (restarting : Bool) (write_err : Error) (processed restarts : ℕ)
    → (on_open restarting write_err
        (record { processed_msg_count = processed; restart_count = restarts })).2
      ≡ (restarting && leb 2 processed)
unfolding on_open
on_open_exits restarting write_err processed restarts = ground arith

-- A client that restarts any number of times without a message in between, the writes of OnOpen
-- failing or not.
unfoldable pub reopen : List Error → ExampleClient → ExampleClient × Bool
unfolding on_open
reopen [] client = (client, false)
reopen (write_err ∷ errs) client =
    let (client', err, exits) = on_open true write_err client in
    if exits then (client', true) else reopen errs client'

-- Restarts alone, however many, never make OnOpen give up: with fewer than two messages processed
-- no sequence of restarts calls exit.
reopen_never_exits :
    (errs : List Error) (client : ExampleClient)
    → client.processed_msg_count ≤ 1
    → (reopen errs client).1 ≡ false
unfolding reopen
reopen_never_exits [] client few = refl
reopen_never_exits (write_err ∷ errs) client few =
    ground (arith, reopen_never_exits errs (on_open true write_err client).0)
