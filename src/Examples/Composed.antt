-- ===== src/Examples/Composed.antt =====
-- The engine over the nhooyr adapter and the example client: a network in which the third read from
-- a connection meets a close message.
use gowsclient.Engine.System.Invariant.{init-Inv}
use gowsclient.Config.{default_options}
use gowsclient.Engine.Stop.{stop, returns}
use gowsclient.Engine.State.{session_done, dial, on_open, on_close}
use gowsclient.Engine.Cycles.Exits.{opened_session, start_exits-stop}
use gowsclient.Base.{
  ℕ, suc, ◌+◌, pos, ◌≡◌, refl, true, false, none, some, [], ◌∷◌, ltb, if◌then◌else◌, arith,
  replicate, ◌++◌,
}
use gowsclient.Errors.{CloseError, nil, foreign, is_nil, as_close_error}
use gowsclient.Adapters.Constants.{going_away}
use gowsclient.Adapters.Interface.{ReadResult}
use gowsclient.Adapters.Nhooyr
use gowsclient.Adapters.Nhooyr.Laws.{nhooyr_adapter}
use gowsclient.Client.{WebsocketClient}
use gowsclient.Engine.Reader.{end_read, exited, close_message, begin_read}
use gowsclient.Engine.Reader.Loop.{run_engine}
use gowsclient.Engine.Redial.{dialing, over_adapter, after_start}
use gowsclient.Engine.Redial.Reconnect.{read_answer, end_read-restart_engine}
use gowsclient.Engine.Restart.{restarted, restart_engine}
use gowsclient.Engine.Start.{start_engine, StartCall, start}
use gowsclient.Engine.Redial.Connected.{start_engine-connected}
use gowsclient.Engine.Composed.{after_calls, after_rounds, rounds_of, run_engine-after_rounds}
use gowsclient.Example.Callbacks.{on_message}
use gowsclient.Example.Client.{World, example_client}
use gowsclient.Examples.Fixtures.{
  calm, fresh, quiet, hush, running, first_session, first_call, patient,
}
use gowsclient.Examples.Restarts.{naturals, working}
use gowsclient.Examples.Adapters.{nhooyr}

abbrev read_at : ℕ → ReadResult
read_at n = record { msg_type = pos 1; msg = n ∷ []; err = if ltb n 3 then nil else foreign 1006 }

read_at_foreign : (n : ℕ) → as_close_error (ReadResult.err (read_at n)) ≡ none
unfolding as_close_error
read_at_foreign n = ground arith

abbrev network : Nhooyr.Library
network = record nhooyr {
  read = λ ctx c n. (suc n, read_at n);
  read_foreign = λ ctx c n. read_at_foreign n;
}

abbrev undialed : Nhooyr.NhooyrWorld network
undialed = record { conn = none; opts = none; net = 0 }

-- Connected, with the third read to come.
abbrev ending : Nhooyr.NhooyrWorld network
ending = record { conn = some 0; opts = none; net = 3 }

abbrev unused : World
unused = (record { processed_msg_count = 0; restart_count = 0 }, [])

abbrev at_first : Nhooyr.NhooyrWorld network × World
at_first = (undialed, unused)

abbrev bye_error : CloseError
bye_error = record { code = going_away; reason = "closed"; err = foreign 1006 }

run_engine-after_rounds_example :
    let a = nhooyr_adapter network in
    let x = after_calls a example_client "wss://localhost" running.calls at_first in
    let (w, c) = after_rounds a example_client first_session 2 x in
    let (e', pc) =
      run_engine (rounds_of a example_client first_session (2 + suc 1) x) first_session running in
    (pc ≡ exited)
    × (after_calls a example_client "wss://localhost" e'.calls at_first ≡ (
      (a.read nil w).0,
      (WebsocketClient.on_close example_client (some (close_message bye_error)) c).0,
    ))
    × (a.connected (a.read nil w).0 ≡ false)
unfolding after_calls after_rounds as_close_error on_message Nhooyr.read Nhooyr.dial
    Nhooyr.convert_from_nhooyr_status_codes
run_engine-after_rounds_example =
    run_engine-after_rounds (nhooyr_adapter network) example_client "wss://localhost" first_session
      2 1 at_first running bye_error (refl, refl, (refl, refl, tt)) refl refl refl refl

end_read-restart_engine_example :
    let a = nhooyr_adapter network in
    let (e', pc) =
      end_read (read_answer a "wss://localhost" hush quiet ending) first_session running in
    let w' = (a.read nil ending).0 in
    let (up, result) =
      restart_engine naturals
        (some 1)
        0
        (over_adapter a "wss://localhost" ((nil, working) ∷ []) w')
        e' in
    (pc ≡ exited)
    × (e'.restarts ≡ 1)
    × (a.connected w' ≡ false)
    × (result ≡ restarted)
    × (up.started ≡ true)
    × (a.connected (after_start a "wss://localhost" nil working.run w') ≡ true)
unfolding as_close_error Nhooyr.read Nhooyr.dial Nhooyr.convert_from_nhooyr_status_codes
end_read-restart_engine_example =
    end_read-restart_engine (nhooyr_adapter network) "wss://localhost" naturals (some 1) hush quiet
      first_session running 1 bye_error ending nil working [] refl refl refl refl refl refl refl
      (refl, refl, refl) refl

start_engine-connected_example :
    let a = nhooyr_adapter network in
    a.connected (after_start a "wss://localhost" nil calm undialed)
    ≡ is_nil (start_engine (dialing a "wss://localhost" nil calm undialed) false (some 1) fresh).1
start_engine-connected_example =
    start_engine-connected (nhooyr_adapter network) "wss://localhost" nil calm false (some 1)
      undialed fresh refl refl

-- OnOpen calls exit.
abbrev leaving_call : StartCall
leaving_call = record first_call { run = record calm { open_exits = true } }

start_exits-stop_example :
    let a = nhooyr_adapter network in
    let (up, err) = start leaving_call fresh in
    let (left, pc) = begin_read quiet (opened_session fresh) up in
    let (down, result) = stop patient left in
    (err ≡ nil)
    × (up.readers ≡ replicate 4 (opened_session fresh) ++ [])
    × (session_done up (opened_session fresh) ≡ true)
    × (pc ≡ exited)
    × (left.calls ≡ on_close none ∷ on_open false ∷ dial ∷ [])
    × (left.started ≡ true)
    × (result ≡ returns nil)
    × (down.started ≡ false)
    × (a.connected (after_calls a example_client "wss://localhost" down.calls at_first).0 ≡ true)
unfolding Nhooyr.dial after_calls
start_exits-stop_example =
    start_exits-stop (nhooyr_adapter network) example_client "wss://localhost" leaving_call patient
      quiet fresh at_first
      (record {
        sound = (init-Inv default_options).sound;
        off = refl;
        empty = refl;
        unblocked = refl;
      })
      (refl, refl, refl, refl, refl) refl refl
