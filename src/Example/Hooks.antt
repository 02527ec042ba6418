-- ===== src/Example/Hooks.antt =====
-- The hooks of example/client/providers/provide_websocket_client_engine.go on an engine: OnStart with
-- the calls of engine.Start, and OnStop.
use gowsclient.Base.{
  ℕ, ◌≡◌, refl, ◌∙◌, true, false, List, [], ◌∷◌, ◌++◌, All, ltb, if◌then◌else◌, arith,
}
use gowsclient.Errors.{nil, is_nil}
use gowsclient.Adapters.Interface.{ConnectionAdapter}
use gowsclient.Client.{WebsocketClient}
use gowsclient.Engine.State.{Engine}
use gowsclient.Engine.Stop.{StopEnv, stop, Outcome, returns}
use gowsclient.Engine.Start.{StartCall, start, start_engine, renew_ctx}
use gowsclient.Engine.Composed.{after_calls}
use gowsclient.Engine.Invariant.Starts.{start-Advances}
use gowsclient.Engine.Cycles.{IsIdle, IsSmooth, start_smooth}
use gowsclient.Engine.Cycles.Connections.{stop-start_connected}
use gowsclient.Example.StartHook.{HookResult, hook_returns, on_start_loop}

-- The loop of OnStart over the calls of Start that are given.
unfoldable pub start_attempts : (attempts : ℕ) → List StartCall → Engine → Engine × HookResult
start_attempts attempts [] e = (e, on_start_loop attempts [])
start_attempts attempts (call ∷ calls) e =
    let (e', err) = start call e in
    let rest = start_attempts attempts calls e' in
    if ltb attempts 3
    then (if is_nil err then (e', hook_returns nil) else rest)
    else (e, hook_returns nil)

abbrev pub on_start_hook : List StartCall → Engine → Engine × HookResult
on_start_hook = start_attempts 0

abbrev pub on_stop_hook : StopEnv → Engine → Engine × Outcome
on_stop_hook = stop

-- A call of Start whose dial fails, and that is not disturbed else.
abbrev pub IsRefused : StartCall → Type 0
IsRefused call =
    (is_nil call.caller_err ≡ true)
    × (call.gives_up ≡ false)
    × (is_nil call.run.entry_err ≡ true)
    × (is_nil call.run.dialed_err ≡ true)
    × (is_nil call.run.dial_err ≡ false)

-- The engine after such calls.
abbrev pub after_refused : List StartCall → Engine → Engine
after_refused [] e = e
after_refused (call ∷ calls) e = after_refused calls (start call e).0

start_refused :
    (call : StartCall) (e : Engine)
    → e.started ≡ false
    → IsRefused call
    → let (e', err) = start call e in
      (is_nil err ≡ false)
      × (e'.started ≡ false)
      × (e'.stopped_channel ≡ e.stopped_channel)
      × (e'.blocked_senders ≡ e.blocked_senders)
unfolding start start_engine renew_ctx
start_refused call e off h = ground arith

refused-IsIdle :
    (call : StartCall) (e : Engine) → IsIdle e → IsRefused call → IsIdle (start call e).0
refused-IsIdle call e i h =
    let (bad, off, empty, unblocked) = start_refused call e i.off h in
    record {
      sound = (start-Advances call i.sound).sound;
      off = off;
      empty = empty ∙ i.empty;
      unblocked = unblocked ∙ i.unblocked;
    }

after_refused-IsIdle :
    (calls : List StartCall) (e : Engine)
    → IsIdle e
    → All IsRefused calls
    → IsIdle (after_refused calls e)
after_refused-IsIdle [] e i h = i
after_refused-IsIdle (call ∷ calls) e i h =
    after_refused-IsIdle calls (start call e).0 (refused-IsIdle call e i h.0) h.1

-- The hook goes on after every refused start, and ends with the first that succeeds.
start_attempts_refused :
    (refused : List StartCall) (call : StartCall) (env : StopEnv) (e : Engine)
    → IsIdle e
    → All IsRefused refused
    → IsSmooth (call, env)
    → start_attempts 0 (refused ++ (call ∷ [])) e
      ≡ ((start call (after_refused refused e)).0, hook_returns nil)
unfolding start_attempts
start_attempts_refused [] call env e i h smooth =
    ground (arith, (start_smooth call env e i.off smooth).0)
start_attempts_refused (r ∷ refused) call env e i h smooth = ground (
  arith,
  (start_refused r e i.off h.0).0,
  start_attempts_refused refused call env (start r e).0 (refused-IsIdle r e i h.0) h.1 smooth,
)

module _ {W Url Response C : Type 0} (a : ConnectionAdapter W Url Response)
    (client : WebsocketClient C) (url : Url) where
  -- OnStart and then OnStop of an engine over any adapter and any client: however often the server
  -- refuses the connection at first, OnStart returns nil with the first Start that is not disturbed,
  -- the adapter then has a connection, and OnStop returns nil and leaves none.
  pub on_start_hook-on_stop_hook :
      (refused : List StartCall) (call : StartCall) (env : StopEnv) (e : Engine) (x : W × C)
      → IsIdle e
      → All IsRefused refused
      → IsSmooth (call, env)
      → call.run.dial_err
        ≡ (a.dial nil url (after_calls a client url (after_refused refused e).calls x).0).2
      → let (up, result) = on_start_hook (refused ++ (call ∷ [])) e in
        let (down, stopped) = on_stop_hook env up in
        (result ≡ hook_returns nil)
        × (stopped ≡ returns nil)
        × (a.connected (after_calls a client url up.calls x).0 ≡ true)
        × (a.connected (after_calls a client url down.calls x).0 ≡ false)
  on_start_hook-on_stop_hook refused call env e x i h smooth answers =
      let life =
        stop-start_connected a client url call env (after_refused refused e) x
          (after_refused-IsIdle refused e i h) smooth answers in
      rw (start_attempts_refused refused call env e i h smooth) (refl, life.1, life.2, life.3)
