-- ===== src/Engine/Cycles/Connections.antt =====
-- Whether a connection is set in the adapter after Start and after Stop of
-- wscengine/websocket_engine.go, whose calls are done on any adapter and any client.
use gowsclient.Base.{◌++◌, ap, ◌≡◌, ◌∙◌, true, false, none, List, ◌∷◌, arith, if_cases}
use gowsclient.Errors.{is_nil, nil}
use gowsclient.Adapters.Interface.{ConnectionAdapter}
use gowsclient.Client.{WebsocketClient}
use gowsclient.Engine.State.{Engine, Call, dial, on_open, on_close}
use gowsclient.Engine.Shutdown.{ShutdownEnv, or_default}
use gowsclient.Engine.Shutdown.Laws.{shutdown_calls}
use gowsclient.Engine.Composed.{run_call, after_calls}
use gowsclient.Engine.Stop.{StopEnv, stop, stop_ctx_err, returns}
use gowsclient.Engine.Stop.Laws.{stop_running}
use gowsclient.Engine.Start.{StartCall, start, start_engine, renew_ctx}
use gowsclient.Engine.Hazards.{start-Launches}
use gowsclient.Engine.Cycles.{IsIdle, IsSmooth, start_smooth, start-IsRunning}

start_calls :
    (call : StartCall) (env : StopEnv) (e : Engine)
    → e.started ≡ false
    → IsSmooth (call, env)
    → (start call e).0.calls ≡ on_open false ∷ dial ∷ e.calls
unfolding start start_engine renew_ctx
start_calls call env e off h = ground arith

module _ {W Url Response C : Type 0} (a : ConnectionAdapter W Url Response)
    (client : WebsocketClient C) (url : Url) where
  connected-shutdown_calls :
      (env : ShutdownEnv) (cs : List Call) (x : W × C)
      → a.connected (after_calls a client url (shutdown_calls env none false ++ cs) x).0 ≡ false
  unfolding after_calls
  connected-shutdown_calls env cs x =
      let m = or_default env.reply in
      let dropped =
        a.close_drops m.close_reason m.close_message
          (run_call a client url (on_close none) (after_calls a client url cs x)).0 in
      if_cases
        (λ (calls : List Call). a.connected (after_calls a client url (calls ++ cs) x).0 ≡ false)
        (is_nil env.close_err) (λ ok. dropped) (λ bad. dropped)

  -- A Start that is not disturbed, on an engine that is not started and whose adapter has no
  -- connection, returns nil and leaves a connection in the adapter, and the Stop that follows
  -- returns nil and leaves none, whatever OnClose and conn.Close answer.
  pub stop-start_connected :
      (call : StartCall) (env : StopEnv) (e : Engine) (x : W × C)
      → IsIdle e
      → IsSmooth (call, env)
      → call.run.dial_err ≡ (a.dial nil url (after_calls a client url e.calls x).0).2
      → let (up, err) = start call e in
        let (down, result) = stop env up in
        (is_nil err ≡ true)
        × (result ≡ returns nil)
        × (a.connected (after_calls a client url up.calls x).0 ≡ true)
        × (a.connected (after_calls a client url down.calls x).0 ≡ false)
  unfolding after_calls stop_ctx_err
  stop-start_connected call env e x i h answers =
      let up = (start call e).0 in
      let launched = start-Launches call e h.0 (ground (arith, h.2)) in
      let run = start-IsRunning e up i.sound i.empty launched in
      let begun = start_smooth call env e i.off h in
      let stopped =
        stop_running env up e.next run (begun.1 ∙ i.unblocked) (ground (arith, h.3, h.4)) in
      (
        begun.0,
        stopped.0,
        ap (λ cs. a.connected (after_calls a client url cs x).0) (start_calls call env e i.off h)
            ∙ a.dial_succeeds nil url (after_calls a client url e.calls x).0
                (ground (arith, h.2, answers)),
        ap (λ cs. a.connected (after_calls a client url cs x).0) stopped.4
            ∙ connected-shutdown_calls env.shutdown up.calls x,
      )
