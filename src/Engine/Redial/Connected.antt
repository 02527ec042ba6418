-- ===== src/Engine/Redial/Connected.antt =====
-- Whether a connection is set in the adapter after startEngine of wscengine/websocket_engine.go.
use gowsclient.Base.{ℕ, ◌≡◌, Bool, true, false, not, ◌||◌, Option, arith}
use gowsclient.Errors.{Error, is_nil}
use gowsclient.Adapters.Constants.{going_away}
use gowsclient.Adapters.Interface.{ConnectionAdapter}
use gowsclient.Engine.State.{Engine}
use gowsclient.Engine.Start.{StartEnv, start_engine}
use gowsclient.Engine.Redial.{dialing, after_start}

module _ {W Url Response : Type 0} (a : ConnectionAdapter W Url Response) (url : Url) where
  connected-dial :
      (ctx : Error) (w : W)
      → a.connected w ≡ false
      → a.connected (a.dial ctx url w).0 ≡ is_nil (a.dial ctx url w).2
  connected-dial ctx w off = ground (arith, off, a.dial_opens ctx url w, a.dial_succeeds ctx url w)

  -- startEngine over any adapter that has no connection yet, on an engine that is not started or in
  -- a restart: it sends nil on the startup channel exactly if it leaves a connection in the adapter.
  -- Whatever fails, the context, the dial or OnOpen, no connection is left open.
  pub start_engine-connected :
      (ctx : Error) (env : StartEnv) (restart : Bool) (exit : Option ℕ) (w : W) (e : Engine)
      → a.connected w ≡ false
      → (not e.started || restart) ≡ true
      → a.connected (after_start a url ctx env w)
        ≡ is_nil (start_engine (dialing a url ctx env w) restart exit e).1
  unfolding after_start start_engine
  start_engine-connected ctx env restart exit w e off begins = ground (
    arith,
    connected-dial ctx w off,
    a.close_drops going_away "websocket client has been interrupted" (a.dial ctx url w).0,
    a.close_drops going_away "websocket client failed to start" (a.dial ctx url w).0,
  )
