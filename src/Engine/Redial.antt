-- ===== src/Engine/Redial.antt =====
-- restartEngine of wscengine/websocket_engine.go over a connection adapter: the error of each dial
-- is the one that the adapter returns in the state that the earlier calls have left it in.
use gowsclient.Base.{
  ℕ, ◌≡◌, ◌≢◌, refl, true, false, Option, List, [], ◌∷◌, All, arith, if◌then◌else◌, not,
}
use gowsclient.Errors.{Error, is_nil}
use gowsclient.Adapters.Constants.{going_away}
use gowsclient.Adapters.Interface.{ConnectionAdapter}
use gowsclient.Config.Delay.{Floats}
use gowsclient.Engine.State.{Engine, Call, dial, close, on_open}
use gowsclient.Engine.Start.{StartEnv}
use gowsclient.Engine.Start.Laws.{failure_calls, succeeds}
use gowsclient.Engine.Restart.{Attempt, restarted, restart_engine}
use gowsclient.Engine.Restart.Laws.{IsHonest, opens, restart_engine-started}
pub mod Reconnect
pub mod Connected

module _ {W Url Response : Type 0} (a : ConnectionAdapter W Url Response) (url : Url) where
  -- startEngine with the adapter's dial; `ctx` is the context's error when the adapter looks at it.
  abbrev pub dialing : (ctx : Error) → StartEnv → W → StartEnv
  dialing ctx env w = record env { dial_err = (a.dial ctx url w).2 }

  -- The calls of the engine, done on the adapter; newest first.
  abbrev pub apply : (ctx : Error) → List Call → W → W
  apply ctx [] w = w
  apply ctx (dial ∷ cs) w = (a.dial ctx url (apply ctx cs w)).0
  apply ctx (close code reason ∷ cs) w = (a.close code reason (apply ctx cs w)).0
  apply ctx (_ ∷ cs) w = apply ctx cs w

  -- The adapter after one startEngine of a restart.
  unfoldable pub after_start : (ctx : Error) → StartEnv → W → W
  after_start ctx env w =
      let (w', res, err) = a.dial ctx url w in
      if not (is_nil env.entry_err)
      then w
      else if not (is_nil env.dialed_err)
      then (a.close going_away "websocket client has been interrupted" w').0
      else if not (is_nil err)
      then w'
      else if is_nil env.open_err
      then w'
      else (a.close going_away "websocket client failed to start" w').0

  -- The rounds of restartEngine, each with the answer of the adapter to its dial.
  unfoldable pub over_adapter : List (Error × Attempt) → W → List Attempt
  unfolding after_start
  over_adapter [] w = []
  over_adapter ((ctx, r) ∷ rest) w =
      record r { run = dialing ctx r.run w } ∷ over_adapter rest (after_start ctx r.run w)

  -- It is the state that the calls of startEngine leave, when it fails.
  after_start-failure :
      (ctx : Error) (env : StartEnv) (w : W) (e : Engine)
      → succeeds (dialing ctx env w) true e ≡ false
      → after_start ctx env w ≡ apply ctx (failure_calls (dialing ctx env w) true e) w
  unfolding after_start
  after_start-failure ctx env w e h = ground arith

  after_start-success :
      (ctx : Error) (env : StartEnv) (w : W) (e : Engine)
      → succeeds (dialing ctx env w) true e ≡ true
      → after_start ctx env w ≡ apply ctx (on_open true ∷ dial ∷ []) w
  unfolding after_start
  after_start-success ctx env w e h = ground arith

  -- A round that is not given up at the wrong time: the context is live after the dial, and the
  -- error of a context that has ended is not nil.
  abbrev pub IsUninterrupted : Error × Attempt → Type 0
  IsUninterrupted (ctx, r) = (is_nil r.run.dialed_err ≡ true) × IsHonest r

  connected-after_start :
      (ctx : Error) (env : StartEnv) (w : W)
      → a.connected w ≡ true
      → is_nil env.dialed_err ≡ true
      → a.connected (after_start ctx env w) ≡ true
  unfolding after_start
  connected-after_start ctx env w up calm = ground (arith, a.dial_again ctx url w)

  opens-over_adapter :
      (rounds : List (Error × Attempt)) (w : W)
      → a.connected w ≡ true
      → All IsUninterrupted rounds
      → opens (over_adapter rounds w) ≡ false
  unfolding over_adapter
  opens-over_adapter [] w up h = refl
  opens-over_adapter ((ctx, r) ∷ rest) w up h =
      let later = connected-after_start ctx r.run w up h.0.0 in
      ground
        (arith, a.dial_again ctx url w, opens-over_adapter rest (after_start ctx r.run w) later h.1)

  IsHonest-over_adapter :
      (rounds : List (Error × Attempt)) (w : W)
      → All IsUninterrupted rounds
      → All IsHonest (over_adapter rounds w)
  unfolding over_adapter
  IsHonest-over_adapter [] w h = tt
  IsHonest-over_adapter ((ctx, r) ∷ rest) w h =
      (h.0.1, IsHonest-over_adapter rest (after_start ctx r.run w) h.1)

  -- restartEngine over any adapter that meets its interface: if a connection is still set when it
  -- begins, as after a restart function that was called in OnMessage, it never restarts the engine,
  -- in however many rounds, unless the timeout of a round ends in the middle of its dial.
  pub redial_never_restarts :
      (f : Floats) (exit : Option ℕ) (k : ℕ) (rounds : List (Error × Attempt)) (w : W) (e : Engine)
      → a.connected w ≡ true
      → All IsUninterrupted rounds
      → (restart_engine f exit k (over_adapter rounds w) e).1 ≢ restarted
  redial_never_restarts f exit k rounds w e up h back =
      let none_opens = opens-over_adapter rounds w up h in
      let some_opens =
        restart_engine-started f exit k (over_adapter rounds w) e (IsHonest-over_adapter rounds w h)
          back in
      cc (none_opens, some_opens.1)
