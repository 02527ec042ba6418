-- ===== src/Engine/Restart/Success.antt =====
-- When restartEngine of wscengine/websocket_engine.go succeeds.
use gowsclient.Base.{
  ℤ, none, length, ℕ, ◌+◌, ◌≡◌, refl, ◌∙◌, Bool, true, false, ◌&&◌, Option, some, List, [], ◌∷◌,
  ◌++◌, All, elem, arith,
}
use gowsclient.Errors.{is_nil}
use gowsclient.Config.Delay.{Floats}
use gowsclient.Engine.State.{Engine}
use gowsclient.Engine.Start.{StartEnv, start_engine}
use gowsclient.Engine.Start.Laws.{start_engine_result, start_engine_nil}
use gowsclient.Engine.Restart.{
  Attempt, restarted, note_sleep, sleep_before, try_restart, restart_failed, restart_engine,
}
use gowsclient.Engine.Restart.Retries.{retries, counted, counted-append, retries-try_restart}
use gowsclient.Engine.Restart.Laws.{try_restart-KeepsCtx}

-- Nobody calls the stop function of the engine, and the round is not given up.
abbrev pub IsCalm : Attempt → Type 0
IsCalm a = (a.stopped ≡ false) × (a.gives_up ≡ false) × (a.run.open_exits ≡ false)

-- Whether the start of a round succeeds: its context stays live, and the dial and OnOpen succeed.
abbrev pub opens_engine : Attempt → Bool
opens_engine a =
    is_nil a.run.entry_err
    && is_nil a.run.dialed_err
    && is_nil a.run.dial_err
    && is_nil a.run.open_err

-- A round that fails and after which OnRestartError does not call exit.
abbrev pub Fails : Attempt → Type 0
Fails a = IsCalm a × (opens_engine a ≡ false) × (a.exits ≡ false)

module _ (f : Floats) (exit : Option ℕ) where
  try_restart_calm :
      (k : ℕ) (a : Attempt) (e : Engine)
      → IsCalm a
      → is_nil (try_restart f exit k a e).1 ≡ opens_engine a
  unfolding try_restart
  try_restart_calm k a e calm =
      ground (arith, start_engine_result a.run true exit (sleep_before f k e))

  canceled-try_restart :
      (k : ℕ) (a : Attempt) (e : Engine)
      → IsCalm a
      → (try_restart f exit k a e).0.canceled ≡ e.canceled
  unfolding try_restart start_engine sleep_before
  canceled-try_restart k a e calm = canceled-start_engine a.run calm.2 _ ∙ canceled-note_sleep _ e
    where
      canceled-note_sleep : (d : Option ℤ) (e : Engine) → (note_sleep d e).canceled ≡ e.canceled
      canceled-note_sleep none e = refl
      canceled-note_sleep (some d) e = refl

      canceled-start_engine :
          (env : StartEnv)
          → env.open_exits ≡ false
          → (e : Engine) → (start_engine env true exit e).0.canceled ≡ e.canceled
      canceled-start_engine env h e = ground arith

  started-try_restart :
      (k : ℕ) (a : Attempt) (e : Engine)
      → IsCalm a
      → opens_engine a ≡ true
      → (try_restart f exit k a e).0.started ≡ true
  unfolding try_restart
  started-try_restart k a e calm ok =
      (start_engine_nil a.run true exit (sleep_before f k e)
        (ground (arith, start_engine_result a.run true exit (sleep_before f k e)))).1

  -- While nobody stops the engine, no round is given up at OnOpenTimeoutMs and OnOpen does not call
  -- exit, restartEngine goes on until a round succeeds: after any number of rounds that fail, and
  -- whose OnRestartError does not call exit, the first round whose context stays live and whose dial
  -- and OnOpen succeed ends the loop with the engine started, and no later round is begun.
  pub restart_engine-succeeds :
      (k c : ℕ) (fails : List Attempt) (a : Attempt) (rest : List Attempt) (e : Engine)
      → e.engine_ctx ≡ some c
      → elem c e.canceled ≡ false
      → All Fails fails
      → IsCalm a
      → opens_engine a ≡ true
      → let (e', result) = restart_engine f exit k (fails ++ (a ∷ rest)) e in
        (result ≡ restarted)
        × (e'.started ≡ true)
        × (retries e'.calls ≡ counted k (length fails) ++ retries e.calls)
  unfolding restart_engine restart_failed
  restart_engine-succeeds k c [] a rest e ctx live all calm ok = ground (
    arith,
    try_restart_calm k a e calm,
    started-try_restart k a e calm ok,
    retries-try_restart f exit k a e,
  )
  restart_engine-succeeds k c (b ∷ fails) a rest e ctx live all calm ok =
      let (tried, err) = try_restart f exit k b e in
      let failed = restart_failed b err k tried in
      let kept = try_restart-KeepsCtx f exit k b e in
      let later =
        restart_engine-succeeds (k + 1) c fails a rest failed (ground (arith, kept.ctx, all.0.2))
          (ground (arith, canceled-try_restart k b e all.0.0, all.0.2)) all.1 calm ok in
      ground (
        arith,
        try_restart_calm k b e all.0.0,
        later,
        retries-try_restart f exit k b e,
        counted-append k (length fails) (retries e.calls),
      )
