-- ===== src/Engine/Restart/Laws.antt =====
-- How the loop of restartEngine in wscengine/websocket_engine.go goes.
use gowsclient.Base.{
  ℕ, ◌+◌, ◌≡◌, ◌≢◌, refl, ℤ, Bool, true, false, Option, none, some, List, [], ◌∷◌, All, arith,
  if_cases, ◌&&◌, ◌||◌,
}
use gowsclient.Errors.{Error, is_nil}
use gowsclient.Config.Delay.{Floats}
use gowsclient.Engine.State.{Engine, send_stopped, engine_done}
use gowsclient.Engine.Start.Laws.{
  succeeds, start_engine_nil, KeepsCtx, KeepsCtx-refl, KeepsCtx-trans, start_engine-KeepsCtx,
}
use gowsclient.Engine.Restart.{
  Attempt, RestartResult, looping, restarted, note_sleep, sleep_before, stopped_before, try_restart,
  restart_failed, exit_result, restart_engine,
}

-- Whether the dial and OnOpen succeed in one of the rounds.
abbrev pub opens : List Attempt → Bool
opens [] = false
opens (a ∷ rest) = (is_nil a.run.dial_err && is_nil a.run.open_err) || opens rest

-- The error of a context that has ended is not nil.
abbrev pub IsHonest : Attempt → Type 0
IsHonest a = a.gives_up ≡ true → is_nil a.waiting_err ≡ false

exit_result-ne : (back : Bool) → exit_result back ≢ restarted
exit_result-ne true h = cc
exit_result-ne false h = cc

note_sleep-KeepsCtx : (d : Option ℤ) (e : Engine) → KeepsCtx e (note_sleep d e)
note_sleep-KeepsCtx none e = KeepsCtx-refl e
note_sleep-KeepsCtx (some d) e = record { ctx = refl; stop_func = refl; opts = refl }

sleep_before-KeepsCtx : (f : Floats) (k : ℕ) (e : Engine) → KeepsCtx e (sleep_before f k e)
unfolding sleep_before
sleep_before-KeepsCtx f k e = note_sleep-KeepsCtx _ e

pub exit_result-ne_looping : (back : Bool) → exit_result back ≢ looping
exit_result-ne_looping true h = cc
exit_result-ne_looping false h = cc

pub stopped_before-KeepsCtx : (a : Attempt) (e : Engine) → KeepsCtx e (stopped_before a e)
stopped_before-KeepsCtx a e = ground arith

pub restart_failed-KeepsCtx :
    (a : Attempt) (err : Error) (k : ℕ) (e : Engine) → KeepsCtx e (restart_failed a err k e)
unfolding restart_failed
restart_failed-KeepsCtx a err k e = ground arith

module _ (f : Floats) (exit : Option ℕ) where
  try_restart_nil :
      (k : ℕ) (a : Attempt) (e : Engine)
      → IsHonest a
      → is_nil (try_restart f exit k a e).1 ≡ true
      → (succeeds a.run true (sleep_before f k e) ≡ true)
        × ((try_restart f exit k a e).0.started ≡ true)
  unfolding try_restart
  try_restart_nil k a e honest ok =
      start_engine_nil a.run true exit (sleep_before f k e) (ground arith)

  -- If the loop of restartEngine ends because the engine has restarted, the engine is started, and
  -- in one of the rounds the dial and OnOpen succeeded. The error of a context that ends a wait is
  -- taken to be not nil.
  pub restart_engine-started :
      (k : ℕ) (rounds : List Attempt) (e : Engine)
      → All IsHonest rounds
      → (restart_engine f exit k rounds e).1 ≡ restarted
      → ((restart_engine f exit k rounds e).0.started ≡ true) × (opens rounds ≡ true)
  unfolding restart_engine
  restart_engine-started k [] e h = λ ok. cc
  restart_engine-started k (a ∷ rest) e h =
      let now = stopped_before a e in
      let tried = try_restart f exit k a now in
      let again = restart_engine-started (k + 1) rest (restart_failed a tried.1 k tried.0) h.1 in
      if_cases Ends (engine_done now) (λ done ok. absurd (exit_result-ne (send_stopped now).1 ok))
        (λ live.
          if_cases Ends (is_nil tried.1)
            (λ good ok. let t = try_restart_nil k a now h.0 good in (t.1, ground (arith, t.0)))
            (λ bad ok. let r = again ok in (r.0, ground (arith, r.1))))
    where
      Ends : Engine × RestartResult → Type 0
      Ends r = r.1 ≡ restarted → (r.0.started ≡ true) × (opens (a ∷ rest) ≡ true)

  pub try_restart-KeepsCtx :
      (k : ℕ) (a : Attempt) (e : Engine) → KeepsCtx e (try_restart f exit k a e).0
  unfolding try_restart
  try_restart-KeepsCtx k a e =
      KeepsCtx-trans (sleep_before-KeepsCtx f k e)
        (start_engine-KeepsCtx a.run true exit (sleep_before f k e))
