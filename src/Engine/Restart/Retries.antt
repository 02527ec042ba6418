-- ===== src/Engine/Restart/Retries.antt =====
-- The calls of OnRestartError that restartEngine of wscengine/websocket_engine.go makes.
use gowsclient.Base.{
  ℕ, zero, suc, ◌+◌, ◌≤◌, ◌≡◌, refl, ap, ◌∙◌, ℤ, Bool, true, Option, none, some, List, [], ◌∷◌,
  ◌++◌, length, arith, if_cases,
}
use gowsclient.Errors.{Error, is_nil}
use gowsclient.Config.Delay.{Floats}
use gowsclient.Engine.State.{Engine, Call, on_restart_error, send_stopped, engine_done}
use gowsclient.Engine.Start.{StartEnv, start_engine}
use gowsclient.Engine.Restart.{
  Attempt, RestartResult, looping, note_sleep, sleep_before, stopped_before, try_restart,
  restart_failed, restart_engine,
}
use gowsclient.Engine.Restart.Laws.{exit_result-ne_looping}

-- The retry counts that OnRestartError was given, newest first.
abbrev pub retries : List Call → List ℕ
retries [] = []
retries (on_restart_error err k ∷ cs) = k ∷ retries cs
retries (_ ∷ cs) = retries cs

-- The counts k, k + 1, and so on, newest first.
abbrev pub counted : (k n : ℕ) → List ℕ
counted k zero = []
counted k (suc n) = (k + n) ∷ counted k n

pub counted-append :
    (k n : ℕ) (xs : List ℕ) → counted (k + 1) n ++ (k ∷ xs) ≡ counted k (suc n) ++ xs
counted-append k zero xs = ground arith
counted-append k (suc n) xs = ground (arith, counted-append k n xs)

retries-stopped_before :
    (a : Attempt) (e : Engine) → retries (stopped_before a e).calls ≡ retries e.calls
retries-stopped_before a e = ground arith

retries-send_stopped : (e : Engine) → retries (send_stopped e).0.calls ≡ retries e.calls
unfolding send_stopped
retries-send_stopped e = ground arith

retries-restart_failed :
    (a : Attempt) (err : Error) (k : ℕ) (e : Engine)
    → retries (restart_failed a err k e).calls ≡ k ∷ retries e.calls
unfolding restart_failed
retries-restart_failed a err k e = ground arith

retries-start_engine :
    (env : StartEnv) (restart : Bool) (exit : Option ℕ) (e : Engine)
    → retries (start_engine env restart exit e).0.calls ≡ retries e.calls
unfolding start_engine
retries-start_engine env restart exit e = ground arith

retries-note_sleep : (d : Option ℤ) (e : Engine) → retries (note_sleep d e).calls ≡ retries e.calls
retries-note_sleep none e = refl
retries-note_sleep (some d) e = refl

retries-sleep_before :
    (f : Floats) (k : ℕ) (e : Engine) → retries (sleep_before f k e).calls ≡ retries e.calls
unfolding sleep_before
retries-sleep_before f k e = retries-note_sleep _ e

-- How a loop with the given rounds, that starts with the count k, has called OnRestartError.
abbrev pub Retries : (k rounds : ℕ) → Engine → Engine × RestartResult → Type 0
Retries k rounds e r =
    (n : ℕ) × (n ≤ rounds)
    × (retries r.0.calls ≡ counted k n ++ retries e.calls)
    × (r.1 ≡ looping → n ≡ rounds)

module _ (f : Floats) (exit : Option ℕ) where
  pub retries-try_restart :
      (k : ℕ) (a : Attempt) (e : Engine)
      → retries (try_restart f exit k a e).0.calls ≡ retries e.calls
  unfolding try_restart
  retries-try_restart k a e =
      retries-start_engine a.run true exit (sleep_before f k e) ∙ retries-sleep_before f k e

  -- restartEngine calls OnRestartError at most once for each round, with the counts k, k + 1 and so
  -- on in this order, where k is the count that the loop starts with; if the loop has not ended
  -- after the given rounds, it has called it once for each of them.
  pub restart_engine-Retries :
      (k : ℕ) (rounds : List Attempt) (e : Engine)
      → Retries k (length rounds) e (restart_engine f exit k rounds e)
  unfolding restart_engine
  restart_engine-Retries k [] e = (0, omega arith, refl, λ l. refl)
  restart_engine-Retries k (a ∷ rest) e =
      let now = stopped_before a e in
      let (tried, err) = try_restart f exit k a now in
      let failed = restart_failed a err k tried in
      let same = retries-try_restart k a now ∙ retries-stopped_before a e in
      let (n, few, calls, all) = restart_engine-Retries (k + 1) rest failed in
      if_cases (Retries k (suc (length rest)) e) (engine_done now)
        (λ done. (
          0,
          omega arith,
          retries-send_stopped now ∙ retries-stopped_before a e,
          λ l. absurd (exit_result-ne_looping (send_stopped now).1 l),
        ))
        (λ live.
          if_cases (Retries k (suc (length rest)) e) (is_nil err)
            (λ ok. (0, omega arith, same, λ l. cc))
            (λ bad. (
              suc n,
              omega (arith, few),
              calls
                  ∙ (ap (λ xs. counted (k + 1) n ++ xs)
                        (retries-restart_failed a err k tried ∙ ap (λ xs. k ∷ xs) same)
                      ∙ counted-append k n (retries e.calls)),
              λ l. ap suc (all l),
            )))
