-- ===== src/Engine/Starters/Reach.antt =====
-- Every run of overlapping calls of Start and Stop is one of the goroutines of
-- wscengine/websocket_engine.go together.
use gowsclient.Base.{
  Bool, false, ◌≡◌, refl, sym, subst, some, List, [], ◌∷◌, ◌++◌, All, All-map, All-replace, All-at,
  arith,
}
use gowsclient.Errors.{engine_start_error}
use gowsclient.Config.{WebsocketEngineConfigurationOptions}
use gowsclient.Engine.State.{Engine, cancel}
use gowsclient.Engine.Start.{renew_ctx, start_engine}
use gowsclient.Engine.Stop.{stop}
use gowsclient.Engine.Invariant.Defs.{IsOld, IsOld-mono}
use gowsclient.Engine.System
use gowsclient.Engine.System.{System, Thread, Lock, free, renews, starts, Reach}
use gowsclient.Engine.System.Invariant.{Reach-Inv}
use gowsclient.Engine.System.Growth.{Step-Grows}
use gowsclient.Engine.Starters.{
  returned, StartAttempt, Starters, Step, begins, refuses, runs, receives, gives_up, stops, cancels,
  Run, here, next, init, begin_start, run_starter, call_stop,
}

abbrev IsOldAt : Engine → StartAttempt → Type 0
IsOldAt e a = IsOld e.next a.exit

-- The goroutines together, with this engine, and the exit functions of the calls were handed out
-- earlier.
record Covers (opts : WebsocketEngineConfigurationOptions) (s : Starters) : Type 1 where
  read_mutex : Lock
  threads : List Thread
  reached : Reach opts (record { engine = s.engine; read_mutex = read_mutex; threads = threads })
  old : All (IsOldAt s.engine) s.attempts

module _ {opts : WebsocketEngineConfigurationOptions} where
  advance :
      {s : Starters} (c : Covers opts s) (e' : Engine) (l : Bool) (threads' : List Thread)
      → System.Step
          (record { engine = s.engine; read_mutex = c.read_mutex; threads = c.threads })
          (record { engine = e'; read_mutex = c.read_mutex; threads = threads' })
      → Covers opts (record s { engine = e'; is_locked = l })
  advance {s} c e' l threads' st =
      let grows = Step-Grows st (Reach-Inv c.reached) in
      record {
        read_mutex = c.read_mutex;
        threads = threads';
        reached = System.next c.reached st;
        old = All-map s.attempts (λ a old. IsOld-mono a.exit grows.next old) c.old;
      }

  with_attempts :
      {s : Starters} (xs : List StartAttempt)
      → Covers opts s
      → All (IsOldAt s.engine) xs
      → Covers opts (record s { attempts = xs })
  with_attempts xs c old = record {
    read_mutex = c.read_mutex;
    threads = c.threads;
    reached = c.reached;
    old = old;
  }

  -- A call of which only the answer or the caller changes.
  replaced :
      {s : Starters} (before after : List StartAttempt) (a b : StartAttempt)
      → s.attempts ≡ before ++ (a ∷ after)
      → b.exit ≡ a.exit
      → Covers opts s
      → Covers opts (record s { attempts = before ++ (b ∷ after) })
  replaced {s} before after a b at same c =
      let old = subst (All (IsOldAt s.engine)) at c.old in
      with_attempts (before ++ (b ∷ after)) c (
        All-replace (IsOldAt s.engine) before after a b old
          (subst (IsOld s.engine.next) (sym same) (All-at (IsOldAt s.engine) before after a old)))

  Step-Covers : {s t : Starters} → Step s t → Covers opts s → Covers opts t
  unfolding begin_start run_starter call_stop renew_ctx
  Step-Covers {s} (begins eq) c =
      let r = advance c (renew_ctx s.engine) s.is_locked c.threads (renews refl) in
      subst (Covers opts) (sym eq) (with_attempts _ r (omega arith, r.old))
  Step-Covers {s} (refuses eq) c =
      subst (Covers opts) (sym eq)
        (advance c (renew_ctx s.engine) s.is_locked c.threads (renews refl))
  Step-Covers {s} (runs env before after a unlocked at new eq) c =
      let (e', err) = start_engine env false a.exit s.engine in
      let old =
        All-at (IsOldAt s.engine) before after a (subst (All (IsOldAt s.engine)) at c.old) in
      let r = advance c e' s.is_locked _ (starts env false a.exit (λ h. cc) old refl) in
      subst (Covers opts) (sym eq)
        (replaced before after a (record a { sent = some err }) at refl r)
  Step-Covers {s} (receives before after a err at waits sent eq) c =
      subst (Covers opts) (sym eq)
        (replaced before after a (record a { caller = returned err }) at refl c)
  Step-Covers {s} (gives_up before after a err at waits why eq) c =
      subst (Covers opts) (sym eq) (
        replaced before after a (record a { caller = returned (engine_start_error err) }) at refl c)
  Step-Covers {s} (stops env unlocked eq) c =
      subst (Covers opts) (sym eq) (advance c (stop env s.engine).0 _ _ (System.stops env refl))
  Step-Covers {s} (cancels d old eq) c =
      subst (Covers opts) (sym eq)
        (advance c (cancel d s.engine) s.is_locked c.threads (System.cancels d old refl))

  Run-Covers : {s t : Starters} → Run s t → Covers opts s → Covers opts t
  Run-Covers here c = c
  Run-Covers (next r st) c = Step-Covers st (Run-Covers r c)

-- The engine of every state that overlapping calls of Start and Stop, their startEngine goroutines
-- and calls of cancel functions come to is that of a reachable state of the goroutines together.
pub Run-Reach :
    {opts : WebsocketEngineConfigurationOptions} {s : Starters}
    → Run (init opts) s
    → (t : System) × Reach opts t × (t.engine ≡ s.engine)
Run-Reach {opts} {s} run =
    let c =
      Run-Covers run
        (record { read_mutex = free; threads = []; reached = System.here; old = tt }) in
    (record { engine = s.engine; read_mutex = c.read_mutex; threads = c.threads }, c.reached, refl)
