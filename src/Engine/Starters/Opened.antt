-- ===== src/Engine/Starters/Opened.antt =====
-- The sessions and the calls of OnOpen in every run of overlapping calls of Start and Stop of
-- wscengine/websocket_engine.go.
use gowsclient.Base.{
  ℕ, ◌+◌, ◌≤◌, ◌≡◌, refl, sym, ap, subst, ◌∙◌, Bool, false, Option, none, some, List, ◌∷◌, ◌++◌,
  length, sum_of, sum_of-append, All, All-replace, All-at, if◌then◌else◌, arith,
}
use gowsclient.Errors.{Error, engine_start_error, is_nil}
use gowsclient.Config.{WebsocketEngineConfigurationOptions}
use gowsclient.Engine.State.{Engine, cancel}
use gowsclient.Engine.Calls.{count, is_on_open}
use gowsclient.Engine.Start.{StartEnv, routines, renew_ctx, start_engine}
use gowsclient.Engine.Stop.{stop}
use gowsclient.Engine.Starters.{
  Caller, awaits, returned, StartAttempt, Starters, Step, begins, refuses, runs, receives, gives_up,
  stops, cancels, Run, here, next, init, begin_start, run_starter, return_start, call_stop,
}
use gowsclient.Engine.Starters.Counts.{
  Quiet, cancel-Quiet, renew_ctx-Quiet, stop-Quiet, start_engine-Answers,
}

abbrev ran_by : Option Error → ℕ
ran_by none = 0
ran_by (some err) = 1

abbrev pub nil_by : Option Error → ℕ → ℕ
nil_by none n = 0
nil_by (some err) n = if is_nil err then n else 0

-- 1 if the startEngine goroutine has run
abbrev pub has_run : StartAttempt → ℕ
has_run a = ran_by a.sent

-- `n` if it has sent nil
abbrev pub has_sent_nil : ℕ → StartAttempt → ℕ
has_sent_nil n a = nil_by a.sent n

abbrev nil_of : Caller → ℕ
nil_of awaits = 0
nil_of (returned err) = if is_nil err then 1 else 0

-- 1 if the call of Start has returned nil
abbrev pub has_returned_nil : StartAttempt → ℕ
has_returned_nil a = nil_of a.caller

abbrev IsHonest : StartAttempt → Type 0
IsHonest a = has_returned_nil a ≤ has_sent_nil 1 a

record Opened (opts : WebsocketEngineConfigurationOptions) (s : Starters) : Type 0 where
  same_opts : s.engine.engine_cfg_opts ≡ opts
  readers :
      length s.engine.readers
      ≡ sum_of (has_sent_nil (routines opts.reader_routines_count)) s.attempts
  opens : sum_of (has_sent_nil 1) s.attempts ≤ count is_on_open s.engine.calls
  opens_once : count is_on_open s.engine.calls ≤ sum_of has_run s.attempts
  honest : All IsHonest s.attempts

-- A sum in which one element is replaced.
sum_of-replace :
    (w : StartAttempt → ℕ) (before after : List StartAttempt) (a b : StartAttempt)
    → sum_of w (before ++ (b ∷ after)) + w a ≡ sum_of w (before ++ (a ∷ after)) + w b
sum_of-replace w before after a b =
    omega (arith, sum_of-append w before (a ∷ after), sum_of-append w before (b ∷ after))

-- The same where the first sum is that over the calls of a state.
pub sum_of-at :
    (w : StartAttempt → ℕ) (xs before after : List StartAttempt) (a b : StartAttempt)
    → xs ≡ before ++ (a ∷ after)
    → sum_of w (before ++ (b ∷ after)) + w a ≡ sum_of w xs + w b
sum_of-at w xs before after a b at =
    omega (arith, sum_of-replace w before after a b, ap (sum_of w) at)

module _ {opts : WebsocketEngineConfigurationOptions} where
  Quiet-Opened :
      {s : Starters} (e' : Engine) (l : Bool)
      → Quiet s.engine e'
      → Opened opts s
      → Opened opts (record s { engine = e'; is_locked = l })
  Quiet-Opened e' l q o = record {
    same_opts = q.opts ∙ o.same_opts;
    readers = ap length q.readers ∙ o.readers;
    opens = omega (arith, q.opens, o.opens);
    opens_once = omega (arith, q.opens, o.opens_once);
    honest = o.honest;
  }

  run_starter-Opened :
      {s : Starters} (env : StartEnv) (before after : List StartAttempt) (a : StartAttempt)
      → s.attempts ≡ before ++ (a ∷ after)
      → a.sent ≡ none
      → Opened opts s
      → Opened opts (run_starter env before a after s)
  unfolding run_starter
  run_starter-Opened {s} env before after a at new o =
      let (e', err) = start_engine env false a.exit s.engine in
      let b = record a { sent = some err } in
      let ans = start_engine-Answers env a.exit s.engine in
      let n = routines opts.reader_routines_count in
      let same =
        ap
          (λ o.
            nil_by (some err)
              (routines (WebsocketEngineConfigurationOptions.reader_routines_count o)))
          o.same_opts in
      let none_before = λ (k : ℕ). ap (λ sent. nil_by sent k) new in
      let honest = subst (All IsHonest) at o.honest in
      record {
        same_opts = ans.opts ∙ o.same_opts;
        readers = omega (
          arith,
          ans.readers,
          same,
          none_before n,
          o.readers,
          sum_of-at (has_sent_nil n) s.attempts before after a b at,
        );
        opens = omega (
          arith,
          ans.opens,
          none_before 1,
          o.opens,
          sum_of-at (has_sent_nil 1) s.attempts before after a b at,
        );
        opens_once = omega (
          arith,
          ans.opens_once,
          ap ran_by new,
          o.opens_once,
          sum_of-at has_run s.attempts before after a b at,
        );
        honest =
            All-replace IsHonest before after a b honest
              (omega (arith, All-at IsHonest before after a honest, none_before 1));
      }

  return_start-Opened :
      {s : Starters} (err : Error) (before after : List StartAttempt) (a : StartAttempt)
      → s.attempts ≡ before ++ (a ∷ after)
      → nil_of (returned err) ≤ has_sent_nil 1 a
      → Opened opts s
      → Opened opts (return_start err before a after s)
  return_start-Opened {s} err before after a at truthful o =
      let b = record a { caller = returned err } in
      let n = routines opts.reader_routines_count in
      record {
        same_opts = o.same_opts;
        readers =
            omega (arith, o.readers, sum_of-at (has_sent_nil n) s.attempts before after a b at);
        opens = omega (arith, o.opens, sum_of-at (has_sent_nil 1) s.attempts before after a b at);
        opens_once = omega (arith, o.opens_once, sum_of-at has_run s.attempts before after a b at);
        honest = All-replace IsHonest before after a b (subst (All IsHonest) at o.honest) truthful;
      }

  Step-Opened : {s t : Starters} → Step s t → Opened opts s → Opened opts t
  unfolding begin_start run_starter call_stop
  Step-Opened {s} (begins eq) o =
      let q = renew_ctx-Quiet s.engine in
      subst (Opened opts) (sym eq) (record {
        same_opts = q.opts ∙ o.same_opts;
        readers = omega (arith, ap length q.readers, o.readers);
        opens = omega (arith, q.opens, o.opens);
        opens_once = omega (arith, q.opens, o.opens_once);
        honest = (omega arith, o.honest);
      })
  Step-Opened {s} (refuses eq) o =
      subst (Opened opts) (sym eq)
        (Quiet-Opened (renew_ctx s.engine) s.is_locked (renew_ctx-Quiet s.engine) o)
  Step-Opened {s} (runs env before after a free at new eq) o =
      subst (Opened opts) (sym eq) (run_starter-Opened env before after a at new o)
  Step-Opened {s} (receives before after a err at waits sent eq) o =
      subst (Opened opts) (sym eq)
        (return_start-Opened err before after a at (rw sent (omega arith)) o)
  Step-Opened {s} (gives_up before after a err at waits why eq) o =
      subst (Opened opts) (sym eq)
        (return_start-Opened (engine_start_error err) before after a at (omega arith) o)
  Step-Opened {s} (stops env free eq) o =
      subst (Opened opts) (sym eq)
        (Quiet-Opened (stop env s.engine).0 _ (stop-Quiet env s.engine) o)
  Step-Opened {s} (cancels c old eq) o =
      subst (Opened opts) (sym eq)
        (Quiet-Opened (cancel c s.engine) s.is_locked (cancel-Quiet c s.engine) o)

  Run-Opened : {s t : Starters} → Run s t → Opened opts s → Opened opts t
  Run-Opened here o = o
  Run-Opened (next r st) o = Step-Opened st (Run-Opened r o)

-- However calls of Start and Stop of a new engine, their startEngine goroutines and calls of cancel
-- functions overlap: the readers that were started are ReaderRoutinesCount (at least one) for each
-- goroutine that has sent nil; OnOpen was called at least once for each of these, and at most once
-- for each goroutine that has run; and a Start that has returned nil is one whose goroutine has sent
-- nil.
pub start_opens :
    {opts : WebsocketEngineConfigurationOptions} {s : Starters}
    → Run (init opts) s
    → (length s.engine.readers
        ≡ sum_of (has_sent_nil (routines opts.reader_routines_count)) s.attempts)
      × (sum_of (has_sent_nil 1) s.attempts ≤ count is_on_open s.engine.calls)
      × (count is_on_open s.engine.calls ≤ sum_of has_run s.attempts)
      × All (λ a. has_returned_nil a ≤ has_sent_nil 1 a) s.attempts
start_opens {opts} run =
    let o = Run-Opened run (record {
      same_opts = refl;
      readers = refl;
      opens = omega arith;
      opens_once = omega arith;
      honest = tt;
    }) in
    (o.readers, o.opens, o.opens_once, o.honest)
