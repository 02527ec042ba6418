-- ===== src/Engine/Spans/Restart.antt =====
-- restartEngine of wscengine/websocket_engine.go with its span.
use gowsclient.Base.{
  ℕ, ◌+◌, ◌≡◌, refl, ◌∙◌, ap, Bool, Option, none, some, String, List, [], ◌∷◌, ◌++◌, arith,
  if◌then◌else◌, if_both,
}
use gowsclient.Errors.{Error, canceled, is_nil}
use gowsclient.Tracing.{Attribute, ok_status, Status, record_error, add_event, Span}
use gowsclient.Tracing.Names.{span_engine_restart, event_engine_exit}
use gowsclient.Tracing.Summary.{errors_of, status_of, events_of}
use gowsclient.Config.Delay.{Floats, retry_sleep}
use gowsclient.Engine.State.{Engine, Call, on_restart_error, engine_done, send_stopped}
use gowsclient.Engine.Start.{start_engine}
use gowsclient.Engine.Restart.{
  Attempt, RestartResult, looping, restarted, exited, stopped_before, try_restart, restart_failed,
  exit_result, restart_engine,
}
use gowsclient.Engine.Spans.{start_span}
use gowsclient.Engine.Spans.Shutdown.{finish}

-- The errors that OnRestartError was called with, newest first.
abbrev pub restart_errors : List Call → List Error
restart_errors [] = []
restart_errors (on_restart_error err k ∷ calls) = err ∷ restart_errors calls
restart_errors (_ ∷ calls) = restart_errors calls

-- What a loop with a given end records at last.
abbrev pub last_error : RestartResult → List Error
last_error exited = canceled ∷ []
last_error _ = []

-- The exit events, and the status, of a loop with a given end.
abbrev pub exit_events : RestartResult → List (List Attribute)
exit_events exited = [] ∷ []
exit_events _ = []

abbrev pub end_status : RestartResult → Option Status
end_status restarted = some ok_status
end_status exited = some ok_status
end_status _ = none

module _ (f : Floats) (exit : Option ℕ) (k : ℕ) (a : Attempt) (e : Engine) where
  restart_errors-try_restart :
      restart_errors (try_restart f exit k a e).0.calls ≡ restart_errors e.calls
  unfolding try_restart start_engine retry_sleep
  restart_errors-try_restart = ground arith

restart_errors-stopped_before :
    (a : Attempt) (e : Engine) → restart_errors (stopped_before a e).calls ≡ restart_errors e.calls
restart_errors-stopped_before a e = ground arith

restart_errors-restart_failed :
    (a : Attempt) (err : Error) (k : ℕ) (e : Engine)
    → restart_errors (restart_failed a err k e).calls ≡ err ∷ restart_errors e.calls
unfolding restart_failed
restart_errors-restart_failed a err k e = ground arith

module _ (status_text : Status → String) where
  -- The end of a loop whose engine context is canceled: the send comes before the calls on the span.
  abbrev pub traced_exit : Engine × Bool → Span → Engine × RestartResult × Span
  traced_exit (e, back) span = (
    e,
    exit_result back,
    if back
        then finish status_text (add_event event_engine_exit [] ∷ record_error canceled ∷ span)
        else span,
  )

  -- The loop from a given round on.
  unfoldable pub traced_loop :
      Floats
      → (exit : Option ℕ) → (retry_count : ℕ) → List Attempt
      → Engine
      → Span
      → Engine × RestartResult × Span
  traced_loop f exit retry_count [] e span = (e, looping, span)
  traced_loop f exit retry_count (a ∷ rest) e span =
      let now = stopped_before a e in
      let (tried, err) = try_restart f exit retry_count a now in
      let again =
        traced_loop f exit (retry_count + 1) rest (restart_failed a err retry_count tried)
          (record_error err ∷ span) in
      if engine_done now
      then traced_exit (send_stopped now) span
      else if is_nil err
      then (tried, restarted, finish status_text span)
      else again

  unfoldable pub traced_restart_engine :
      Floats → (exit : Option ℕ) → List Attempt → Engine → Engine × RestartResult × Span
  unfolding traced_loop
  traced_restart_engine f exit rounds e =
      traced_loop f exit 0 rounds e (start_span span_engine_restart [])

  -- What a loop does and shows; `earlier` are the errors of earlier loops.
  abbrev Shows : List Error → Engine × RestartResult × Span → Engine × RestartResult → Type 0
  Shows earlier (e', r, span) result =
      ((e', r) ≡ result)
      × (last_error r ++ restart_errors e'.calls ≡ errors_of span ++ earlier)
      × (events_of event_engine_exit span ≡ exit_events r)
      × (status_of span ≡ end_status r)

  traced_exit-Shows :
      (earlier : List Error) (span : Span) (e : Engine)
      → restart_errors e.calls ≡ errors_of span ++ earlier
      → events_of event_engine_exit span ≡ []
      → status_of span ≡ none
      → let (sent, back) = send_stopped e in
        Shows earlier (traced_exit (sent, back) span) (sent, exit_result back)
  unfolding send_stopped
  traced_exit-Shows earlier span e errors events status = ground arith

  -- The span that a loop starts with shows the errors so far and no end.
  traced_loop-Shows :
      (f : Floats) (exit : Option ℕ) (k : ℕ) (rounds : List Attempt) (e : Engine) (span : Span)
      (earlier : List Error)
      → restart_errors e.calls ≡ errors_of span ++ earlier
      → events_of event_engine_exit span ≡ []
      → status_of span ≡ none
      → Shows earlier (traced_loop f exit k rounds e span) (restart_engine f exit k rounds e)
  unfolding traced_loop restart_engine
  traced_loop-Shows f exit k [] e span earlier errors events status = (refl, errors, events, status)
  traced_loop-Shows f exit k (a ∷ rest) e span earlier errors events status =
      let now = stopped_before a e in
      let (tried, err) = try_restart f exit k a now in
      let failed = restart_failed a err k tried in
      let before = restart_errors-stopped_before a e ∙ errors in
      let same = restart_errors-try_restart f exit k a now ∙ before in
      if_both (Shows earlier) (engine_done now)
        (λ done. traced_exit-Shows earlier span now before events status)
        (λ live.
          if_both (Shows earlier) (is_nil err) (λ ok. (refl, same, events, refl))
            (λ bad.
              traced_loop-Shows f exit (k + 1) rest failed (record_error err ∷ span) earlier
                (restart_errors-restart_failed a err k tried ∙ ap (λ errs. err ∷ errs) same) events
                status))

  -- With its span restartEngine does the same. The span shows the errors that OnRestartError is
  -- called with, in their order, and then context.Canceled if the loop ends because the engine
  -- context has ended; then alone it has an exit event; and it has the status Ok exactly if the
  -- function returns.
  pub traced_restart_engine_lem :
      (f : Floats) (exit : Option ℕ) (rounds : List Attempt) (e : Engine)
      → let (e', r, span) = traced_restart_engine f exit rounds e in
        ((e', r) ≡ restart_engine f exit 0 rounds e)
        × (last_error r ++ restart_errors e'.calls ≡ errors_of span ++ restart_errors e.calls)
        × (events_of event_engine_exit span ≡ exit_events r)
        × (status_of span ≡ end_status r)
  unfolding traced_restart_engine
  traced_restart_engine_lem f exit rounds e =
      traced_loop-Shows f exit 0 rounds e (start_span span_engine_restart [])
        (restart_errors e.calls) refl refl refl
