-- ===== src/Examples/Spans.antt =====
-- Spans of the engine of Fixtures: a start whose OnOpen fails, the shutdown of a session, a restart
-- that fails once, and two messages.
use gowsclient.Base.{
  ◌≡◌, refl, false, none, some, [], ◌∷◌, ◌++◌, All, length, ◌+◌, suc, if◌then◌else◌,
}
use gowsclient.Errors.{foreign}
use gowsclient.Tracing.Names.{span_engine_background_start, span_engine_shutdown, event_engine_exit}
use gowsclient.Tracing.Summary.{summary, result_status, name_of, status_of, errors_of, events_of}
use gowsclient.Engine.Start.{StartEnv, start_engine}
use gowsclient.Engine.Shutdown.{ShutdownEnv, shutdown_engine}
use gowsclient.Engine.Spans.{closed_events, closings}
use gowsclient.Engine.Spans.Start.{traced_start_engine, traced_start_engine_lem}
use gowsclient.Engine.Spans.Reader.{traced_run_engine}
use gowsclient.Engine.Spans.Reader.Rounds.{is_ended, traced_run_engine-is_ended}
use gowsclient.Examples.Fixtures.{calm, fresh, running, first_session}
use gowsclient.Examples.Adapters.{status_text}
use gowsclient.Examples.Loops.{greeting}
use gowsclient.Tracing.{ok_status}
use gowsclient.Engine.Spans.Shutdown.{traced_shutdown_engine, traced_shutdown_engine_lem}

abbrev unwelcome : StartEnv
unwelcome = record calm { open_err = foreign 3 }

traced_start_engine_lem_example :
    let (e', sent, span) =
      traced_start_engine status_text unwelcome (foreign 4) false (some 1) fresh in
    ((e', sent) ≡ start_engine unwelcome false (some 1) fresh)
    × (summary span ≡ record {
      name = span_engine_background_start;
      error = sent;
      status = some (result_status sent);
    })
    × (closings e'.calls ≡ closed_events span ++ closings fresh.calls)
traced_start_engine_lem_example =
    traced_start_engine_lem status_text unwelcome (foreign 4) false (some 1) fresh

abbrev broken : ShutdownEnv
broken = record { reply = none; close_err = foreign 5 }

traced_run_engine-is_ended_example :
    let (e', pc, spans) =
      traced_run_engine status_text "session" "routine"
        (greeting ∷ greeting ∷ [])
        first_session
        running
        [] in
    (length spans ≡ 2) × All (λ span. is_ended span ≡ false) spans
traced_run_engine-is_ended_example =
    traced_run_engine-is_ended status_text "session" "routine" (greeting ∷ greeting ∷ [])
      first_session running ((refl, refl, refl), ((refl, refl, refl), tt)) refl

traced_shutdown_engine_lem_example :
    let (e', back, span) = traced_shutdown_engine status_text broken none false running in
    ((e', back) ≡ shutdown_engine broken none false running)
    × (name_of span ≡ span_engine_shutdown)
    × (closings e'.calls ≡ closed_events span ++ closings running.calls)
    × (errors_of span ≡ foreign 5 ∷ [])
    × (length (events_of event_engine_exit span) + e'.restarts ≡ suc running.restarts)
    × (status_of span ≡ (if back then some ok_status else none))
traced_shutdown_engine_lem_example =
    traced_shutdown_engine_lem status_text broken none false running
