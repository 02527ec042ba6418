-- ===== src/Examples/Lifecycle.antt =====
-- Starts and stops of one engine.
use gowsclient.Base.{◌≡◌, refl, true, false, none, ◌++◌, elem}
use gowsclient.Errors.{nil}
use gowsclient.Engine.State.{engine_done}
use gowsclient.Engine.Shutdown.{shutdown_engine}
use gowsclient.Engine.Shutdown.Laws.{shutdown_calls, HandsOver, shutdown_engine-HandsOver}
use gowsclient.Engine.Stop.{stop, stop_ctx_err, returns}
use gowsclient.Engine.Stop.Laws.{stop_running}
use gowsclient.Examples.Fixtures.{quiet, patient, running, running-IsRunning}

shutdown_engine-HandsOver_example :
    HandsOver running
      (shutdown_engine quiet none false running).0
      (shutdown_engine quiet none false running).1
shutdown_engine-HandsOver_example = shutdown_engine-HandsOver quiet none false running

stop_running_example :
    let (e', result) = stop patient running in
    (result ≡ returns nil)
    × (e'.started ≡ false)
    × (engine_done e' ≡ true)
    × (elem running.shutdown_sync e'.shut_down ≡ true)
    × (e'.calls ≡ shutdown_calls patient.shutdown none false ++ running.calls)
    × (e'.restarts ≡ running.restarts)
    × (e'.stopped_channel ≡ false)
unfolding stop_ctx_err
stop_running_example = stop_running patient running 1 running-IsRunning refl refl
