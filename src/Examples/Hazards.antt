-- ===== src/Examples/Hazards.antt =====
-- Sequences of Start and Stop, and starts whose caller or whose OnOpen gives up.
use gowsclient.Base.{◌≡◌, refl, false, arith}
use gowsclient.Engine.Stop.{stop, stop_ctx_err, returns}
use gowsclient.Engine.Start.{start}
use gowsclient.Engine.Hazards.{start_again-stop}
use gowsclient.Examples.Fixtures.{first_call, patient, running, running-IsRunning, first_session}
use gowsclient.Errors.{nil, errorf, engine_start_error}
use gowsclient.Engine.State.{session_done}

start_again-stop_example :
    let (again, refusal) = start first_call running in
    let (e', result) = stop patient again in
    (refusal ≡ engine_start_error (errorf "engine has already started"))
    × (result ≡ returns nil)
    × (e'.started ≡ false)
    × (session_done e' first_session ≡ false)
unfolding stop_ctx_err
start_again-stop_example =
    start_again-stop first_call patient running 1 first_session running-IsRunning refl refl refl
      refl refl refl (omega arith, omega arith) refl
