-- ===== src/Examples/Loops.antt =====
-- The loop of a reader, cycles of Start and Stop, and restarts that take several rounds.
use gowsclient.Base.{◌+◌, ◌≡◌, ◌≢◌, refl, true, some, [], ◌∷◌, ◌++◌}
use gowsclient.Errors.{CloseError, nil, foreign}
use gowsclient.Adapters.Constants.{normal_closure}
use gowsclient.Config.{default_options}
use gowsclient.Engine.Calls.{count, is_on_open, is_on_close}
use gowsclient.Engine.Reader.Loop.{Round}
use gowsclient.Engine.System.Invariant.{init-Inv}
use gowsclient.Engine.Cycles.{IsIdle, run_cycles, run_cycles-Cycles}
use gowsclient.Engine.Restart.{restarted, restart_engine}
use gowsclient.Engine.Restart.Retries.{retries, counted}
use gowsclient.Engine.Restart.Success.{restart_engine-succeeds}
use gowsclient.Engine.Redial.{over_adapter, redial_never_restarts}
use gowsclient.Adapters.Nhooyr.Laws.{nhooyr_adapter}
use gowsclient.Examples.Fixtures.{first_call, quiet, patient, fresh, hush, read_of, bye, left}
use gowsclient.Examples.Restarts.{naturals, failing, working}
use gowsclient.Examples.Adapters.{nhooyr, nhooyr_world}

abbrev pub greeting : Round
greeting = record {
  shutdown = quiet;
  read_env = record (read_of nil) { msg = 104 ∷ 105 ∷ [] };
  signals = hush;
}

abbrev farewell : Round
farewell = record greeting { read_env = read_of bye }

abbrev goodbye : CloseError
goodbye = record { code = normal_closure; reason = "bye"; err = foreign 1 }

run_cycles-Cycles_example :
    let (e', ok) = run_cycles ((first_call, patient) ∷ (first_call, patient) ∷ []) fresh in
    (ok ≡ true)
    × IsIdle e'
    × (count is_on_open e'.calls ≡ 2 + count is_on_open fresh.calls)
    × (count is_on_close e'.calls ≡ 2 + count is_on_close fresh.calls)
run_cycles-Cycles_example =
    run_cycles-Cycles ((first_call, patient) ∷ (first_call, patient) ∷ []) fresh
      (record {
        sound = (init-Inv default_options).sound;
        off = refl;
        empty = refl;
        unblocked = refl;
      })
      ((refl, refl, refl, refl, refl), ((refl, refl, refl, refl, refl), tt))

restart_engine-succeeds_example :
    let (e', result) =
      restart_engine naturals
        (some 1)
        0
        ((failing ∷ failing ∷ []) ++ (working ∷ failing ∷ []))
        left.engine in
    (result ≡ restarted)
    × (e'.started ≡ true)
    × (retries e'.calls ≡ counted 0 2 ++ retries left.engine.calls)
restart_engine-succeeds_example =
    restart_engine-succeeds naturals (some 1) 0 1 (failing ∷ failing ∷ []) working (failing ∷ [])
      left.engine refl refl
      (((refl, refl, refl), refl, refl), (((refl, refl, refl), refl, refl), tt)) (refl, refl, refl)
      refl

redial_never_restarts_example :
    (restart_engine naturals
      (some 1)
      0
      (over_adapter
        (nhooyr_adapter nhooyr)
        "wss://localhost"
        ((nil, working) ∷ (nil, working) ∷ [])
        nhooyr_world)
      left.engine).1
    ≢ restarted
redial_never_restarts_example =
    redial_never_restarts (nhooyr_adapter nhooyr) "wss://localhost" naturals (some 1) 0
      ((nil, working) ∷ (nil, working) ∷ []) nhooyr_world left.engine refl
      ((refl, λ h. cc), ((refl, λ h. cc), tt))
