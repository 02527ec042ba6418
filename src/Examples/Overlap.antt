-- ===== src/Examples/Overlap.antt =====
-- A Stop during the restart of the engine of Fixtures that a reader has left.
use gowsclient.Base.{◌≡◌, refl, true, some, inl, pos, elem}
use gowsclient.Errors.{canceled}
use gowsclient.Engine.State.{Engine}
use gowsclient.Engine.Restart.{restarted}
use gowsclient.Engine.Overlap.{Overlap, returned, ended, Run, meet}
use gowsclient.Engine.Overlap.Meeting.{IsRestarting}
use gowsclient.Engine.Overlap.Endings.{stop_gives_up-restarts}
use gowsclient.Examples.Fixtures.{quiet, left}
use gowsclient.Examples.Restarts.{naturals, working}

abbrev patient_engine : Engine
patient_engine = record left.engine {
  engine_cfg_opts = record left.engine.engine_cfg_opts {
    on_open_timeout_ms = pos 0;
    stop_timeout_ms = pos 0;
  };
}

left-IsRestarting : IsRestarting left.engine 1
left-IsRestarting = record {
  ctx = refl;
  stop_func = refl;
  started = refl;
  closed = refl;
  live = refl;
  empty = refl;
}

stop_gives_up-restarts_example :
    (u : Overlap) × Run canceled naturals (some 1) (meet left.engine 2) u
    × (u.stopper ≡ returned canceled)
    × (u.restarter ≡ ended restarted)
    × (u.engine.started ≡ true)
    × (elem 1 u.engine.canceled ≡ true)
stop_gives_up-restarts_example =
    stop_gives_up-restarts naturals (some 1) 2 quiet working canceled canceled left.engine 1
      left-IsRestarting refl (inl refl) refl
