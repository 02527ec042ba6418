-- ===== src/Engine/Overlap/Deadlock.antt =====
-- A Stop of wscengine/websocket_engine.go that begins while restartEngine waits for a startEngine
-- goroutine, with no timeout.
use gowsclient.Base.{ℕ, ◌≡◌, false, none, is_at_least}
use gowsclient.Engine.State.{Engine}
use gowsclient.Engine.Overlap.{Overlap, waits, awaits}

-- Stop and restartEngine wait for one another, and neither has a timeout.
record Blocked (k : ℕ) (s : Overlap) : Type 0 where
  stops : s.stopper ≡ waits
  restarts : s.restarter ≡ awaits k
  nothing : s.startup ≡ none
  empty : s.engine.stopped_channel ≡ false
  no_round_timeout : is_at_least 1 s.engine.engine_cfg_opts.on_open_timeout_ms ≡ false
  no_stop_timeout : is_at_least 1 s.engine.engine_cfg_opts.stop_timeout_ms ≡ false
