-- ===== src/Examples/Sessions.antt =====
-- The readers of one session.
use gowsclient.Base.{◌≡◌, ◌≤◌, true, All, elem, length, Distinct}
use gowsclient.Engine.Calls.{count, is_on_open, is_on_close, is_close, is_dial}
use gowsclient.Engine.Invariant.Defs.{onces}
use gowsclient.Engine.System.Opens.Callbacks.{on_close-on_open}
use gowsclient.Engine.System.Safety.{
  readers_in, read_exclusive, on_close_once, EndedWell, exited_shut_down,
}
use gowsclient.Examples.Fixtures.{in_read, in_read-Reach, left, left-Reach}

on_close_once_example :
    (count is_on_close left.engine.calls ≡ length left.engine.shut_down)
    × Distinct left.engine.shut_down
    × All (λ o. elem o (onces left.engine) ≡ true) left.engine.shut_down
on_close_once_example = on_close_once left-Reach

on_close-on_open_example :
    (count is_on_close left.engine.calls ≤ count is_on_open left.engine.calls)
    × (count is_close left.engine.calls ≤ count is_dial left.engine.calls)
on_close-on_open_example = on_close-on_open left-Reach

read_exclusive_example : readers_in in_read.threads ≤ 1
read_exclusive_example = read_exclusive in_read-Reach

exited_shut_down_example : All (EndedWell left.engine) left.threads
exited_shut_down_example = exited_shut_down left-Reach
