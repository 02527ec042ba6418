-- ===== src/Examples/Drained.antt =====
-- The readers of a running engine, one of them in a read.
use gowsclient.Base.{◌≤◌, ◌+◌, ◌*◌, ◌≡◌, refl, ℕ, inl, All, length}
use gowsclient.Errors.{nil}
use gowsclient.Engine.Calls.{count}
use gowsclient.Engine.Stop.{stop, stop_ctx_err, returns}
use gowsclient.Engine.System.{System, with_engine}
use gowsclient.Engine.System.Drain.{Run}
use gowsclient.Engine.System.Drain.Progress.{ReadersRun, HasExited}
use gowsclient.Engine.System.Drain.Stopped.{stop-HasExited}
use gowsclient.Engine.System.Reads.{owed, reads_cover}
use gowsclient.Engine.System.Reads.Others.{is_read, is_handled}
use gowsclient.Examples.Fixtures.{patient, in_read, in_read-Reach}

reads_cover_example :
    count is_handled in_read.engine.calls + owed in_read.threads
    ≤ count is_read in_read.engine.calls
reads_cover_example = reads_cover in_read-Reach

-- One of the readers is in conn.Read.
stop-HasExited_example :
    let (e', result) = stop patient in_read.engine in
    let s' = with_engine in_read e' in
    (result ≡ returns nil)
    × ((t : System) × ReadersRun s' t × All HasExited t.threads)
    × ((m : ℕ) (t : System) → Run s' m t → m ≤ 2 * length in_read.threads)
unfolding stop_ctx_err
stop-HasExited_example =
    stop-HasExited patient 1 in_read-Reach
      (record { ctx = refl; stop_func = refl; started = refl; unclosed = refl; empty = refl }) refl
      refl (inl (refl, refl), (inl (refl, refl), (inl (refl, refl), (inl (refl, refl), tt)))) refl
