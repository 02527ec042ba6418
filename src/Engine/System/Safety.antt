-- ===== src/Engine/System/Safety.antt =====
-- What holds in every state that the goroutines of wscengine/websocket_engine.go can reach.
use gowsclient.Base.{
  ℕ, ◌≤◌, ◌≡◌, true, List, [], ◌∷◌, All, All-map, subst, Distinct, elem, length, arith, sum_of,
}
use gowsclient.Config.{WebsocketEngineConfigurationOptions}
use gowsclient.Engine.State.{Engine, session_done}
use gowsclient.Engine.Calls.{count, is_on_close}
use gowsclient.Engine.Reader.{Pc, reading, exited}
use gowsclient.Engine.System.{Thread, by_user, System, Reach}
use gowsclient.Engine.System.Holders.{holders}
use gowsclient.Engine.System.Invariant.{Reach-Inv}
use gowsclient.Engine.Invariant.Defs.{onces}
use gowsclient.Engine.Invariant.Readers.{HasLeft}

abbrev pub is_reading : Pc → ℕ
is_reading reading = 1
is_reading _ = 0

-- How many readers are in conn.Read or in the handling of what it returned.
abbrev pub readers_in : List Thread → ℕ
readers_in = sum_of (λ th. is_reading (Thread.pc th))

readers_in-le : (ths : List Thread) → readers_in ths ≤ holders ths
readers_in-le [] = omega arith
readers_in-le (th ∷ ths) = ground (arith, readers_in-le ths)

-- In every reachable state at most one reader is between the locking and the release of the read
-- mutex around conn.Read, so conn.Read is never called twice at a time.
pub read_exclusive :
    {opts : WebsocketEngineConfigurationOptions} {s : System}
    → Reach opts s
    → readers_in s.threads ≤ 1
read_exclusive {s = s} r = ground (arith, (Reach-Inv r).locked, readers_in-le s.threads)

-- While the user holds the read mutex, no reader is in conn.Read.
user_pauses :
    {opts : WebsocketEngineConfigurationOptions} {s : System}
    → Reach opts s
    → s.read_mutex ≡ by_user
    → readers_in s.threads ≡ 0
user_pauses {s = s} r paused = ground (arith, (Reach-Inv r).locked, readers_in-le s.threads)

-- In every reachable state OnClose has been called exactly as often as a session was shut down; no
-- session was shut down twice, and each that was had been opened by a start that succeeded.
pub on_close_once :
    {opts : WebsocketEngineConfigurationOptions} {s : System}
    → Reach opts s
    → (count is_on_close s.engine.calls ≡ length s.engine.shut_down)
      × Distinct s.engine.shut_down
      × All (λ o. elem o (onces s.engine) ≡ true) s.engine.shut_down
on_close_once r = let i = Reach-Inv r in (i.sound.once, i.sound.distinct, i.sound.opened)

-- A reader that has exited.
abbrev pub EndedWell : Engine → Thread → Type 0
EndedWell e th =
    th.pc ≡ exited
    → (session_done e th.session ≡ true) × (elem th.session.shutdown_sync e.shut_down ≡ true)

-- In every reachable state, the session of each reader that has exited is done and has been shut
-- down.
pub exited_shut_down :
    {opts : WebsocketEngineConfigurationOptions} {s : System}
    → Reach opts s
    → All (EndedWell s.engine) s.threads
exited_shut_down {s = s} r =
    All-map s.threads (λ th k p. subst (HasLeft s.engine th.session) p k) (Reach-Inv r).left
