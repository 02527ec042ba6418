-- ===== src/Engine/System/Growth.antt =====
-- Every step of the goroutines of wscengine/websocket_engine.go only adds: a context that is canceled
-- stays so, and a session that was shut down too.
use gowsclient.Base.{◌≡◌, sym, ap, subst, All, All-at}
use gowsclient.Engine.State.{Engine}
use gowsclient.Engine.Reader.{Pc}
use gowsclient.Engine.Invariant.Defs.{IsSound, Grows, Grows-refl}
use gowsclient.Engine.Invariant.Steps.{cancel-Advances}
use gowsclient.Engine.Invariant.Starts.{
  renew_ctx-Advances, start_engine-Advances, restart_engine-Advances,
}
use gowsclient.Engine.Invariant.Stops.{stop-Advances}
use gowsclient.Engine.Invariant.Readers.{
  IsOpened, begin_read-StepsWell, end_read-StepsWell, process-StepsWell,
}
use gowsclient.Engine.System.{
  Thread, Lock, System, Move, locks, returns, handles, Step, renews, starts, stops, restarts,
  cancels, user_locks, user_unlocks, reader,
}
use gowsclient.Engine.System.Invariant.{Inv, ThreadIsOpened}

Move-Grows :
    {e : Engine} {m : Lock} {th : Thread} {r : Engine × Pc} {m' : Lock}
    → IsSound e
    → IsOpened e th.session
    → Move e m th r m'
    → Grows e r.0
Move-Grows {e} {m} {th} h o (locks env at idle eq lock) =
    subst (λ (x : Engine × Pc). Grows e x.0) (sym eq)
      (begin_read-StepsWell env th.session h o).advances.grows
Move-Grows {e} {m} {th} h o (returns env at eq lock) =
    subst (λ (x : Engine × Pc). Grows e x.0) (sym eq)
      (end_read-StepsWell env th.session h o).advances.grows
Move-Grows {e} {m} {th} h o (handles sg ty msg at eq lock) =
    subst (λ (x : Engine × Pc). Grows e x.0) (sym eq)
      (process-StepsWell sg th.session ty msg h o).advances.grows

Grows-eq : {e e' e'' : Engine} → e'' ≡ e' → Grows e e' → Grows e e''
Grows-eq {e} eq g = subst (Grows e) (sym eq) g

pub Step-Grows : {s t : System} → Step s t → Inv s → Grows s.engine t.engine
Step-Grows {s} (renews eq) inv = Grows-eq (ap System.engine eq) (renew_ctx-Advances inv.sound).grows
Step-Grows {s} (starts env restart exit mine old eq) inv =
    Grows-eq (ap System.engine eq) (start_engine-Advances env restart exit inv.sound old).grows
Step-Grows {s} (stops env eq) inv =
    Grows-eq (ap System.engine eq) (stop-Advances env inv.sound).grows
Step-Grows {s} (restarts f exit k rounds pending old eq) inv =
    Grows-eq (ap System.engine eq) (restart_engine-Advances f exit k rounds inv.sound old).grows
Step-Grows {s} (cancels c old eq) inv =
    Grows-eq (ap System.engine eq) (cancel-Advances c inv.sound old).grows
Step-Grows {s} (user_locks idle eq) inv = Grows-eq (ap System.engine eq) (Grows-refl s.engine)
Step-Grows {s} (user_unlocks idle eq) inv = Grows-eq (ap System.engine eq) (Grows-refl s.engine)
Step-Grows {s} (reader before after th r m' at move eq) inv = Grows-eq (ap System.engine eq) (
    Move-Grows inv.sound
      (All-at (ThreadIsOpened s.engine) before after th
        (subst (All (ThreadIsOpened s.engine)) at inv.opened))
      move)
