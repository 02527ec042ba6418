-- ===== src/Engine/System/Invariant.antt =====
-- The invariant of the goroutines of wscengine/websocket_engine.go, kept by each step.
use gowsclient.Base.{
  ◌+◌, ◌≤◌, ◌≡◌, refl, ap, ◌∙◌, true, List, [], ◌∷◌, ◌++◌, map, elem, All, All-map, All-map_list,
  All-append, All-take, All-replace, All-at, sum_of-append, arith, length, ◌-◌, subst, sym,
}
use gowsclient.Config.{WebsocketEngineConfigurationOptions}
use gowsclient.Engine.State.{Engine, Session}
use gowsclient.Engine.Reader.{Pc, process}
use gowsclient.Engine.System.{
  Thread, Lock, System, holds, Move, locks, returns, handles, thread_of, fresh_readers, with_engine,
  Step, renews, starts, stops, restarts, cancels, user_locks, user_unlocks, reader, init, Reach,
  here, next,
}
use gowsclient.Engine.System.Holders.{
  holders, held, holders-fresh, held-lock_of, held-le, holders-at,
}
use gowsclient.Engine.Invariant.Defs.{IsOldSession, IsSound, Grows, Advances, onces}
use gowsclient.Engine.Invariant.Steps.{cancel-Advances}
use gowsclient.Engine.Invariant.Starts.{
  renew_ctx-Advances, start_engine-Advances, restart_engine-Advances,
}
use gowsclient.Engine.Invariant.Stops.{stop-Advances}
use gowsclient.Engine.Invariant.Readers.{
  IsOpened, IsOpened-mono, HasLeft, HasLeft-mono, StepsWell, begin_read-StepsWell,
  end_read-StepsWell, process-StepsWell,
}

abbrev pub ThreadIsOpened : Engine → Thread → Type 0
ThreadIsOpened e th = IsOpened e th.session

abbrev pub ThreadHasLeft : Engine → Thread → Type 0
ThreadHasLeft e th = HasLeft e th.session th.pc

pub record Inv (s : System) : Type 0 where
  pub sound : IsSound s.engine
  pub locked : holders s.threads ≡ held s.read_mutex
  pub opened : All (ThreadIsOpened s.engine) s.threads
  pub left : All (ThreadHasLeft s.engine) s.threads

threads_later :
    {e e' : Engine} (ths : List Thread)
    → Grows e e'
    → All (ThreadIsOpened e) ths
    → All (ThreadIsOpened e') ths
threads_later ths g h = All-map ths (λ th k. IsOpened-mono th.session g k) h

threads_left :
    {e e' : Engine} (ths : List Thread)
    → Grows e e'
    → All (ThreadHasLeft e) ths
    → All (ThreadHasLeft e') ths
threads_left ths g h = All-map ths (λ th k. HasLeft-mono th.session th.pc g k) h

onces_self :
    (ss : List Session)
    → All (λ s. elem (Session.shutdown_sync s) (map Session.shutdown_sync ss) ≡ true) ss
onces_self [] = tt
onces_self (x ∷ ss) = (ground arith, All-map ss (λ s k. ground arith) (onces_self ss))

all-IsOpened : {e : Engine} → IsSound e → All (IsOpened e) e.readers
all-IsOpened {e} h = both e.readers h.sessions_old (onces_self e.readers)
  where
    both :
        (ss : List Session)
        → All (IsOldSession e.next) ss
        → All (λ s. elem (Session.shutdown_sync s) (onces e) ≡ true) ss
        → All (IsOpened e) ss
    both [] h k = tt
    both (s ∷ ss) h k = (record { old = h.0; known = k.0 }, both ss h.1 k.1)

left-fresh : (e : Engine) (ss : List Session) → All (ThreadHasLeft e) (map thread_of ss)
left-fresh e [] = tt
left-fresh e (s ∷ ss) = (tt, left-fresh e ss)

with_engine-Inv : {s : System} {e' : Engine} → Inv s → Advances s.engine e' → Inv (with_engine s e')
with_engine-Inv {s} {e'} inv a = record {
  sound = a.sound;
  locked = omega (
    arith,
    sum_of-append (λ th. holds (Thread.pc th)) (map thread_of news) s.threads,
    holders-fresh news,
    inv.locked,
  );
  opened =
      All-append (ThreadIsOpened e') (map thread_of news) s.threads
        (All-map_list (ThreadIsOpened e') thread_of news (
          All-take (IsOpened e') (length e'.readers - length s.engine.readers) e'.readers
            (all-IsOpened a.sound)))
        (threads_later s.threads a.grows inv.opened);
  left =
      All-append (ThreadHasLeft e') (map thread_of news) s.threads (left-fresh e' news)
        (threads_left s.threads a.grows inv.left);
}
  where
    news : List Session
    news = fresh_readers s.engine e'

-- A step of the engine that starts no reader.
on_engine-Inv :
    {s : System} {e' : Engine} → Inv s → Advances s.engine e' → Inv (record s { engine = e' })
on_engine-Inv {s} inv a = record {
  sound = a.sound;
  locked = inv.locked;
  opened = threads_later s.threads a.grows inv.opened;
  left = threads_left s.threads a.grows inv.left;
}

-- A step of a reader, as the invariant sees it.
record MovesWell (e : Engine) (m : Lock) (th : Thread) (r : Engine × Pc) (m' : Lock) : Type 0 where
  steps : StepsWell e th.session r
  lock : held m' + holds th.pc ≡ held m + holds r.1

Move-MovesWell :
    {e : Engine} {m : Lock} {th : Thread} {r : Engine × Pc} {m' : Lock}
    → IsSound e
    → IsOpened e th.session
    → holds th.pc ≤ held m
    → Move e m th r m'
    → MovesWell e m th r m'
unfolding process
Move-MovesWell {e} {m} {th} {r} {m'} h o within (locks env place idle eq lock) = record {
  steps = subst (StepsWell e th.session) (sym eq) (begin_read-StepsWell env th.session h o);
  lock = rw (lock, place, idle, held-lock_of r.1) (omega arith);
}
Move-MovesWell {e} {m} {th} {r} {m'} h o within (returns env place eq lock) = record {
  steps = subst (StepsWell e th.session) (sym eq) (end_read-StepsWell env th.session h o);
  lock =
      let w : 1 ≤ held m = rw place at within in
      rw (lock, place, held-lock_of r.1) (omega (arith, held-le m));
}
Move-MovesWell {e} {m} {th} {r} {m'} h o within (handles sg ty msg place eq lock) = record {
  steps = subst (StepsWell e th.session) (sym eq) (process-StepsWell sg th.session ty msg h o);
  lock =
      let z : holds r.1 ≡ 0 = ap (λ (x : Engine × Pc). holds x.1) eq in
      rw (lock, place) (omega arith);
}

reader-Inv :
    {s : System} (before after : List Thread) (th : Thread) (r : Engine × Pc) (m' : Lock)
    → Inv s
    → s.threads ≡ before ++ (th ∷ after)
    → Move s.engine s.read_mutex th r m'
    → Inv (record {
      engine = r.0;
      read_mutex = m';
      threads = before ++ (record { session = th.session; pc = r.1 } ∷ after);
    })
reader-Inv {s} before after th r m' inv eq move = record {
  sound = well.steps.advances.sound;
  locked = omega (
    arith,
    holders-at before after (record { session = th.session; pc = r.1 }),
    well.lock,
    counted,
  );
  opened =
      All-replace (ThreadIsOpened r.0) before after th (record { session = th.session; pc = r.1 })
        (threads_later (before ++ (th ∷ after)) grows opened)
        (IsOpened-mono th.session grows (All-at (ThreadIsOpened s.engine) before after th opened));
  left =
      All-replace (ThreadHasLeft r.0) before after th (record { session = th.session; pc = r.1 })
        (threads_left (before ++ (th ∷ after)) grows
          (subst (All (ThreadHasLeft s.engine)) eq inv.left))
        well.steps.left;
}
  where
    opened : All (ThreadIsOpened s.engine) (before ++ (th ∷ after))
    opened = subst (All (ThreadIsOpened s.engine)) eq inv.opened

    counted : holders before + (holds th.pc + holders after) ≡ held s.read_mutex
    counted = sym (holders-at before after th) ∙ (sym (ap holders eq) ∙ inv.locked)

    well : MovesWell s.engine s.read_mutex th r m'
    well =
        Move-MovesWell inv.sound (All-at (ThreadIsOpened s.engine) before after th opened)
          (omega (arith, counted)) move

    grows : Grows s.engine r.0
    grows = well.steps.advances.grows

-- Every step of every goroutine keeps the invariant.
pub Step-Inv : {s t : System} → Step s t → Inv s → Inv t
Step-Inv (renews eq) inv = subst Inv (sym eq) (on_engine-Inv inv (renew_ctx-Advances inv.sound))
Step-Inv (starts env restart exit mine old eq) inv =
    subst Inv (sym eq) (with_engine-Inv inv (start_engine-Advances env restart exit inv.sound old))
Step-Inv (stops env eq) inv = subst Inv (sym eq) (with_engine-Inv inv (stop-Advances env inv.sound))
Step-Inv (restarts f exit k rounds pending old eq) inv =
    subst Inv (sym eq) (with_engine-Inv inv (restart_engine-Advances f exit k rounds inv.sound old))
Step-Inv (cancels c old eq) inv =
    subst Inv (sym eq) (on_engine-Inv inv (cancel-Advances c inv.sound old))
Step-Inv (user_locks idle eq) inv = subst Inv (sym eq) (record {
  sound = inv.sound;
  locked = rw idle at inv.locked;
  opened = inv.opened;
  left = inv.left;
})
Step-Inv (user_unlocks idle eq) inv = subst Inv (sym eq) (record {
  sound = inv.sound;
  locked = rw idle at inv.locked;
  opened = inv.opened;
  left = inv.left;
})
Step-Inv (reader before after th r m' threads move eq) inv =
    subst Inv (sym eq) (reader-Inv before after th r m' inv threads move)

pub init-Inv : (opts : WebsocketEngineConfigurationOptions) → Inv (init opts)
init-Inv opts = record {
  sound = record {
    canceled_old = tt;
    shut_old = tt;
    sync_old = omega arith;
    ctx_old = tt;
    stop_old = tt;
    sessions_old = tt;
    once = refl;
    distinct = tt;
    opened = tt;
    current = λ s. cc;
  };
  locked = refl;
  opened = tt;
  left = tt;
}

-- The invariant holds in every reachable state.
pub Reach-Inv : {opts : WebsocketEngineConfigurationOptions} {s : System} → Reach opts s → Inv s
Reach-Inv {opts} here = init-Inv opts
Reach-Inv (next r st) = Step-Inv st (Reach-Inv r)
