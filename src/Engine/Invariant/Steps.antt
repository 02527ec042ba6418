-- ===== src/Engine/Invariant/Steps.antt =====
-- The functions of the engine of wscengine/websocket_engine.go keep its invariant.
use gowsclient.Base.{
  ℕ, suc, ◌+◌, ◌<◌, ◌≡◌, refl, ap, ◌∙◌, Bool, true, false, Option, none, some, List, [], ◌∷◌, ◌++◌,
  map, All-map, All-append, All-replicate, elem, Below-mono, elem-append_right, arith, if_cases,
  replicate,
}
use gowsclient.Engine.State.{
  Engine, Session, CloseMessageDetails, Call, on_close, note, cancel, once_do,
}
use gowsclient.Engine.Calls.{count, is_on_close}
use gowsclient.Engine.Shutdown.{ShutdownEnv, shutdown_engine}
use gowsclient.Engine.Shutdown.Laws.{shutdown_calls, shutdown_engine-calls, shutdown_engine-Keeps}
use gowsclient.Engine.Start.{routines, new_session, launch}
use gowsclient.Engine.Invariant.Defs.{
  IsOld, IsOldSession, onces, IsSound, Grows-refl, Agrees, Advances, Advances-trans,
  Agrees-Advances, IsOld-mono, IsOldSession-mono,
}

pub same : {e : Engine} → IsSound e → Advances e e
same {e} h = record { sound = h; grows = Grows-refl e }

pub cancel-Advances :
    (c : Option ℕ) {e : Engine} → IsSound e → IsOld e.next c → Advances e (cancel c e)
cancel-Advances none h k = same h
cancel-Advances (some c) {e} h k = record {
  sound = record {
    canceled_old = (k, h.canceled_old);
    shut_old = h.shut_old;
    sync_old = h.sync_old;
    ctx_old = h.ctx_old;
    stop_old = h.stop_old;
    sessions_old = h.sessions_old;
    once = h.once;
    distinct = h.distinct;
    opened = h.opened;
    current = h.current;
  };
  grows = record {
    next = omega arith;
    canceled = λ d m. ground arith;
    shut_down = λ o m. m;
    opened = λ o m. m;
  };
}

-- A step that changes only the calls, by one that is no OnClose, or the stopped channel, the senders
-- that wait on it, or the number of restarts.
pub note-Advances :
    (c : Call) {e : Engine} → is_on_close c ≡ false → IsSound e → Advances e (note c e)
note-Advances c {e} other h = Agrees-Advances h (record {
  canceled = refl;
  shut_down = refl;
  readers = refl;
  next = refl;
  shutdown_sync = refl;
  ctx = refl;
  stop_func = refl;
  started = λ s. s;
  once = ground arith;
})

count-shutdown_calls :
    (env : ShutdownEnv) (msg : Option CloseMessageDetails) (skip : Bool) (cs : List Call)
    → count is_on_close (shutdown_calls env msg skip ++ cs) ≡ suc (count is_on_close cs)
count-shutdown_calls env msg skip cs = ground arith

-- The first thing that a session's shutdown does: its sync.Once has run, and OnClose is called.
mark_closed : ℕ → Option CloseMessageDetails → Engine → Engine
mark_closed once msg e = record e { shut_down = once ∷ e.shut_down; calls = on_close msg ∷ e.calls }

mark_closed-Advances :
    (once : ℕ) (msg : Option CloseMessageDetails) {e : Engine}
    → IsSound e
    → once < e.next
    → elem once (onces e) ≡ true
    → elem once e.shut_down ≡ false
    → Advances e (mark_closed once msg e)
unfolding mark_closed
mark_closed-Advances once msg {e} h old known new = record {
  sound = record {
    canceled_old = h.canceled_old;
    shut_old = (old, h.shut_old);
    sync_old = h.sync_old;
    ctx_old = h.ctx_old;
    stop_old = h.stop_old;
    sessions_old = h.sessions_old;
    once = ap suc h.once;
    distinct = (new, h.distinct);
    opened = (known, h.opened);
    current = h.current;
  };
  grows = record {
    next = omega arith;
    canceled = λ c m. m;
    shut_down = λ o m. ground arith;
    opened = λ o m. m;
  };
}

shutdown_engine-Agrees :
    (once : ℕ) (env : ShutdownEnv) (msg : Option CloseMessageDetails) (skip : Bool) (e : Engine)
    → Agrees
        (mark_closed once msg e)
        (shutdown_engine env msg skip (record e { shut_down = once ∷ e.shut_down })).0
unfolding mark_closed
shutdown_engine-Agrees once env msg skip e =
    let marked : Engine = record e { shut_down = once ∷ e.shut_down } in
    let k = shutdown_engine-Keeps env msg skip marked in
    record {
      canceled = k.canceled;
      shut_down = k.shut_down;
      readers = k.readers;
      next = k.next;
      shutdown_sync = k.shutdown_sync;
      ctx = k.ctx;
      stop_func = k.stop_func;
      started = λ s. rw k.started at s;
      once =
          ap (count is_on_close) (shutdown_engine-calls env msg skip marked)
          ∙ count-shutdown_calls env msg skip e.calls;
    }

-- A shutdown under the sync.Once of a session that was opened.
pub once_do-Advances :
    (once : ℕ) (env : ShutdownEnv) (msg : Option CloseMessageDetails) (skip : Bool) {e : Engine}
    → IsSound e
    → once < e.next
    → elem once (onces e) ≡ true
    → Advances e (once_do once (shutdown_engine env msg skip) e).0
unfolding once_do
once_do-Advances once env msg skip {e} h old known =
    if_cases (λ (r : Engine × Bool). Advances e r.0) (elem once e.shut_down) (λ done. same h)
      (λ new.
        let first = mark_closed-Advances once msg h old known new in
        Advances-trans first
          (Agrees-Advances first.sound (shutdown_engine-Agrees once env msg skip e)))

onces-append :
    (xs ys : List Session)
    → map Session.shutdown_sync (xs ++ ys)
      ≡ map Session.shutdown_sync xs ++ map Session.shutdown_sync ys
onces-append [] ys = refl
onces-append (x ∷ xs) ys = ap (λ l. x.shutdown_sync ∷ l) (onces-append xs ys)

pub launch-Advances :
    (exit : Option ℕ) {e : Engine} → IsSound e → IsOld e.next exit → Advances e (launch exit e)
unfolding launch
launch-Advances exit {e} h old = record {
  sound = record {
    canceled_old = Below-mono e.canceled (omega arith) h.canceled_old;
    shut_old = Below-mono e.shut_down (omega arith) h.shut_old;
    sync_old = omega arith;
    ctx_old = IsOld-mono e.engine_ctx (omega arith) h.ctx_old;
    stop_old = IsOld-mono e.engine_stop_func (omega arith) h.stop_old;
    sessions_old =
        All-append (IsOldSession (e.next + 2)) fresh e.readers
          (All-replicate (IsOldSession (e.next + 2)) n session (
            omega arith,
            IsOld-mono e.engine_ctx (omega arith) h.ctx_old,
            IsOld-mono exit (omega arith) old,
            omega arith,
          ))
          (All-map e.readers (λ s k. IsOldSession-mono s (omega arith) k) h.sessions_old);
    once = h.once;
    distinct = h.distinct;
    opened = All-map e.shut_down (λ o k. older o k) h.opened;
    current = λ s. newest;
  };
  grows = record { next = omega arith; canceled = λ c m. m; shut_down = λ o m. m; opened = older };
}
  where
    session : Session
    session = new_session exit e

    n : ℕ
    n = routines e.engine_cfg_opts.reader_routines_count

    fresh : List Session
    fresh = replicate n session

    older :
        (o : ℕ)
        → elem o (onces e) ≡ true
        → elem o (map Session.shutdown_sync (fresh ++ e.readers)) ≡ true
    older o k =
        rw (onces-append fresh e.readers)
          (elem-append_right o (map Session.shutdown_sync fresh) (onces e) k)

    newest : elem (e.next + 1) (map Session.shutdown_sync (fresh ++ e.readers)) ≡ true
    newest = ground arith
