-- ===== src/Engine/Invariant/Defs.antt =====
-- The invariant of the engine of wscengine/websocket_engine.go, and the order in which its state
-- can only grow.
use gowsclient.Base.{
  ℕ, ◌≤◌, ◌<◌, ◌≡◌, true, Option, none, some, List, map, length, All, elem, Below, Distinct, arith,
}
use gowsclient.Engine.State.{Engine, Session}
use gowsclient.Engine.Calls.{count, is_on_close}

-- A context that was handed out before `n`.
abbrev pub IsOld : ℕ → Option ℕ → Type 0
IsOld n none = Unit
IsOld n (some c) = c < n

abbrev pub IsOldSession : ℕ → Session → Type 0
IsOldSession n s = (s.ctx < n) × IsOld n s.parent × IsOld n s.exit × (s.shutdown_sync < n)

-- The sync.Once objects of the sessions that were opened.
abbrev pub onces : Engine → List ℕ
onces e = map Session.shutdown_sync e.readers

pub record IsSound (e : Engine) : Type 0 where
  pub canceled_old : Below e.next e.canceled
  pub shut_old : Below e.next e.shut_down
  pub sync_old : e.shutdown_sync < e.next
  pub ctx_old : IsOld e.next e.engine_ctx
  pub stop_old : IsOld e.next e.engine_stop_func
  pub sessions_old : All (IsOldSession e.next) e.readers
  pub once : count is_on_close e.calls ≡ length e.shut_down
  pub distinct : Distinct e.shut_down
  pub opened : All (λ o. elem o (onces e) ≡ true) e.shut_down
  pub current : e.started ≡ true → elem e.shutdown_sync (onces e) ≡ true

-- Numbers are handed out upwards, contexts stay canceled and sessions stay opened and shut down.
pub record Grows (e e' : Engine) : Type 0 where
  pub next : e.next ≤ e'.next
  pub canceled : (c : ℕ) → elem c e.canceled ≡ true → elem c e'.canceled ≡ true
  pub shut_down : (o : ℕ) → elem o e.shut_down ≡ true → elem o e'.shut_down ≡ true
  pub opened : (o : ℕ) → elem o (onces e) ≡ true → elem o (onces e') ≡ true

pub Grows-refl : (e : Engine) → Grows e e
Grows-refl e = record {
  next = omega arith;
  canceled = λ c h. h;
  shut_down = λ o h. h;
  opened = λ o h. h;
}

Grows-trans : {a b c : Engine} → Grows a b → Grows b c → Grows a c
Grows-trans f g = record {
  next = omega (arith, f.next, g.next);
  canceled = λ c h. g.canceled c (f.canceled c h);
  shut_down = λ o h. g.shut_down o (f.shut_down o h);
  opened = λ o h. g.opened o (f.opened o h);
}

-- Two states that agree where the invariant looks.
pub record Agrees (e e' : Engine) : Type 0 where
  pub canceled : e'.canceled ≡ e.canceled
  pub shut_down : e'.shut_down ≡ e.shut_down
  pub readers : e'.readers ≡ e.readers
  pub next : e'.next ≡ e.next
  pub shutdown_sync : e'.shutdown_sync ≡ e.shutdown_sync
  pub ctx : e'.engine_ctx ≡ e.engine_ctx
  pub stop_func : e'.engine_stop_func ≡ e.engine_stop_func
  pub started : e'.started ≡ true → e.started ≡ true
  pub once : count is_on_close e'.calls ≡ count is_on_close e.calls

Agrees-IsSound : {e e' : Engine} → Agrees e e' → IsSound e → IsSound e'
Agrees-IsSound {e} {e'} a h = record {
  canceled_old = rw (a.canceled, a.next) h.canceled_old;
  shut_old = rw (a.shut_down, a.next) h.shut_old;
  sync_old = rw (a.shutdown_sync, a.next) h.sync_old;
  ctx_old = rw (a.ctx, a.next) h.ctx_old;
  stop_old = rw (a.stop_func, a.next) h.stop_old;
  sessions_old = rw (a.readers, a.next) h.sessions_old;
  once = rw (a.once, a.shut_down) h.once;
  distinct = rw a.shut_down h.distinct;
  opened = rw (a.shut_down, a.readers) h.opened;
  current = λ s. rw (a.shutdown_sync, a.readers) (h.current (a.started s));
}

Agrees-Grows : {e e' : Engine} → Agrees e e' → Grows e e'
Agrees-Grows a = record {
  next = rw a.next (omega arith);
  canceled = λ c h. rw a.canceled h;
  shut_down = λ o h. rw a.shut_down h;
  opened = λ o h. rw a.readers h;
}

-- What a step of the engine has to show.
pub record Advances (e e' : Engine) : Type 0 where
  pub sound : IsSound e'
  pub grows : Grows e e'

pub Advances-trans : {a b c : Engine} → Advances a b → Advances b c → Advances a c
Advances-trans f g = record { sound = g.sound; grows = Grows-trans f.grows g.grows }

pub Agrees-Advances : {e e' : Engine} → IsSound e → Agrees e e' → Advances e e'
Agrees-Advances h a = record { sound = Agrees-IsSound a h; grows = Agrees-Grows a }

pub IsOld-mono : {n m : ℕ} (c : Option ℕ) → n ≤ m → IsOld n c → IsOld m c
IsOld-mono none h k = tt
IsOld-mono (some c) h k = omega arith

pub IsOldSession-mono : {n m : ℕ} (s : Session) → n ≤ m → IsOldSession n s → IsOldSession m s
IsOldSession-mono s h k =
    (omega (arith, k.0), IsOld-mono s.parent h k.1, IsOld-mono s.exit h k.2, omega (arith, k.3))
