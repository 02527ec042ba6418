-- ===== src/Engine/Invariant/Readers.antt =====
-- The steps of runEngine in wscengine/websocket_engine.go keep the invariant, and a reader exits only
-- from a session that is done and has been shut down.
use gowsclient.Base.{
  ℕ, ◌<◌, ◌≡◌, refl, Bool, true, false, Option, none, some, List, ◌∷◌, arith, if_cases, elem,
  if◌then◌else◌,
}
use gowsclient.Errors.{CloseError, is_nil, as_close_error}
use gowsclient.Adapters.Constants.{MessageType}
use gowsclient.Engine.State.{
  Engine, Session, CloseMessageDetails, read, on_message, on_read_error, note, cancel, session_done,
  once_do, ctx_done,
}
use gowsclient.Engine.Shutdown.{ShutdownEnv, shutdown_engine}
use gowsclient.Engine.Shutdown.Laws.{shutdown_engine-Keeps}
use gowsclient.Engine.Reader.{
  Pc, waiting, reading, processing, exited, stuck, Signals, signal, exit_pc, leave, begin_read,
  ReadEnv, read_failed, end_read, process, close_message,
}
use gowsclient.Engine.Invariant.Defs.{
  IsOld, IsOld-mono, IsOldSession, IsOldSession-mono, onces, IsSound, Grows, Advances,
  Advances-trans,
}
use gowsclient.Engine.Invariant.Steps.{same, cancel-Advances, note-Advances, once_do-Advances}

-- A session that startEngine has opened.
pub record IsOpened (e : Engine) (s : Session) : Type 0 where
  pub old : IsOldSession e.next s
  pub known : elem s.shutdown_sync (onces e) ≡ true

-- The reader has left: its session is done and was shut down.
abbrev pub HasLeft : Engine → Session → Pc → Type 0
HasLeft e s exited = (session_done e s ≡ true) × (elem s.shutdown_sync e.shut_down ≡ true)
HasLeft e s stuck = (session_done e s ≡ true) × (elem s.shutdown_sync e.shut_down ≡ true)
HasLeft e s _ = Unit

-- What a step of a reader of session `s` has to show.
pub record StepsWell (e : Engine) (s : Session) (r : Engine × Pc) : Type 0 where
  pub advances : Advances e r.0
  pub left : HasLeft r.0 s r.1

ctx_done_mono :
    {e e' : Engine} (c : Option ℕ) → Grows e e' → ctx_done e c ≡ true → ctx_done e' c ≡ true
ctx_done_mono none g h = h
ctx_done_mono (some c) g h = g.canceled c h

session_done_mono :
    {e e' : Engine} (s : Session) → Grows e e' → session_done e s ≡ true → session_done e' s ≡ true
session_done_mono {e} {e'} s g h =
    ground (arith, g.canceled s.ctx, ctx_done_mono {e = e} {e' = e'} s.parent g)

HasLeft-exit_pc :
    (e : Engine) (s : Session) (back : Bool)
    → session_done e s ≡ true
    → elem s.shutdown_sync e.shut_down ≡ true
    → HasLeft e s (exit_pc back)
HasLeft-exit_pc e s true h k = (h, k)
HasLeft-exit_pc e s false h k = (h, k)

once_do_ran :
    (once : ℕ) (env : ShutdownEnv) (msg : Option CloseMessageDetails) (skip : Bool) (e : Engine)
    → elem once (once_do once (shutdown_engine env msg skip) e).0.shut_down ≡ true
unfolding once_do
once_do_ran once env msg skip e =
    if_cases (λ (r : Engine × Bool). elem once r.0.shut_down ≡ true) (elem once e.shut_down)
      (λ done. done)
      (λ new.
        let k = shutdown_engine-Keeps env msg skip (record e { shut_down = once ∷ e.shut_down }) in
        rw k.shut_down (ground arith))

leave-StepsWell :
    (env : ShutdownEnv) (msg : Option CloseMessageDetails) (skip : Bool) (s : Session) {e : Engine}
    → IsSound e
    → IsOpened e s
    → session_done e s ≡ true
    → StepsWell e s (leave env msg skip s e)
unfolding leave
leave-StepsWell env msg skip s {e} h o done =
    let a = once_do-Advances s.shutdown_sync env msg skip h o.old.3 o.known in
    record {
      advances = a;
      left =
          HasLeft-exit_pc (once_do s.shutdown_sync (shutdown_engine env msg skip) e).0 s
            (once_do s.shutdown_sync (shutdown_engine env msg skip) e).1
            (session_done_mono s a.grows done) (once_do_ran s.shutdown_sync env msg skip e);
    }

-- A step that stays in the loop.
stays :
    {e e' : Engine} (s : Session) (pc : Pc)
    → HasLeft e' s pc
    → Advances e e'
    → StepsWell e s (e', pc)
stays s pc l a = record { advances = a; left = l }

-- The part of runEngine up to conn.Read keeps the invariant; if the reader leaves, its session is
-- done and has been shut down.
pub begin_read-StepsWell :
    (env : ShutdownEnv) (s : Session) {e : Engine}
    → IsSound e
    → IsOpened e s
    → StepsWell e s (begin_read env s e)
unfolding begin_read
begin_read-StepsWell env s {e} h o =
    if_cases (StepsWell e s) (session_done e s) (λ done. leave-StepsWell env none true s h o done)
      (λ live. stays s reading tt (note-Advances read refl h))

signal-Advances :
    (sg : Signals) (s : Session) (exit : Option ℕ) {e : Engine}
    → IsSound e
    → s.ctx < e.next
    → IsOld e.next exit
    → Advances e (signal sg s exit e)
signal-Advances sg s exit {e} h ctx old =
    if_cases (Advances e) sg.exits
      (λ b.
        Advances-trans first
          (cancel-Advances exit first.sound (IsOld-mono exit first.grows.next old)))
      (λ b. first)
  where
    first : Advances e (if sg.restarts then cancel (some s.ctx) e else e)
    first =
        if_cases (Advances e) sg.restarts (λ b. cancel-Advances (some s.ctx) h ctx) (λ b. same h)

pub IsOpened-mono : {e e' : Engine} (s : Session) → Grows e e' → IsOpened e s → IsOpened e' s
IsOpened-mono s g o = record {
  old = IsOldSession-mono s g.next o.old;
  known = g.opened s.shutdown_sync o.known;
}

leave-after :
    (env : ShutdownEnv) (msg : Option CloseMessageDetails) (skip : Bool) (s : Session)
    {e e' : Engine}
    → Advances e e'
    → IsOpened e' s
    → session_done e' s ≡ true
    → StepsWell e s (leave env msg skip s e')
leave-after env msg skip s a o done =
    let l = leave-StepsWell env msg skip s a.sound o done in
    record { advances = Advances-trans a l.advances; left = l.left }

read_failed-StepsWell :
    (env : ReadEnv) (s : Session) (c : Option CloseError) {e : Engine}
    → IsSound e
    → IsOpened e s
    → StepsWell e s (read_failed env s c e)
unfolding read_failed
read_failed-StepsWell env s (some c) {e} h o =
    let a = cancel-Advances (some s.ctx) h o.old.0 in
    leave-after env.shutdown (some (close_message c)) true s a (IsOpened-mono s a.grows o)
      (ground arith)
read_failed-StepsWell env s none {e} h o =
    let first = note-Advances (on_read_error env.err) refl h in
    let called = note (on_read_error env.err) e in
    let a =
      Advances-trans first (signal-Advances env.signals s s.exit first.sound o.old.0 o.old.2) in
    if_cases (StepsWell e s) (session_done (signal env.signals s s.exit called) s)
      (λ done. leave-after env.shutdown none false s a (IsOpened-mono s a.grows o) done)
      (λ live. stays s waiting tt a)

-- The part of runEngine from the return of conn.Read to the release of the read mutex keeps the
-- invariant; if the reader leaves, its session is done and has been shut down.
pub end_read-StepsWell :
    (env : ReadEnv) (s : Session) {e : Engine}
    → IsSound e
    → IsOpened e s
    → StepsWell e s (end_read env s e)
unfolding end_read
end_read-StepsWell env s {e} h o =
    if_cases (StepsWell e s) (session_done e s)
      (λ done. leave-StepsWell env.shutdown none true s h o done)
      (λ live.
        if_cases (StepsWell e s) (is_nil env.err)
          (λ ok. stays s (processing env.msg_type env.msg) tt (same h))
          (λ failed. read_failed-StepsWell env s (as_close_error env.err) h o))

-- The call of OnMessage keeps the invariant.
pub process-StepsWell :
    (sg : Signals) (s : Session) (ty : MessageType) (msg : List ℕ) {e : Engine}
    → IsSound e
    → IsOpened e s
    → StepsWell e s (process sg s ty msg e)
unfolding process
process-StepsWell sg s ty msg {e} h o =
    let first = note-Advances (on_message s.ctx ty msg) refl h in
    stays s waiting tt (
      Advances-trans first (signal-Advances sg s e.engine_stop_func first.sound o.old.0 h.stop_old))

pub HasLeft-mono :
    {e e' : Engine} (s : Session) (pc : Pc) → Grows e e' → HasLeft e s pc → HasLeft e' s pc
HasLeft-mono s exited g h = (session_done_mono s g h.0, g.shut_down s.shutdown_sync h.1)
HasLeft-mono s stuck g h = (session_done_mono s g h.0, g.shut_down s.shutdown_sync h.1)
HasLeft-mono s _ g h = tt
