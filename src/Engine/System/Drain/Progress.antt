-- ===== src/Engine/System/Drain/Progress.antt =====
-- The readers of wscengine/websocket_engine.go whose sessions are over can end, and do after Stop.
use gowsclient.Base.{
  ℕ, zero, suc, ◌<◌, ◌≡◌, refl, sym, ap, subst, Bool, true, false, none, List, [], ◌∷◌, ◌++◌, All,
  All-at, All-replace, sum_of, arith,
}
use gowsclient.Errors.{nil}
use gowsclient.Adapters.Constants.{text}
use gowsclient.Engine.State.{Engine, Call, dial, close}
use gowsclient.Engine.Shutdown.{ShutdownEnv}
use gowsclient.Engine.Reader.{
  Pc, waiting, reading, processing, exited, stuck, Signals, begin_read, ReadEnv, end_read, process,
  leave,
}
use gowsclient.Engine.System.{
  Thread, Lock, free, by_reader, by_user, holds, System, Move, locks, returns, handles, Step,
  reader,
}
use gowsclient.Engine.System.Drain.{
  steps_left, total_left, IsOver, is_reader, Draining, Step-Draining,
}

-- An element of a list that has a weight, with what stands around it.
abbrev Found : (Thread → ℕ) → List Thread → Type 0
Found w ths =
    (before : List Thread) × (th : Thread) × (after : List Thread) × (ths ≡ before ++ (th ∷ after))
    × (0 < w th)

sum_of-split : (w : Thread → ℕ) (ths : List Thread) → 0 < sum_of w ths → Found w ths
sum_of-split w [] h = absurd (omega arith)
sum_of-split w (th ∷ ths) h = split (w th) refl (sum_of-split w ths)
  where
    split : (n : ℕ) → w th ≡ n → (0 < sum_of w ths → Found w ths) → Found w (th ∷ ths)
    split zero e rest =
        let (before, u, after, eq, pos) = rest (omega (arith, e)) in
        (th ∷ before, u, after, ap (λ l. th ∷ l) eq, pos)
    split (suc n) e rest = ([], th, ths, refl, omega (arith, e))

abbrev pub is_stuck : Pc → Bool
is_stuck stuck = true
is_stuck _ = false

-- A reader that is not blocked in a shutdown.
abbrev pub IsFree : Thread → Type 0
IsFree th = is_stuck th.pc ≡ false

abbrev no_reply : ShutdownEnv
no_reply = record { reply = none; close_err = nil }

abbrev no_signals : Signals
no_signals = record { restarts = false; exits = false }

abbrev no_message : ReadEnv
no_message = record {
  msg_type = text;
  msg = [];
  err = nil;
  signals = no_signals;
  shutdown = no_reply;
}

-- Whether conn.Close was called after the last call of conn.Dial; calls are newest first.
abbrev pub is_closed : List Call → Bool
is_closed [] = false
is_closed (close code reason ∷ calls) = true
is_closed (dial ∷ calls) = false
is_closed (_ ∷ calls) = is_closed calls

-- A step of a reader in which conn.Read returns only from a connection that the engine has closed.
abbrev pub IsUnblocked :
    {e : Engine} {m : Lock} {th : Thread} {r : Engine × Pc} {m' : Lock} → Move e m th r m' → Type 0
IsUnblocked {e} (returns env at eq lock) = is_closed e.calls ≡ true
IsUnblocked _ = Unit

abbrev pub IsReaders : {s t : System} → Step s t → Type 0
IsReaders (reader before after th r m' at move eq) = IsUnblocked move
IsReaders _ = ⊥

-- Such steps of the readers, and no others.
pub data ReadersRun (s : System) : System → Type 1 where
  here : ReadersRun s s
  next : {t u : System} → ReadersRun s t → (st : Step t u) → IsReaders st → ReadersRun s u

abbrev CanMove : Engine → Lock → Thread → Type 0
CanMove e m th =
    (r : Engine × Pc) × (move : Move e m th r free) × IsUnblocked move
    × (is_stuck r.1 ≡ false)
    × (is_closed r.0.calls ≡ true)

returns-CanMove :
    (e : Engine) (m : Lock) (th : Thread)
    → IsOver e th
    → is_closed e.calls ≡ true
    → th.pc ≡ reading
    → CanMove e m th
unfolding end_read leave
returns-CanMove e m th over shut at = (
  end_read no_message th.session e,
  returns no_message at refl (ground (arith, over)),
  shut,
  ground (arith, over),
  ground (arith, over, shut),
)

-- While the read mutex is free and the connection is closed, each reader that has not ended can take
-- a step.
free-CanMove :
    (e : Engine) (th : Thread)
    → IsOver e th
    → is_closed e.calls ≡ true
    → 0 < steps_left th.pc
    → CanMove e free th
unfolding begin_read process leave
free-CanMove e th over shut more = at_pc th.pc refl
  where
    at_pc : (pc : Pc) → th.pc ≡ pc → CanMove e free th
    at_pc waiting at = (
      begin_read no_reply th.session e,
      locks no_reply at refl refl (ground (arith, over)),
      tt,
      ground (arith, over),
      ground (arith, over, shut),
    )
    at_pc reading at = returns-CanMove e free th over shut at
    at_pc (processing ty msg) at = (
      process no_signals th.session ty msg e,
      handles no_signals ty msg at refl refl,
      tt,
      refl,
      shut,
    )
    at_pc exited at = absurd (ground (arith, at, more))
    at_pc stuck at = absurd (ground (arith, at, more))

-- A step of a reader, after which the read mutex is free, no reader is blocked and the connection is
-- closed.
abbrev Next : System → Type 1
Next s =
    (t : System) × (st : Step s t) × (is_reader st ≡ true)
    × IsReaders st
    × (t.read_mutex ≡ free)
    × All IsFree t.threads
    × (is_closed t.engine.calls ≡ true)

step_of :
    (s : System) (before after : List Thread) (th : Thread)
    → s.threads ≡ before ++ (th ∷ after)
    → All IsFree s.threads
    → CanMove s.engine s.read_mutex th
    → Next s
step_of s before after th at unstuck (r, move, prompt, left, shut) =
    let moved : Thread = record { session = th.session; pc = r.1 } in
    (
      record { engine = r.0; read_mutex = free; threads = before ++ (moved ∷ after) },
      reader before after th r free at move refl,
      refl,
      prompt,
      refl,
      All-replace IsFree before after th moved (subst (All IsFree) at unstuck) left,
      shut,
    )

is_reading : (th : Thread) → IsFree th → 0 < holds th.pc → th.pc ≡ reading
is_reading th unstuck h = ground (arith, unstuck, h)

abbrev pub is_user : Lock → Bool
is_user by_user = true
is_user _ = false

progress :
    (s : System)
    → Draining s
    → All IsFree s.threads
    → is_user s.read_mutex ≡ false
    → is_closed s.engine.calls ≡ true
    → 0 < total_left s.threads
    → Next s
progress s d unstuck unpaused shut more = at_lock s.read_mutex refl
  where
    at_lock : (m : Lock) → s.read_mutex ≡ m → Next s
    at_lock free at =
        let (before, th, after, eq, pos) =
          sum_of-split (λ u. steps_left (Thread.pc u)) s.threads more in
        let over =
          All-at (IsOver s.engine) before after th (subst (All (IsOver s.engine)) eq d.over) in
        step_of s before after th eq unstuck
          (subst (λ m. CanMove s.engine m th) (sym at) (free-CanMove s.engine th over shut pos))
    at_lock by_reader at =
        let (before, th, after, eq, pos) =
          sum_of-split (λ u. holds (Thread.pc u)) s.threads (ground (arith, at, d.inv.locked)) in
        let over =
          All-at (IsOver s.engine) before after th (subst (All (IsOver s.engine)) eq d.over) in
        step_of s before after th eq unstuck (
          returns-CanMove s.engine s.read_mutex th over shut
            (is_reading th (All-at IsFree before after th (subst (All IsFree) eq unstuck)) pos))
    at_lock by_user at = absurd (ground (arith, at, unpaused))

-- The reader has ended.
abbrev pub HasExited : Thread → Type 0
HasExited th = th.pc ≡ exited

all-HasExited : (ths : List Thread) → All IsFree ths → total_left ths ≡ 0 → All HasExited ths
all-HasExited [] unstuck h = tt
all-HasExited (th ∷ ths) unstuck h =
    (ground (arith, unstuck.0, h), all-HasExited ths unstuck.1 (omega (arith, h)))

-- From any state in which all sessions are over, the connection is closed, no reader is blocked in a
-- shutdown and the user does not hold the read mutex, the readers alone can all reach their end, and
-- leave the mutex free.
pub drain :
    (n : ℕ) (s0 s : System)
    → ReadersRun s0 s
    → Draining s
    → All IsFree s.threads
    → is_user s.read_mutex ≡ false
    → is_closed s.engine.calls ≡ true
    → total_left s.threads ≡ n
    → (t : System) × ReadersRun s0 t × All HasExited t.threads
drain zero s0 s run d unstuck unpaused shut e = (s, run, all-HasExited s.threads unstuck e)
drain (suc n) s0 s run d unstuck unpaused shut e =
    let (t, st, turn, own, unlocked, unstuck', shut') =
      progress s d unstuck unpaused shut (omega (arith, e)) in
    let (d', less) = Step-Draining st turn d in
    drain n s0 t (next run st own) d' unstuck' (rw unlocked refl) shut' (omega (arith, less, e))
