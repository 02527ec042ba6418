-- ===== src/Engine/System/Drain.antt =====
-- How the readers of wscengine/websocket_engine.go end once their session is done and was shut down,
-- as after Stop: no goroutine is left behind.
use gowsclient.Base.{
  ℕ, suc, ◌+◌, ◌≡◌, refl, sym, ap, subst, Bool, true, false, List, ◌∷◌, ◌++◌, All, All-map, All-at,
  All-replace, sum_of, sum_of-append, arith,
}
use gowsclient.Engine.State.{Engine}
use gowsclient.Engine.Reader.{
  Pc, waiting, reading, processing, exited, begin_read, end_read, process, leave,
}
use gowsclient.Engine.Invariant.Defs.{Grows}
use gowsclient.Engine.Invariant.Readers.{HasLeft, HasLeft-mono}
use gowsclient.Engine.System.{Thread, Lock, System, Move, locks, returns, handles, Step, reader}
use gowsclient.Engine.System.Growth.{Step-Grows}
use gowsclient.Engine.System.Invariant.{Inv, Step-Inv}
pub mod Progress
pub mod Stopped

-- The steps that a reader still takes once its session is over.
abbrev pub steps_left : Pc → ℕ
steps_left (processing ty msg) = 2
steps_left waiting = 1
steps_left reading = 1
steps_left _ = 0

abbrev pub total_left : List Thread → ℕ
total_left = sum_of (λ th. steps_left (Thread.pc th))

-- The session of the reader is done and was shut down.
abbrev pub IsOver : Engine → Thread → Type 0
IsOver e th = HasLeft e th.session exited

pub IsOver-mono : {e e' : Engine} (th : Thread) → Grows e e' → IsOver e th → IsOver e' th
IsOver-mono th g h = HasLeft-mono th.session exited g h

-- Each step of such a reader brings it nearer to its end.
Move-steps_left :
    {e : Engine} {m : Lock} {th : Thread} {r : Engine × Pc} {m' : Lock}
    → IsOver e th
    → Move e m th r m'
    → suc (steps_left r.1) ≡ steps_left th.pc
unfolding begin_read end_read process leave
Move-steps_left h (locks env at idle eq lock) = rw (eq, at) (ground (arith, h))
Move-steps_left h (returns env at eq lock) = rw (eq, at) (ground (arith, h))
Move-steps_left h (handles sg ty msg at eq lock) = rw (eq, at) refl

-- Whether a step is a reader's.
abbrev pub is_reader : {s t : System} → Step s t → Bool
is_reader (reader before after th r m' at move eq) = true
is_reader _ = false

-- Steps of any goroutine that start no reader; how many of them are readers' is counted.
pub data Run (s : System) : ℕ → System → Type 1 where
  here : Run s 0 s
  turns :
      {n : ℕ} {t u : System} → Run s n t → (st : Step t u) → is_reader st ≡ true → Run s (suc n) u
  others :
      {n : ℕ} {t u : System}
      → Run s n t
      → (st : Step t u) → is_reader st ≡ false
      → u.threads ≡ t.threads
      → Run s n u

-- The invariant of the system, with all sessions over.
pub record Draining (s : System) : Type 0 where
  pub inv : Inv s
  pub over : All (IsOver s.engine) s.threads

total_left-at :
    (before after : List Thread) (th : Thread)
    → total_left (before ++ (th ∷ after))
      ≡ total_left before + (steps_left th.pc + total_left after)
total_left-at before after th = sum_of-append (λ t. steps_left (Thread.pc t)) before (th ∷ after)

turn-Draining :
    {s t : System} (before after : List Thread) (th : Thread) (r : Engine × Pc) (m' : Lock)
    → Step s t
    → s.threads ≡ before ++ (th ∷ after)
    → Move s.engine s.read_mutex th r m'
    → t.threads ≡ before ++ (record { session = th.session; pc = r.1 } ∷ after)
    → Draining s
    → Draining t × (suc (total_left t.threads) ≡ total_left s.threads)
turn-Draining {s} {t} before after th r m' st at move eq d = (
  record {
    inv = Step-Inv st d.inv;
    over = subst (All (IsOver t.engine)) (sym eq) (
        All-map (before ++ (moved ∷ after)) (λ u k. IsOver-mono u (Step-Grows st d.inv) k)
          (All-replace (IsOver s.engine) before after th moved over
            (All-at (IsOver s.engine) before after th over)));
  },
  rw (at, eq)
      (omega (
        arith,
        total_left-at before after th,
        total_left-at before after moved,
        Move-steps_left (All-at (IsOver s.engine) before after th over) move,
      )),
)
  where
    moved : Thread
    moved = record { session = th.session; pc = r.1 }

    over : All (IsOver s.engine) (before ++ (th ∷ after))
    over = subst (All (IsOver s.engine)) at d.over

pub Step-Draining :
    {s t : System} (st : Step s t)
    → is_reader st ≡ true
    → Draining s
    → Draining t × (suc (total_left t.threads) ≡ total_left s.threads)
Step-Draining {s} {t} (reader before after th r m' at move eq) turn d =
    turn-Draining before after th r m' (reader before after th r m' at move eq) at move
      (ap System.threads eq) d
Step-Draining _ turn d = cc

-- Once the session of every reader is done and was shut down, the readers take only finitely many
-- steps, in whatever order all goroutines run: each reader is at most two steps from its end, and
-- every step that one of them takes is one less to come.
pub Run-total_left :
    {n : ℕ} {s t : System}
    → Run s n t
    → Inv s
    → All (IsOver s.engine) s.threads
    → (n + total_left t.threads ≡ total_left s.threads) × All (IsOver t.engine) t.threads
Run-total_left {s = s} run inv over = let (d, eq) = go run in (eq, d.over)
  where
    go :
        {n : ℕ} {t : System}
        → Run s n t
        → Draining t × (n + total_left t.threads ≡ total_left s.threads)
    go here = (record { inv = inv; over = over }, omega arith)
    go (turns r st is) =
        let (d, eq) = go r in let (d', eq') = Step-Draining st is d in (d', omega (arith, eq, eq'))
    go (others {n} {t} {u} r st not_reader same) =
        let (d, eq) = go r in
        (
          record {
            inv = Step-Inv st d.inv;
            over =
                subst (All (IsOver u.engine)) (sym same)
                  (All-map t.threads (λ th k. IsOver-mono th (Step-Grows st d.inv) k) d.over);
          },
          rw same eq,
        )
