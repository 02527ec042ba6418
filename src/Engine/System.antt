-- ===== src/Engine/System.antt =====
-- The goroutines of wscengine/websocket_engine.go together: the readers that startEngine starts, a
-- restartEngine goroutine, callers of Start and Stop, and a user who may lock the read mutex. They
-- share one engine, and any of them may take the next step.
use gowsclient.Base.{
  ℕ, ◌+◌, ◌-◌, ◌<◌, ◌≡◌, Bool, true, Option, List, [], ◌∷◌, ◌++◌, map, length, take,
}
use gowsclient.Adapters.Constants.{MessageType}
use gowsclient.Config.{WebsocketEngineConfigurationOptions}
use gowsclient.Config.Delay.{Floats}
use gowsclient.Engine.State.{Engine, Session, new_engine_state, cancel}
use gowsclient.Engine.Shutdown.{ShutdownEnv}
use gowsclient.Engine.Stop.{StopEnv, stop}
use gowsclient.Engine.Start.{StartEnv, renew_ctx, start_engine}
use gowsclient.Engine.Restart.{Attempt, restart_engine}
use gowsclient.Engine.Reader.{
  Pc, waiting, reading, processing, stuck, Signals, begin_read, ReadEnv, end_read, process,
}
use gowsclient.Engine.Invariant.Defs.{IsOld}
pub mod Holders
pub mod Invariant
pub mod Safety
pub mod Whole
pub mod Growth
pub mod Drain
pub mod Reads
pub mod Opens

pub record Thread : Type 0 where
  pub session : Session
  pub pc : Pc

-- The read mutex.
pub data Lock : Type 0 where
  free : Lock
  by_reader : Lock
  by_user : Lock

pub record System : Type 0 where
  pub engine : Engine
  pub read_mutex : Lock
  pub threads : List Thread

-- Where a reader holds the read mutex.
abbrev pub holds : Pc → ℕ
holds reading = 1
holds stuck = 1
holds _ = 0

-- The read mutex after a step of the reader that holds it.
abbrev pub lock_of : Pc → Lock
lock_of reading = by_reader
lock_of stuck = by_reader
lock_of _ = free

-- One step of the reader `th`: the new state of the engine with the place it comes to, and the new
-- state of the read mutex.
pub data Move (e : Engine) (m : Lock) (th : Thread) (r : Engine × Pc) (m' : Lock) : Type 0 where
  locks :
      (env : ShutdownEnv)
      → th.pc ≡ waiting
      → m ≡ free
      → r ≡ begin_read env th.session e
      → m' ≡ lock_of r.1
      → Move e m th r m'
  returns :
      (env : ReadEnv)
      → th.pc ≡ reading
      → r ≡ end_read env th.session e
      → m' ≡ lock_of r.1
      → Move e m th r m'
  handles :
      (sg : Signals) (ty : MessageType) (msg : List ℕ)
      → th.pc ≡ processing ty msg
      → r ≡ process sg th.session ty msg e
      → m' ≡ m
      → Move e m th r m'

abbrev pub thread_of : Session → Thread
thread_of s = record { session = s; pc = waiting }

-- The sessions of the readers that were started between two states.
abbrev pub fresh_readers : Engine → Engine → List Session
fresh_readers e e' = take (length e'.readers - length e.readers) e'.readers

-- A step of the engine that is not a reader's: the readers that it starts join the others.
abbrev pub with_engine : System → Engine → System
with_engine s e' = record s {
  engine = e';
  threads = map thread_of (fresh_readers s.engine e') ++ s.threads;
}

pub data Step (s : System) (t : System) : Type 1 where
  -- the first line of Start, which holds no mutex
  renews : t ≡ record s { engine = renew_ctx s.engine } → Step s t
  -- startEngine, which Start and a restartEngine goroutine run, with an exit function that was
  -- handed out earlier
  starts :
      (env : StartEnv) (restart : Bool) (exit : Option ℕ)
      → (restart ≡ true → 0 < s.engine.restarts)
      → IsOld s.engine.next exit
      → t ≡ with_engine s (start_engine env restart exit s.engine).0
      → Step s t
  stops : (env : StopEnv) → t ≡ with_engine s (stop env s.engine).0 → Step s t
  -- some rounds of a restartEngine goroutine, whose exit function was handed out earlier
  restarts :
      (f : Floats) (exit : Option ℕ) (retry_count : ℕ) (rounds : List Attempt)
      → 0 < s.engine.restarts
      → IsOld s.engine.next exit
      → t ≡ with_engine s (restart_engine f exit retry_count rounds s.engine).0
      → Step s t
  -- a call of a cancel function that was handed out earlier, from any goroutine
  cancels :
      (c : Option ℕ)
      → IsOld s.engine.next c
      → t ≡ record s { engine = cancel c s.engine }
      → Step s t
  user_locks : s.read_mutex ≡ free → t ≡ record s { read_mutex = by_user } → Step s t
  user_unlocks : s.read_mutex ≡ by_user → t ≡ record s { read_mutex = free } → Step s t
  reader :
      (before after : List Thread) (th : Thread) (r : Engine × Pc) (m' : Lock)
      → s.threads ≡ before ++ (th ∷ after)
      → Move s.engine s.read_mutex th r m'
      → t ≡ record {
        engine = r.0;
        read_mutex = m';
        threads = before ++ (record { session = th.session; pc = r.1 } ∷ after);
      }
      → Step s t

abbrev pub init : WebsocketEngineConfigurationOptions → System
init opts = record { engine = new_engine_state opts; read_mutex = free; threads = [] }

pub data Reach (opts : WebsocketEngineConfigurationOptions) : System → Type 1 where
  here : Reach opts (init opts)
  next : {s t : System} → Reach opts s → Step s t → Reach opts t
