-- ===== src/Engine/System/Holders.antt =====
-- How many goroutines of wscengine/websocket_engine.go hold the read mutex while they read.
use gowsclient.Base.{ℕ, ◌+◌, ◌≤◌, ◌≡◌, refl, List, [], ◌∷◌, ◌++◌, map, sum_of, sum_of-append, arith}
use gowsclient.Engine.State.{Session}
use gowsclient.Engine.Reader.{Pc}
use gowsclient.Engine.System.{Thread, Lock, by_reader, holds, lock_of, thread_of}

-- How many readers hold the read mutex, and how many it says there are.
abbrev pub holders : List Thread → ℕ
holders = sum_of (λ th. holds (Thread.pc th))

abbrev pub held : Lock → ℕ
held by_reader = 1
held _ = 0

-- New readers wait, so they hold nothing.
pub holders-fresh : (ss : List Session) → holders (map thread_of ss) ≡ 0
holders-fresh [] = refl
holders-fresh (s ∷ ss) = omega (arith, holders-fresh ss)

pub held-lock_of : (pc : Pc) → held (lock_of pc) ≡ holds pc
held-lock_of pc = ground arith

pub held-le : (m : Lock) → held m ≤ 1
held-le m = ground arith

pub holders-at :
    (before after : List Thread) (th : Thread)
    → holders (before ++ (th ∷ after)) ≡ holders before + (holds th.pc + holders after)
holders-at before after th = sum_of-append (λ t. holds (Thread.pc t)) before (th ∷ after)
