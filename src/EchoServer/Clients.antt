-- ===== src/EchoServer/Clients.antt =====
-- The clients of echowsserver/echo_websocket_server.go: ServeHTTP gives each connection two
-- goroutines, runClientSession and closeWatchdog. They, the http server and the callers of Start and
-- Stop may take the next step in any order.
use gowsclient.Base.{
  elem, ℕ, suc, ◌<◌, ◌≡◌, refl, sym, subst, Bool, true, false, List, [], ◌∷◌, ◌++◌, All,
  All-replace, All-at, All-append, Bool-cases, inl, inr, arith,
}
use mathlib.Core.List.{append_assoc}
use gowsclient.Errors.{Error}
use gowsclient.EchoServer.{Server, new_server, start, stop}

-- `ctx` is the server context at the upgrade; `echoed` counts the messages that were written back;
-- `in_session` and `watched` tell that the two goroutines have not ended.
pub record Client : Type 0 where
  pub ctx : ℕ
  pub is_open : Bool
  pub echoed : ℕ
  pub in_session : Bool
  pub watched : Bool

pub record Hub : Type 0 where
  pub server : Server
  pub clients : List Client

abbrev pub ctx_done : Server → Client → Bool
ctx_done srv c = elem c.ctx srv.canceled

-- ServeHTTP, with an upgrade that succeeds; one that fails changes nothing.
unfoldable pub serve_http : Hub → Hub
serve_http h = record h {
  clients =
      record {
        ctx = h.server.contexts;
        is_open = true;
        echoed = 0;
        in_session = true;
        watched = true;
      }
      ∷ h.clients;
}

-- closeWatchdog, from the cancelation of its context.
unfoldable pub close_watchdog : Client → Client
close_watchdog c = record c { is_open = false; watched = false }

pub data Turn (srv : Server) (c c' : Client) : Type 0 where
  watchdog : c.watched ≡ true → ctx_done srv c ≡ true → c' ≡ close_watchdog c → Turn srv c c'
  -- a round of runClientSession: a message is read from an open connection and written back
  echoes :
      c.in_session ≡ true
      → c.is_open ≡ true
      → c' ≡ record c { echoed = suc c.echoed }
      → Turn srv c c'
  -- a read or a write fails, as it does on a closed connection
  session_ends : c.in_session ≡ true → c' ≡ record c { in_session = false } → Turn srv c c'

pub data Step (h t : Hub) : Type 0 where
  starts : t ≡ record h { server = (start h.server).0 } → Step h t
  stops : (close_err : Error) → t ≡ record h { server = (stop close_err h.server).0 } → Step h t
  accepts : 0 < h.server.contexts → t ≡ serve_http h → Step h t
  turns :
      (before after : List Client) (c c' : Client)
      → h.clients ≡ before ++ (c ∷ after)
      → Turn h.server c c'
      → t ≡ record h { clients = before ++ (c' ∷ after) }
      → Step h t

pub data Steps (h : Hub) : Hub → Type 0 where
  here : Steps h h
  next : {t u : Hub} → Steps h t → Step t u → Steps h u

abbrev pub init : Hub
init = record { server = new_server; clients = [] }

-- A client has the only server context that was ever made, and an open one still has its watchdog.
abbrev pub IsWatched : Client → Type 0
IsWatched c = (c.ctx ≡ 1) × (c.is_open ≡ true → c.watched ≡ true)

pub record Inv (h : Hub) : Type 0 where
  pub once :
      (h.server.started ≡ true → h.server.contexts ≡ 1)
      × (h.server.started ≡ false → h.server.contexts ≡ 0)
  pub clients : All IsWatched h.clients

Turn-IsWatched : {srv : Server} {c c' : Client} → Turn srv c c' → IsWatched c → IsWatched c'
unfolding close_watchdog
Turn-IsWatched (watchdog on done eq) w = subst IsWatched (sym eq) (w.0, λ h. cc)
Turn-IsWatched (echoes on up eq) w = subst IsWatched (sym eq) w
Turn-IsWatched (session_ends on eq) w = subst IsWatched (sym eq) w

Step-Inv : {h t : Hub} → Step h t → Inv h → Inv t
unfolding start stop serve_http
Step-Inv {h} (starts eq) i =
    subst Inv (sym eq) (record { once = ground (arith, i.once.0, i.once.1); clients = i.clients })
Step-Inv {h} (stops close_err eq) i =
    subst Inv (sym eq) (record { once = ground (arith, i.once.0, i.once.1); clients = i.clients })
Step-Inv {h} (accepts some_ctx eq) i = subst Inv (sym eq) (record {
  once = i.once;
  clients = ((ground (arith, i.once.0, i.once.1), λ up. refl), i.clients);
})
Step-Inv {h} (turns before after c c' eq turn eq') i =
    let cs = subst (All IsWatched) eq i.clients in
    subst Inv (sym eq') (record {
      once = i.once;
      clients =
          All-replace IsWatched before after c c' cs
            (Turn-IsWatched turn (All-at IsWatched before after c cs));
    })

Steps-Inv : {h : Hub} → Steps init h → Inv h
Steps-Inv here = record { once = ((λ h. cc), (λ h. refl)); clients = tt }
Steps-Inv (next r st) = Step-Inv st (Steps-Inv r)

-- A context stays canceled.
Step-canceled :
    {h t : Hub} (n : ℕ)
    → Step h t
    → elem n h.server.canceled ≡ true
    → elem n t.server.canceled ≡ true
unfolding start stop serve_http
Step-canceled {h} n (starts eq) off = rw eq (ground (arith, off))
Step-canceled {h} n (stops close_err eq) off = rw eq (ground (arith, off))
Step-canceled {h} n (accepts some_ctx eq) off = rw eq off
Step-canceled {h} n (turns before after c c' at turn eq) off = rw eq off

Steps-canceled :
    {h t : Hub} (n : ℕ)
    → Steps h t
    → elem n h.server.canceled ≡ true
    → elem n t.server.canceled ≡ true
Steps-canceled n here off = off
Steps-canceled n (next r st) off = Step-canceled n st (Steps-canceled n r off)

Steps-trans : {h t u : Hub} → Steps h t → Steps t u → Steps h u
Steps-trans r here = r
Steps-trans r (next q st) = next (Steps-trans r q) st

-- A step of a watchdog.
abbrev pub IsByWatchdog : {srv : Server} {c c' : Client} → Turn srv c c' → Type 0
IsByWatchdog (watchdog on done eq) = Unit
IsByWatchdog _ = ⊥

abbrev pub IsWatchdogs : {h t : Hub} → Step h t → Type 0
IsWatchdogs (turns before after c c' at turn eq) = IsByWatchdog turn
IsWatchdogs _ = ⊥

-- Steps of watchdogs, and no others.
pub data WatchdogSteps (h : Hub) : Hub → Type 0 where
  stays : WatchdogSteps h h
  closes : {t u : Hub} → WatchdogSteps h t → (st : Step t u) → IsWatchdogs st → WatchdogSteps h u

abbrev pub IsClosed : Client → Type 0
IsClosed c = c.is_open ≡ false

-- The watchdogs of the clients that are left close them, one after the other.
close_rest :
    (m : Hub) (srv : Server) (done rest : List Client)
    → elem 1 srv.canceled ≡ true
    → All IsClosed done
    → All IsWatched rest
    → WatchdogSteps m (record { server = srv; clients = done ++ rest })
    → (cs : List Client) × WatchdogSteps m (record { server = srv; clients = cs }) × All IsClosed cs
unfolding close_watchdog
close_rest m srv done [] off h w run = (done ++ [], run, All-append IsClosed done [] h tt)
close_rest m srv done (c ∷ rest) off h w run =
    let go_on : (x : Client)
        → IsClosed x
        → WatchdogSteps m (record { server = srv; clients = done ++ (x ∷ rest) })
        → (cs : List Client) × WatchdogSteps m (record { server = srv; clients = cs })
          × All IsClosed cs =
      λ x shut r.
        close_rest m srv (done ++ (x ∷ [])) rest off
          (All-append IsClosed done (x ∷ []) h (shut, tt)) w.1
          (subst (λ cs. WatchdogSteps m (record { server = srv; clients = cs }))
            (sym (append_assoc done (x ∷ []) rest)) r) in
    elim (Bool-cases c.is_open) [
      | inl up ↦ go_on (close_watchdog c) refl (
          closes run
            (turns done rest c (close_watchdog c) refl (watchdog (w.0.1 up) (rw w.0.0 off) refl)
              refl)
            tt)
      | inr down ↦ go_on c down run
    ]

-- Stop on a started server, in any reachable state, and whatever follows, connections that are still
-- accepted included: it returns what the http server's Close returns, and from then on the watchdogs
-- can at any time close every connection that is still open, by steps of their own.
pub stop-closes_all :
    (close_err : Error) (h t : Hub)
    → Steps init h
    → h.server.started ≡ true
    → Steps (record h { server = (stop close_err h.server).0 }) t
    → ((stop close_err h.server).1 ≡ close_err)
      × ((cs : List Client) × WatchdogSteps t (record { server = t.server; clients = cs })
          × All IsClosed cs)
unfolding stop
stop-closes_all close_err h t r on later =
    let stopped = record h { server = (stop close_err h.server).0 } in
    let i = Steps-Inv r in
    let off = Steps-canceled {h = stopped} 1 later (ground (arith, on, i.once.0)) in
    let reached = Steps-trans (next r (stops close_err refl)) later in
    (
      ground (arith, on),
      close_rest t t.server [] t.clients off tt (Steps-Inv reached).clients stays,
    )
