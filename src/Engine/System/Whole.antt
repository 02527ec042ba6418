-- ===== src/Engine/System/Whole.antt =====
-- A call of Start of wscengine/websocket_engine.go, from its first line to the end of its goroutine, as
-- steps of the goroutines together.
use gowsclient.Base.{
  ◌≡◌, refl, ap, subst, take, map, ◌++◌, length, ◌-◌, false, some, not, if_cases, arith,
}
use gowsclient.Errors.{Error, is_nil}
use gowsclient.Config.{WebsocketEngineConfigurationOptions}
use gowsclient.Engine.State.{Engine}
use gowsclient.Engine.Start.{StartCall, start, renew_ctx}
use gowsclient.Engine.System.{System, with_engine, renews, starts, Reach, next, thread_of}

-- What a whole call of Start leaves can be reached, if what it finds can.
pub start-Reach :
    {opts : WebsocketEngineConfigurationOptions} {s : System} (c : StartCall)
    → Reach opts s
    → Reach opts (with_engine s (start c s.engine).0)
unfolding start renew_ctx
start-Reach {opts} {s} c r =
    if_cases (λ (x : Engine × Error). Reach opts (with_engine s x.0)) (not (is_nil c.caller_err))
      (λ dead.
        subst (λ ths. Reach opts (record s { engine = renew_ctx s.engine; threads = ths }))
          (ap (λ n. map thread_of (take n s.engine.readers) ++ s.threads) nothing)
          (next r (renews refl)))
      (λ live.
        next (next r (renews refl))
          (starts c.run false (some s.engine.next) (λ t. cc) (omega arith) refl))
  where
    nothing : 0 ≡ length s.engine.readers - length s.engine.readers
    nothing = omega arith
