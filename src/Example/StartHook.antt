-- ===== src/Example/StartHook.antt =====
-- The OnStart hook of example/client/providers/provide_websocket_client_engine.go: a loop that starts
-- the engine until it starts, meant for three attempts.
use gowsclient.Base.{ℕ, ◌≡◌, refl, false, ltb, List, [], ◌∷◌, All, if◌then◌else◌, arith}
use gowsclient.Errors.{Error, nil, is_nil}

-- Where the hook stands after the given results of engine.Start.
pub data HookResult : Type 0 where
  hook_returns : Error → HookResult
  hook_waits : HookResult

-- The loop; `attempts` is the variable of the code, which no line changes. The error that is
-- returned behind the loop is the outer `err`, which stays nil.
unfoldable pub on_start_loop : (attempts : ℕ) → List Error → HookResult
on_start_loop attempts [] = if ltb attempts 3 then hook_waits else hook_returns nil
on_start_loop attempts (err ∷ results) =
    let rest = on_start_loop attempts results in
    if ltb attempts 3 then (if is_nil err then hook_returns nil else rest) else hook_returns nil

unfoldable pub on_start : List Error → HookResult
unfolding on_start_loop
on_start results = on_start_loop 0 results

-- While engine.Start fails the hook never returns, after three attempts or after any other number.
on_start_never_gives_up :
    (results : List Error) → All (λ e. is_nil e ≡ false) results → on_start results ≡ hook_waits
unfolding on_start
on_start_never_gives_up [] h = refl
on_start_never_gives_up (err ∷ results) h = ground (arith, on_start_never_gives_up results h.1)
