-- ===== src/Engine/Calls.antt =====
-- How often a kind of call stands in the calls that the engine of wscengine/websocket_engine.go has
-- made.
use gowsclient.Base.{ℕ, suc, Bool, true, false, List, [], ◌∷◌, if◌then◌else◌}
use gowsclient.Engine.State.{Call, dial, close, on_open, on_close, on_restart_error}

abbrev pub is_close : Call → Bool
is_close (close _ _) = true
is_close _ = false

abbrev pub is_on_close : Call → Bool
is_on_close (on_close _) = true
is_on_close _ = false

abbrev pub is_on_open : Call → Bool
is_on_open (on_open _) = true
is_on_open _ = false

abbrev pub is_dial : Call → Bool
is_dial dial = true
is_dial _ = false

abbrev pub is_on_restart_error : Call → Bool
is_on_restart_error (on_restart_error _ _) = true
is_on_restart_error _ = false

abbrev pub count : (Call → Bool) → List Call → ℕ
count p [] = 0
count p (c ∷ cs) = if p c then suc (count p cs) else count p cs
