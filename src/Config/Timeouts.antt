-- ===== src/Config/Timeouts.antt =====
-- The conversions of wscengine/websocket_engine.go from the timeouts of the options, in
-- milliseconds, to a time.Duration, which is an int64 of nanoseconds.
use gowsclient.Base.{
  ℕ, ◌*◌, ◌≤◌, ℤ, pos, negsuc, int64, scale, is_at_least, ◌≡◌, ◌⊎◌, Option, none, some, arith,
  if◌then◌else◌,
}

abbrev pub millisecond : ℕ
millisecond = 1000000

-- `time.Duration(ms * int64(time.Millisecond))`
unfoldable pub timeout_duration : ℤ → ℤ
timeout_duration ms = int64 (scale millisecond ms)

-- The deadline that Start, Stop and restartEngine put on their context: none if the option is not
-- positive, else the duration.
unfoldable pub timeout_of : ℤ → Option ℤ
unfolding timeout_duration
timeout_of ms = if is_at_least 1 ms then some (timeout_duration ms) else none

-- A timeout of 1 to 9223372036854 milliseconds is that many milliseconds in nanoseconds, a timeout
-- of 0 is no deadline.
pub timeout_of_exact :
    (ms : ℕ)
    → ms ≤ 9223372036854
    → (timeout_of (pos ms) ≡ none) × (ms ≡ 0)
      ⊎ (timeout_of (pos ms) ≡ some (pos (ms * 1000000))) × (1 ≤ ms)
unfolding timeout_of
timeout_of_exact ms h = ground arith

-- The deadline has passed before the operation starts.
abbrev pub IsNegative : Option ℤ → Type 0
IsNegative (some (negsuc _)) = Unit
IsNegative _ = ⊥

-- A timeout from 9223372036855 to 18446744073709 milliseconds, which Validate accepts, becomes a
-- negative duration.
timeout_of_overflow :
    (ms : ℕ) → 9223372036855 ≤ ms → ms ≤ 18446744073709 → IsNegative (timeout_of (pos ms))
unfolding timeout_of
timeout_of_overflow ms h k = ground arith
