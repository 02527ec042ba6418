-- ===== src/Config/Delay.antt =====
-- The retry delay of restartEngine in wscengine/websocket_engine.go. Floats are a parameter: an
-- interface with the operations that the code calls, exact on the integers that a float64 holds.
use native.Mathlib.Nat.{pow-le-pow_right}
use gowsclient.Base.{
  ℕ, zero, suc, ◌*◌, ◌^◌, ◌≤◌, min, ◌≡◌, refl, arith, ltb, if◌then◌else◌, Option, none, some, ℤ,
  pos, int64, to_nat,
}

-- math.Pow, math.Min, math.Ceil, and the conversions from and to int.
pub record Floats : Type 1 where
  pub Float : Type 0
  pub of_int : ℕ → Float
  pub pow : Float → Float → Float
  pub fmin : Float → Float → Float
  pub ceil : Float → Float
  pub to_int : Float → ℕ
  pub fmin-of_int : (a b : ℕ) → fmin (of_int a) (of_int b) ≡ of_int (min a b)
  pub pow-of_int : (b e : ℕ) → b ^ e ≤ 2 ^ 53 → pow (of_int b) (of_int e) ≡ of_int (b ^ e)
  pub ceil-of_int : (n : ℕ) → ceil (of_int n) ≡ of_int n
  pub to_int-of_int : (n : ℕ) → n ≤ 2 ^ 53 → to_int (of_int n) ≡ n

abbrev pub second : ℕ
second = 1000000000

-- `delay`, in seconds, for validated options: the base and the exponent are at least 1.
unfoldable pub retry_delay_seconds : Floats → (base max_exponent retry_count : ℕ) → ℕ
retry_delay_seconds f base max_exponent retry_count =
    f.to_int
      (f.ceil (f.pow (f.of_int base) (f.fmin (f.of_int retry_count) (f.of_int max_exponent))))

-- The argument of time.Sleep before an attempt to restart, in nanoseconds; none before the first.
unfoldable pub retry_sleep : Floats → (base max_exponent retry_count : ℕ) → Option ℤ
unfolding retry_delay_seconds
retry_sleep f base max_exponent retry_count =
    if ltb 0 retry_count
    then some (int64 (pos (retry_delay_seconds f base max_exponent retry_count * second)))
    else none

-- The delay in seconds is the base to the number of failed attempts, capped by the exponent.
retry_delay_seconds_lem :
    (f : Floats) (base max_exponent retry_count : ℕ)
    → base ^ min retry_count max_exponent ≤ 2 ^ 53
    → retry_delay_seconds f base max_exponent retry_count ≡ base ^ min retry_count max_exponent
unfolding retry_delay_seconds
retry_delay_seconds_lem f b m k h =
    rw (retry_delay_seconds, f.fmin-of_int k m, f.pow-of_int b (min k m) h, f.ceil-of_int)
      (f.to_int-of_int _ h)

capped_pow : (b m k : ℕ) → 1 ≤ b → b ^ min k m ≤ b ^ m
capped_pow b m k h = pow-le-pow_right h (omega arith)

-- While the largest delay fits an int64 of nanoseconds, restartEngine does not sleep before its
-- first attempt, and before the attempt that follows k + 1 failures it sleeps base ^ min (k + 1, m)
-- seconds.
pub retry_sleep_exact :
    (f : Floats) (base max_exponent k : ℕ)
    → 1 ≤ base
    → base ^ max_exponent ≤ 9223372036
    → (retry_sleep f base max_exponent 0 ≡ none)
      × (retry_sleep f base max_exponent (suc k)
          ≡ some (pos (base ^ min (suc k) max_exponent * second)))
unfolding retry_sleep
retry_sleep_exact f b m k h fits = (
  refl,
  let small = capped_pow b m (suc k) h in
      rw (retry_delay_seconds_lem f b m (suc k) (omega arith)) (ground arith),
)

-- The seconds that a sleep takes.
abbrev pub slept : Option ℤ → ℕ
slept none = 0
slept (some d) = to_nat d

-- Under the same bound the sleeps never shrink from one attempt to the next, and none is longer
-- than base ^ max_exponent seconds.
retry_sleep_mono :
    (f : Floats) (base max_exponent k : ℕ)
    → 1 ≤ base
    → base ^ max_exponent ≤ 9223372036
    → (slept (retry_sleep f base max_exponent k) ≤ slept (retry_sleep f base max_exponent (suc k)))
      × (slept (retry_sleep f base max_exponent (suc k)) ≤ base ^ max_exponent * second)
retry_sleep_mono f b m zero h fits =
    let e = retry_sleep_exact f b m zero h fits in
    let small = capped_pow b m 1 h in rw (e.0, e.1) (omega arith, omega arith)
retry_sleep_mono f b m (suc k) h fits =
    let e = retry_sleep_exact f b m k h fits in
    let e' = retry_sleep_exact f b m (suc k) h fits in
    let small = capped_pow b m (suc (suc k)) h in
    let grows : b ^ min (suc k) m ≤ b ^ min (suc (suc k)) m = pow-le-pow_right h (omega arith) in
    rw (e.1, e'.1) (omega arith, omega arith)
