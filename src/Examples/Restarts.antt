-- ===== src/Examples/Restarts.antt =====
-- A restart that fails once: the engine of Fixtures after a reader has met a close message.
use gowsclient.Base.{ℕ, ◌*◌, ◌^◌, min, suc, pos, ◌≡◌, refl, true, false, none, some, arith}
use gowsclient.Errors.{nil}
use gowsclient.Config.Delay.{Floats, retry_sleep, retry_sleep_exact, second}
use gowsclient.Engine.Restart.{Attempt}
use gowsclient.Examples.Fixtures.{calm, refused}

-- Floats that are exact on all natural numbers.
abbrev pub naturals : Floats
naturals = record {
  Float = ℕ;
  of_int = λ n. n;
  pow = λ b e. b ^ e;
  fmin = λ a b. min a b;
  ceil = λ a. a;
  to_int = λ a. a;
  fmin-of_int = λ a b. refl;
  pow-of_int = λ b e h. refl;
  ceil-of_int = λ n. refl;
  to_int-of_int = λ n h. refl;
}

retry_sleep_exact_example :
    (retry_sleep naturals 5 2 0 ≡ none)
    × (retry_sleep naturals 5 2 (suc 3) ≡ some (pos (5 ^ min (suc 3) 2 * second)))
retry_sleep_exact_example = retry_sleep_exact naturals 5 2 3 (omega arith) (omega arith)

abbrev pub failing : Attempt
failing = record {
  stopped = false;
  run = refused;
  gives_up = false;
  waiting_err = nil;
  exits = false;
}

abbrev pub working : Attempt
working = record failing { run = calm }

abbrev leaving : Attempt
leaving = record failing { exits = true }
