-- ===== src/Base/Int.antt =====
-- Go's `int` and `int64`: signed integers over the native numbers, with the wrap-around of int64.
use Prim.Native.Nat.{ℕ, ◌+◌, ◌-◌, ◌*◌, ◌%◌, ◌^◌, ◌≤◌}
use mathlib.Core.Path.{◌≡◌}
use mathlib.Core.Logic.{◌↔◌}
use mathlib.Core.Bool.{Bool, true, false}
use native.Mathlib.Omega.{arith}
use gowsclient.Base.Tests.{ltb, leb, ◌==◌, if◌then◌else◌}

-- `negsuc n` is -(n + 1).
pub data ℤ : Type 0 where
  pos : ℕ → ℤ
  negsuc : ℕ → ℤ

infix 50 ◌==ℤ◌
abbrev pub ◌==ℤ◌ : ℤ → ℤ → Bool
pos a ==ℤ pos b = a == b
negsuc a ==ℤ negsuc b = a == b
_ ==ℤ _ = false

pub ==ℤ_iff : (a b : ℤ) → ((a ==ℤ b) ≡ true) ↔ (a ≡ b)
==ℤ_iff (pos a) (pos b) = ground arith
==ℤ_iff (negsuc a) (negsuc b) = ground arith
==ℤ_iff (pos a) (negsuc b) = ground arith
==ℤ_iff (negsuc a) (pos b) = ground arith

-- The order against a natural number: `n ≤ a`.
abbrev pub is_at_least : ℕ → ℤ → Bool
is_at_least n (pos a) = leb n a
is_at_least n (negsuc a) = false

abbrev pub IsAtLeast : ℕ → ℤ → Type 0
IsAtLeast n (pos a) = n ≤ a
IsAtLeast n (negsuc a) = ⊥

pub is_at_least_iff : (n : ℕ) (a : ℤ) → (is_at_least n a ≡ true) ↔ IsAtLeast n a
is_at_least_iff n (pos a) = ground arith
is_at_least_iff n (negsuc a) = ground arith

-- The natural number of an integer, 0 for a negative one.
abbrev pub to_nat : ℤ → ℕ
to_nat (pos n) = n
to_nat (negsuc n) = 0

-- The value of an integer after it is stored in an int64.
abbrev pub int64 : ℤ → ℤ
int64 (pos n) =
    if ltb (n % 2 ^ 64) (2 ^ 63) then pos (n % 2 ^ 64) else negsuc (2 ^ 64 - n % 2 ^ 64 - 1)
int64 (negsuc n) =
    if ltb (n % 2 ^ 64) (2 ^ 63) then negsuc (n % 2 ^ 64) else pos (2 ^ 64 - n % 2 ^ 64 - 1)

-- `a * k`, for a factor of at least 1.
abbrev pub scale : ℕ → ℤ → ℤ
scale k (pos n) = pos (n * k)
scale k (negsuc n) = negsuc (n * k + k - 1)
