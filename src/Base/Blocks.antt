-- ===== src/Base/Blocks.antt =====
-- A list of numbers as blocks of equal neighbours, and the numbers that stand in it.
use Prim.Native.Nat.{ℕ, zero, suc, ◌≤◌}
use mathlib.Core.Path.{◌≡◌, refl}
use mathlib.Core.Bool.{Bool, true, false}
use mathlib.Core.List.{List, [], ◌∷◌, ◌++◌}
use native.Mathlib.Omega.{arith}
use gowsclient.Base.Tests.{if_cases, ◌==◌, if◌then◌else◌}
use gowsclient.Base.Lists.{All-map, length, replicate, All, elem, Distinct}

abbrev pub is_head : ℕ → List ℕ → Bool
is_head a [] = false
is_head a (x ∷ xs) = a == x

-- How many blocks a list has.
abbrev pub blocks : List ℕ → ℕ
blocks [] = 0
blocks (x ∷ xs) = if is_head x xs then blocks xs else suc (blocks xs)

pub blocks-replicate : (n a : ℕ) (xs : List ℕ) → blocks (replicate n a ++ xs) ≤ suc (blocks xs)
blocks-replicate zero a xs = omega arith
blocks-replicate (suc zero) a xs = ground arith
blocks-replicate (suc (suc n)) a xs = ground (arith, blocks-replicate (suc n) a xs)

abbrev without : ℕ → List ℕ → List ℕ
without a [] = []
without a (x ∷ xs) = if a == x then without a xs else x ∷ without a xs

elem-without : (a b : ℕ) (xs : List ℕ) → elem a xs ≡ false → elem a (without b xs) ≡ false
elem-without a b [] h = refl
elem-without a b (x ∷ xs) h = ground (arith, elem-without a b xs)

without-Distinct : (a : ℕ) (xs : List ℕ) → Distinct xs → Distinct (without a xs)
without-Distinct a [] h = tt
without-Distinct a (x ∷ xs) h = ground (arith, elem-without x a xs h.0, without-Distinct a xs h.1)

length-without_absent :
    (a : ℕ) (xs : List ℕ) → elem a xs ≡ false → length (without a xs) ≡ length xs
length-without_absent a [] h = refl
length-without_absent a (x ∷ xs) h = ground (arith, length-without_absent a xs)

length-without : (a : ℕ) (xs : List ℕ) → Distinct xs → length xs ≤ suc (length (without a xs))
length-without a [] h = omega arith
length-without a (x ∷ xs) h =
    ground (arith, length-without a xs h.1, length-without_absent x xs h.0)

abbrev IsIn : List ℕ → ℕ → Type 0
IsIn ys x = elem x ys ≡ true

without-IsIn : (y : ℕ) (ys xs : List ℕ) → All (IsIn (y ∷ ys)) xs → All (IsIn ys) (without y xs)
without-IsIn y ys [] h = tt
without-IsIn y ys (x ∷ xs) h = ground (arith, h.0, without-IsIn y ys xs h.1)

elem_head :
    (a y : ℕ) (ys : List ℕ) → is_head y ys ≡ true → elem a (y ∷ ys) ≡ true → elem a ys ≡ true
elem_head a y [] h k = cc
elem_head a y (z ∷ ys) h k = ground arith

-- Distinct numbers that all stand in a list are at most as many as its blocks.
pub length-blocks :
    (xs ys : List ℕ) → Distinct xs → All (λ x. elem x ys ≡ true) xs → length xs ≤ blocks ys
length-blocks [] [] d h = omega arith
length-blocks (x ∷ xs) [] d h = cc
length-blocks xs (y ∷ ys) d h =
    if_cases (λ n. length xs ≤ n) (is_head y ys)
      (λ again. length-blocks xs ys d (All-map xs (λ x k. elem_head x y ys again k) h))
      (λ first. omega (
        arith,
        length-without y xs d,
        length-blocks (without y xs) ys (without-Distinct y xs d) (without-IsIn y ys xs h),
      ))
