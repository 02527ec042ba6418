-- ===== src/Base/Lists.antt =====
-- Lists measured by native numbers, membership tests, and predicates by recursion.
use Prim.Native.Nat.{ℕ, zero, suc, ◌+◌, ◌≤◌, ◌<◌}
use mathlib.Core.Path.{◌≡◌, refl, ap}
use mathlib.Core.Bool.{Bool, true, false, ◌||◌}
use mathlib.Core.List.{List, [], ◌∷◌, ◌++◌, map}
use native.Mathlib.Omega.{arith}
use gowsclient.Base.Tests.{◌==◌}

module _ {ℓ} {A : Type ℓ} where
  abbrev pub length : List A → ℕ
  length [] = 0
  length (x ∷ xs) = suc (length xs)

  abbrev pub replicate : ℕ → A → List A
  replicate zero a = []
  replicate (suc n) a = a ∷ replicate n a

  pub length-append : (xs ys : List A) → length (xs ++ ys) ≡ length xs + length ys
  length-append [] ys = omega arith
  length-append (x ∷ xs) ys = omega (arith, length-append xs ys)

module _ {ℓ} {A : Type ℓ} where
  pub length-replicate : (n : ℕ) (a : A) → length (replicate n a) ≡ n
  length-replicate zero a = refl
  length-replicate (suc n) a = ap suc (length-replicate n a)

-- A predicate by recursion computes to tuples.
abbrev pub All {ℓ κ} : {A : Type ℓ} → (A → Type κ) → List A → Type κ
All P [] = Unit
All P (x ∷ xs) = P x × All P xs

-- Whether a number stands in a list.
abbrev pub elem : ℕ → List ℕ → Bool
elem a [] = false
elem a (x ∷ xs) = (a == x) || elem a xs

pub All-map {ℓ κ λ'} :
    {A : Type ℓ} {P : A → Type κ} {Q : A → Type λ'} (xs : List A)
    → ((a : A) → P a → Q a)
    → All P xs
    → All Q xs
All-map [] f h = tt
All-map (x ∷ xs) f h = (f x h.0, All-map xs f h.1)

pub All-append {ℓ κ} :
    {A : Type ℓ} (P : A → Type κ) (xs ys : List A) → All P xs → All P ys → All P (xs ++ ys)
All-append P [] ys h k = k
All-append P (x ∷ xs) ys h k = (h.0, All-append P xs ys h.1 k)

pub All-replicate {ℓ κ} :
    {A : Type ℓ} (P : A → Type κ) (n : ℕ) (a : A) → P a → All P (replicate n a)
All-replicate P zero a h = tt
All-replicate P (suc n) a h = (h, All-replicate P n a h)

-- Every number of the list is below a bound.
abbrev pub Below : ℕ → List ℕ → Type 0
Below n xs = All (λ x. x < n) xs

pub Below-mono : {n m : ℕ} (xs : List ℕ) → n ≤ m → Below n xs → Below m xs
Below-mono [] h k = tt
Below-mono (x ∷ xs) h k = (omega arith, Below-mono xs h k.1)

pub elem_fresh : (n a : ℕ) (xs : List ℕ) → Below n xs → n ≤ a → elem a xs ≡ false
elem_fresh n a [] h k = refl
elem_fresh n a (x ∷ xs) h k = ground (arith, elem_fresh n a xs h.1 k)

-- No number stands in the list twice.
abbrev pub Distinct : List ℕ → Type 0
Distinct [] = Unit
Distinct (x ∷ xs) = (elem x xs ≡ false) × Distinct xs

elem-append_left : (a : ℕ) (xs ys : List ℕ) → elem a xs ≡ true → elem a (xs ++ ys) ≡ true
elem-append_left a [] ys h = cc
elem-append_left a (x ∷ xs) ys h = ground (arith, elem-append_left a xs ys)

pub elem-append_right : (a : ℕ) (xs ys : List ℕ) → elem a ys ≡ true → elem a (xs ++ ys) ≡ true
elem-append_right a [] ys h = h
elem-append_right a (x ∷ xs) ys h = ground (arith, elem-append_right a xs ys h)

module _ {ℓ} {A : Type ℓ} where
  abbrev pub take : ℕ → List A → List A
  take zero xs = []
  take (suc n) [] = []
  take (suc n) (x ∷ xs) = x ∷ take n xs

pub All-take {ℓ κ} :
    {A : Type ℓ} (P : A → Type κ) (n : ℕ) (xs : List A) → All P xs → All P (take n xs)
All-take P zero xs h = tt
All-take P (suc n) [] h = tt
All-take P (suc n) (x ∷ xs) h = (h.0, All-take P n xs h.1)

-- A list with one element replaced.
pub All-replace {ℓ κ} :
    {A : Type ℓ} (P : A → Type κ) (xs ys : List A) (a b : A)
    → All P (xs ++ (a ∷ ys))
    → P b
    → All P (xs ++ (b ∷ ys))
All-replace P [] ys a b h k = (k, h.1)
All-replace P (x ∷ xs) ys a b h k = (h.0, All-replace P xs ys a b h.1 k)

pub All-at {ℓ κ} :
    {A : Type ℓ} (P : A → Type κ) (xs ys : List A) (a : A) → All P (xs ++ (a ∷ ys)) → P a
All-at P [] ys a h = h.0
All-at P (x ∷ xs) ys a h = All-at P xs ys a h.1

-- The sum of a weight over a list.
abbrev pub sum_of {ℓ} : {A : Type ℓ} → (A → ℕ) → List A → ℕ
sum_of w [] = 0
sum_of w (x ∷ xs) = w x + sum_of w xs

pub sum_of-append {ℓ} :
    {A : Type ℓ} (w : A → ℕ) (xs ys : List A) → sum_of w (xs ++ ys) ≡ sum_of w xs + sum_of w ys
sum_of-append w [] ys = omega arith
sum_of-append w (x ∷ xs) ys = omega (arith, sum_of-append w xs ys)

pub All-map_list {ℓ κ λ'} :
    {A : Type ℓ} {B : Type κ} (P : B → Type λ') (f : A → B) (xs : List A)
    → All (λ a. P (f a)) xs
    → All P (map f xs)
All-map_list P f [] h = tt
All-map_list P f (x ∷ xs) h = (h.0, All-map_list P f xs h.1)
