-- ===== src/Prelude/Lists.antt =====
-- List functions over the native numbers and Boolean tests, under the library's names.
use Prim.Native.Nat.{ℕ, suc, ◌+◌, ◌≤◌}
use mathlib.Core.Path.{◌≡◌, refl}
use mathlib.Core.Bool.{Bool, true, false, ◌&&◌, ◌||◌}
use mathlib.Core.Option.{Option, none, some}
use mathlib.Core.List.{List, [], ◌∷◌, ◌++◌, map}
use native.Mathlib.Omega.{arith}
use agent_gtd.Prelude.Tests.{if◌then◌else◌}

module _ {ℓ} {A : Type ℓ} where
  abbrev pub length : List A → ℕ
  length [] = 0
  length (x ∷ xs) = suc (length xs)

  abbrev pub filter : (A → Bool) → List A → List A
  filter p [] = []
  filter p (x ∷ xs) = let rest = filter p xs in if p x then x ∷ rest else rest

  abbrev pub all : (A → Bool) → List A → Bool
  all p [] = true
  all p (x ∷ xs) = p x && all p xs

  abbrev pub any : (A → Bool) → List A → Bool
  any p [] = false
  any p (x ∷ xs) = p x || any p xs

  -- `next((x for x in xs if p(x)), None)`
  abbrev pub find? : (A → Bool) → List A → Option A
  find? p [] = none
  find? p (x ∷ xs) = let rest = find? p xs in if p x then some x else rest

  pub length-append : (xs ys : List A) → length (xs ++ ys) ≡ length xs + length ys
  length-append [] ys = omega arith
  length-append (x ∷ xs) ys = omega (arith, length-append xs ys)

  pub length-filter-le : (p : A → Bool) (xs : List A) → length (filter p xs) ≤ length xs
  length-filter-le p [] = omega arith
  length-filter-le p (x ∷ xs) = ground (arith, length-filter-le p xs)

-- What a change of the rows that the test does not see finds.
pub find-map {ℓ} :
    {A : Type ℓ} (p : A → Bool) (f : A → A) (same : (x : A) → p (f x) ≡ p x) (a : A) (xs : List A)
    → find? p xs ≡ some a
    → find? p (map f xs) ≡ some (f a)
find-map p f same a [] h = ground arith
find-map p f same a (x ∷ xs) h = ground (arith, same x, find-map p f same a xs)

-- What is found first is found first among the rows that pass a test which it passes.
pub find-filter {ℓ} :
    {A : Type ℓ} (p q : A → Bool) (a : A) (xs : List A)
    → find? p xs ≡ some a
    → q a ≡ true
    → find? p (filter q xs) ≡ some a
find-filter p q a [] h k = ground arith
find-filter p q a (x ∷ xs) h k = ground (arith, find-filter p q a xs)

pub find_passes {ℓ} :
    {A : Type ℓ} (p : A → Bool) (a : A) (xs : List A) → find? p xs ≡ some a → p a ≡ true
find_passes p a [] h = ground arith
find_passes p a (x ∷ xs) h = ground (arith, find_passes p a xs)

pub find_head {ℓ} :
    {A : Type ℓ} (p : A → Bool) (x a : A) (xs : List A)
    → p x ≡ true
    → find? p (x ∷ xs) ≡ some a
    → x ≡ a
find_head p x a xs h f = ground arith

pub find_tail {ℓ} :
    {A : Type ℓ} (p : A → Bool) (x a : A) (xs : List A)
    → p x ≡ false
    → find? p (x ∷ xs) ≡ some a
    → find? p xs ≡ some a
find_tail p x a xs h f = ground arith

pub length-map {ℓ κ} :
    {A : Type ℓ} {B : Type κ} (f : A → B) (xs : List A) → length (map f xs) ≡ length xs
length-map f [] = refl
length-map f (x ∷ xs) = omega (arith, length-map f xs)
