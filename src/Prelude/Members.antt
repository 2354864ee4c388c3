-- ===== src/Prelude/Members.antt =====
-- Lists of identifiers: membership as a test, lists with no repetition, and the counting argument.
use Prim.Native.Nat.{ℕ, suc, ◌+◌, ◌≤◌}
use mathlib.Core.Path.{◌≡◌, refl}
use mathlib.Core.Logic.{◌≢◌, inl, inr}
use mathlib.Core.Bool.{Bool, true, false, ◌&&◌, ◌||◌}
use mathlib.Core.List.{List, [], ◌∷◌, ◌++◌}
use native.Mathlib.Omega.{arith}
use agent_gtd.Prelude.Tests.{◌==◌, if◌then◌else◌, Bool-cases, ==→≡}
use agent_gtd.Prelude.Lists.{length, filter}

-- `a in xs`
abbrev pub mem : ℕ → List ℕ → Bool
mem a [] = false
mem a (x ∷ xs) = a == x || mem a xs

abbrev pub Nodup : List ℕ → Type 0
Nodup [] = Unit
Nodup (x ∷ xs) = (mem x xs ≡ false) × Nodup xs

abbrev pub Subset : List ℕ → List ℕ → Type 0
Subset xs ys = (a : ℕ) → mem a xs ≡ true → mem a ys ≡ true

abbrev pub count : ℕ → List ℕ → ℕ
count a [] = 0
count a (x ∷ xs) = (if a == x then 1 else 0) + count a xs

abbrev pub erase : ℕ → List ℕ → List ℕ
erase a [] = []
erase a (x ∷ xs) = let rest = erase a xs in if a == x then xs else x ∷ rest

pub mem-append : (a : ℕ) (xs ys : List ℕ) → mem a (xs ++ ys) ≡ (mem a xs || mem a ys)
mem-append a [] ys = refl
mem-append a (x ∷ xs) ys = ground (arith, mem-append a xs ys)

pub length-erase : (a : ℕ) (xs : List ℕ) → mem a xs ≡ true → suc (length (erase a xs)) ≡ length xs
length-erase a [] h = ground arith
length-erase a (x ∷ xs) h = ground (arith, length-erase a xs)

pub mem-erase : (a b : ℕ) (xs : List ℕ) → mem b xs ≡ true → a ≢ b → mem b (erase a xs) ≡ true
mem-erase a b [] h n = ground arith
mem-erase a b (x ∷ xs) h n = ground (arith, mem-erase a b xs)

-- A list with no repetition, all of whose members are in `ys`, is not longer than `ys`.
pub length-le_of_Subset : (xs ys : List ℕ) → Nodup xs → Subset xs ys → length xs ≤ length ys
length-le_of_Subset [] ys d s = omega arith
length-le_of_Subset (x ∷ xs) ys d s =
    let inside = s x (ground arith) in
    let rest =
      length-le_of_Subset xs (erase x ys) d.1
        λ a m. mem-erase x a ys (s a (ground arith)) (ground arith) in
    omega (arith, length-erase x ys inside)

pub mem-cons-false : (a x : ℕ) (xs : List ℕ) → mem a (x ∷ xs) ≡ false → mem a xs ≡ false
mem-cons-false a x xs h = ground arith

pub Nodup-snoc : (a : ℕ) (xs : List ℕ) → Nodup xs → mem a xs ≡ false → Nodup (xs ++ a ∷ [])
Nodup-snoc a [] d h = (refl, tt)
Nodup-snoc a (x ∷ xs) d h =
    (ground (arith, mem-append x xs (a ∷ [])), Nodup-snoc a xs d.1 (mem-cons-false a x xs h))

pub mem-filter : (p : ℕ → Bool) (a : ℕ) (xs : List ℕ) → mem a (filter p xs) ≡ (mem a xs && p a)
mem-filter p a [] = refl
mem-filter p a (x ∷ xs) = elim (Bool-cases (a == x)) [
  | inl same ↦ let e = ==→≡ a x same in rw e (ground (arith, mem-filter p x xs))
  | inr other ↦ ground (arith, mem-filter p a xs)
]

pub Nodup-filter : (p : ℕ → Bool) (xs : List ℕ) → Nodup xs → Nodup (filter p xs)
Nodup-filter p [] d = tt
Nodup-filter p (x ∷ xs) d = ground (arith, mem-filter p x xs, Nodup-filter p xs d.1)
