-- ===== src/EventBus/Queues.antt =====
-- One queue: what an offer leaves of it.
use agent_gtd.Prelude.{
  ℕ, ◌+◌, ◌≤◌, ◌≡◌, refl, arith, List, [], ◌∷◌, ◌++◌, leb, if◌then◌else◌, length, length-append,
}
use agent_gtd.EventBus.{Signal, queue_maxsize, offer}

-- The last `n` of a list, or all of it.
abbrev pub keep_last {ℓ} : {A : Type ℓ} → ℕ → List A → List A
keep_last n [] = []
keep_last n (x ∷ xs) = let rest = keep_last n xs in if leb (length xs + 1) n then x ∷ xs else rest

pub keep_last_all : {A : Type 0} (n : ℕ) (xs : List A) → length xs ≤ n → keep_last n xs ≡ xs
keep_last_all n [] h = refl
keep_last_all n (x ∷ xs) h = ground arith

pub length-keep_last : {A : Type 0} (n : ℕ) (xs : List A) → length (keep_last n xs) ≤ n
length-keep_last n [] = omega arith
length-keep_last n (x ∷ xs) = ground (arith, length-keep_last n xs)

pub length-snoc : {A : Type 0} (xs : List A) (x : A) → length (xs ++ x ∷ []) ≡ length xs + 1
length-snoc [] x = refl
length-snoc (y ∷ xs) x = ground (arith, length-snoc xs x)

pub keep_last-append :
    {A : Type 0} (n : ℕ) (xs ys : List A)
    → keep_last n (keep_last n xs ++ ys) ≡ keep_last n (xs ++ ys)
keep_last-append n [] ys = refl
keep_last-append n (x ∷ xs) ys = ground (arith, keep_last-append n xs ys, length-append xs ys)

-- An offer to a queue within its bound appends, and drops the oldest if that is one too many.
pub offer-keep_last :
    (x : Signal) (q : List Signal)
    → length q ≤ queue_maxsize
    → offer x q ≡ keep_last queue_maxsize (q ++ x ∷ [])
unfolding offer
offer-keep_last x [] h = ground arith
offer-keep_last x (y ∷ q) h =
    ground (arith, length-snoc q x, keep_last_all queue_maxsize (q ++ x ∷ []))
