-- ===== src/Dag/Kahn/Relax.antt =====
-- The inner loop: what it leaves in the counts, and which nodes it queues.
use agent_gtd.Prelude.{
  ℕ, ◌-◌, ◌≡◌, true, ◌&&◌, ◌||◌, List, [], ◌∷◌, ◌++◌, arith, ltb, leb, ◌==◌, if◌then◌else◌,
}
use agent_gtd.Prelude.Members.{mem, Nodup, count, mem-append, Nodup-snoc}
use agent_gtd.Dag.Kahn.{update, relax}

pub relax-count : (d : ℕ → ℕ) (q ss : List ℕ) (v : ℕ) → (relax d q ss).0 v ≡ d v - count v ss
unfolding relax
relax-count d q [] v = omega arith
relax-count d q (s ∷ ss) v =
    ground (arith, relax-count (update d s (d s - 1)) (if d s == 1 then q ++ s ∷ [] else q) ss v)

-- A node is queued exactly if it was, or its count comes down to 0.
pub mem-relax :
    (d : ℕ → ℕ) (q ss : List ℕ) (v : ℕ)
    → mem v (relax d q ss).1 ≡ (mem v q || (ltb 0 (d v) && leb (d v) (count v ss)))
unfolding relax
mem-relax d q [] v = ground arith
mem-relax d q (s ∷ ss) v = ground (
  arith,
  mem-append v q (s ∷ []),
  mem-relax (update d s (d s - 1)) (if d s == 1 then q ++ s ∷ [] else q) ss v,
)

pub Nodup-relax :
    (d : ℕ → ℕ) (q ss : List ℕ)
    → Nodup q
    → ((v : ℕ) → mem v q ≡ true → d v ≡ 0)
    → Nodup (relax d q ss).1
unfolding relax
Nodup-relax d q [] n z = n
Nodup-relax d q (s ∷ ss) n z =
    Nodup-relax (update d s (d s - 1)) (if d s == 1 then q ++ s ∷ [] else q) ss
      (ground (arith, Nodup-snoc s q n, z s)) (λ v m. ground (arith, z v, mem-append v q (s ∷ [])))
