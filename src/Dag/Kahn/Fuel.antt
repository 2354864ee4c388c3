-- ===== src/Dag/Kahn/Fuel.antt =====
-- The fuel of `assert_acyclic` is enough on every input, repeated nodes and foreign edges included:
-- a node is queued again only when its count comes down to 0, which happens once.
use agent_gtd.Prelude.{
  ℕ, zero, suc, ◌+◌, ◌-◌, ◌≤◌, ◌<◌, ◌≡◌, ◌≢◌, true, Option, none, List, [], ◌∷◌, ◌++◌, arith, ltb,
  ◌==◌, if◌then◌else◌, length, length-append, filter, length-filter-le,
}
use agent_gtd.Prelude.Members.{mem, Subset}
use agent_gtd.Graph.{Edge}
use agent_gtd.Dag.Kahn.{update, relax, drain, build_tables, verdict, assert_acyclic, out_of_fuel}
use agent_gtd.Dag.Kahn.Counts.{targets, adjacency-build_tables}

abbrev heads : List Edge → List ℕ
heads [] = []
heads (e ∷ es) = e.to_item_id ∷ heads es

-- The number of edges whose target still has a positive count.
abbrev positives : (ℕ → ℕ) → List Edge → ℕ
positives d [] = 0
positives d (e ∷ es) = (if ltb 0 (d e.to_item_id) then 1 else 0) + positives d es

targets-Subset : (u : ℕ) (es : List Edge) → Subset (targets u es) (heads es)
targets-Subset u [] a m = m
targets-Subset u (e ∷ es) a m = ground (arith, targets-Subset u es a)

positives-le :
    (d : ℕ → ℕ) (s : ℕ) (es : List Edge) → positives (update d s (d s - 1)) es ≤ positives d es
positives-le d s [] = omega arith
positives-le d s (e ∷ es) = ground (arith, positives-le d s es)

positives-lt :
    (d : ℕ → ℕ) (s : ℕ) (es : List Edge)
    → d s ≡ 1
    → mem s (heads es) ≡ true
    → positives (update d s (d s - 1)) es < positives d es
positives-lt d s [] h m = ground arith
positives-lt d s (e ∷ es) h m = ground (arith, positives-lt d s es h, positives-le d s es)

relax-potential :
    (es : List Edge) (d : ℕ → ℕ) (q ss : List ℕ)
    → Subset ss (heads es)
    → length (relax d q ss).1 + positives (relax d q ss).0 es ≤ length q + positives d es
unfolding relax
relax-potential es d q [] h = omega arith
relax-potential es d q (s ∷ ss) h = ground (
  arith,
  positives-le d s es,
  positives-lt d s es,
  h s,
  length-append q (s ∷ []),
  relax-potential es (update d s (d s - 1)) (if d s == 1 then q ++ s ∷ [] else q) ss
      (λ a m. ground (arith, h a)),
)

drain_total :
    (es : List Edge) (adjacency : ℕ → List ℕ)
    → ((u : ℕ) → Subset (adjacency u) (heads es))
    → (fuel : ℕ) (d : ℕ → ℕ) (q : List ℕ) (processed : ℕ) → length q + positives d es ≤ fuel
    → drain fuel adjacency d q processed ≢ none
unfolding drain
drain_total es adjacency sub zero d [] processed h = ground arith
drain_total es adjacency sub zero d (n ∷ q) processed h = absurd (omega arith)
drain_total es adjacency sub (suc fuel) d [] processed h = ground arith
drain_total es adjacency sub (suc fuel) d (n ∷ q) processed h =
    drain_total es adjacency sub fuel _ _ (processed + 1)
      (omega (arith, relax-potential es d q (adjacency n) (sub n)))

positives-le-length : (d : ℕ → ℕ) (es : List Edge) → positives d es ≤ length es
positives-le-length d [] = omega arith
positives-le-length d (e ∷ es) = ground (arith, positives-le-length d es)

verdict-out_of_fuel : (nodes : List ℕ) (r : Option ℕ) → verdict nodes r ≡ out_of_fuel → r ≡ none
unfolding verdict
verdict-out_of_fuel nodes r h = ground arith

-- `assert_acyclic` comes to a verdict on every list of nodes and every list of edges, repeated
-- nodes and edges to unlisted nodes included.
pub assert_acyclic_total : (nodes : List ℕ) (es : List Edge) → assert_acyclic nodes es ≢ out_of_fuel
unfolding assert_acyclic
assert_acyclic_total nodes es h =
    let t = build_tables es in
    let queue = filter (λ node. t.in_degree node == 0) nodes in
    drain_total es t.adjacency (λ u a m. targets-Subset u es a (rw adjacency-build_tables at m))
      (length nodes + length es) t.in_degree queue 0
      (omega (
        arith,
        length-filter-le (λ node. t.in_degree node == 0) nodes,
        positives-le-length t.in_degree es,
      ))
      (verdict-out_of_fuel nodes _ h)
