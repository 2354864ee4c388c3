-- ===== src/Dag/Kahn.antt =====
-- `assert_acyclic` of src/agent_gtd/services/rollout_dag.py: Kahn's algorithm over the nodes of a
-- plan. A dictionary is a function: `in_degree` reads 0 at a key that was never set, where the
-- code has either set the key or calls `get(key, 0)`.
pub mod Relax
pub mod Counts
pub mod Fuel
pub mod Correct
use agent_gtd.Prelude.{
  ℕ, zero, suc, ◌+◌, ◌-◌, Option, none, some, List, [], ◌∷◌, ◌++◌, ◌==◌, ltb, if◌then◌else◌, length,
  filter,
}
use agent_gtd.Graph.{Edge}

abbrev pub update {ℓ} : {A : Type ℓ} → (ℕ → A) → ℕ → A → ℕ → A
update f k a v = if v == k then a else f v

pub record Tables : Type 0 where
  pub adjacency : ℕ → List ℕ
  pub in_degree : ℕ → ℕ

-- the body of `for edge in edges`
unfoldable pub add_edge : Tables → Edge → Tables
add_edge t e = record {
  adjacency = update t.adjacency e.from_item_id (t.adjacency e.from_item_id ++ e.to_item_id ∷ []);
  in_degree = update t.in_degree e.to_item_id (t.in_degree e.to_item_id + 1);
}

unfoldable pub add_edges : Tables → List Edge → Tables
add_edges t [] = t
add_edges t (e ∷ es) = add_edges (add_edge t e) es

unfoldable pub build_tables : List Edge → Tables
unfolding add_edges add_edge
build_tables es = add_edges (record { adjacency = λ _. []; in_degree = λ _. 0 }) es

-- `for successor in adjacency[node]`: a count falls by one, and a successor whose count comes to
-- 0 is queued. A count that would fall below 0 stays at 0 here; it is queued in neither, since
-- the test is made on the count before (1), and counts never rise again.
unfoldable pub relax : (ℕ → ℕ) → List ℕ → List ℕ → (ℕ → ℕ) × List ℕ
relax d queue [] = (d, queue)
relax d queue (s ∷ ss) =
    relax (update d s (d s - 1)) (if d s == 1 then queue ++ s ∷ [] else queue) ss

-- `while queue`, with the count of processed nodes; `none` is: the fuel ran out.
unfoldable pub drain : ℕ → (ℕ → List ℕ) → (ℕ → ℕ) → List ℕ → ℕ → Option ℕ
drain fuel adjacency d [] processed = some processed
drain zero adjacency d (node ∷ queue) processed = none
drain (suc fuel) adjacency d (node ∷ queue) processed =
    let (d', queue') = relax d queue (adjacency node) in
    drain fuel adjacency d' queue' (processed + 1)

-- `cyclic k` is the `ValueError` about `k` nodes.
pub data Verdict : Type 0 where
  acyclic : Verdict
  cyclic : ℕ → Verdict
  out_of_fuel : Verdict

unfoldable pub verdict : List ℕ → Option ℕ → Verdict
verdict nodes none = out_of_fuel
verdict nodes (some processed) =
    if ltb processed (length nodes) then cyclic (length nodes - processed) else acyclic

-- Every pop is of a node queued at the start or of the target of an edge.
unfoldable pub assert_acyclic : List ℕ → List Edge → Verdict
assert_acyclic nodes edges =
    let t = build_tables edges in
    let queue = filter (λ node. t.in_degree node == 0) nodes in
    verdict nodes (drain (length nodes + length edges) t.adjacency t.in_degree queue 0)
