-- ===== src/Dag.antt =====
-- src/agent_gtd/services/rollout_dag.py: the edges of a rollout's plan. Items are named by numbers;
-- the code only compares their ids. Two `files_to_modify` entries are compared by
-- `paths_overlap`, which is an argument here.
pub mod Kahn
pub mod Edges
pub mod Derive
pub mod Paths
pub mod Directory
pub mod Overlap
use agent_gtd.Prelude.{
  ℕ, suc, ◌+◌, Bool, not, ◌&&◌, ◌||◌, Option, List, [], ◌∷◌, ◌++◌, map, ◌==◌, ltb, leb,
  if◌then◌else◌, filter, any,
}
use agent_gtd.Prelude.Members.{mem}
use agent_gtd.Exceptions.{Result, ok, err, value_error, ◌>>=◌, ◌>>◌}
use agent_gtd.Graph.{Edge, has_edge}
use agent_gtd.Dag.Kahn.{Verdict, acyclic, cyclic, out_of_fuel, assert_acyclic}

-- A row of `item_dependencies`.
pub record Dependency : Type 0 where
  pub item_id : ℕ
  pub blocker_item_id : ℕ

-- `fetch_dependency_pairs` of item_service.py: both ends are in the wave.
unfoldable pub fetch_dependency_pairs : List Dependency → List ℕ → List Dependency
fetch_dependency_pairs rows item_ids =
    filter (λ r. mem r.item_id item_ids && mem r.blocker_item_id item_ids) rows

-- `order[item_id]`, the index that the dictionary keeps: of a repeated id the last.
unfoldable pub order : List ℕ → ℕ → ℕ → ℕ
order [] i a = i
order (x ∷ xs) i a = if a == x && not (mem a xs) then i else order xs (i + 1) a

-- The key of the sort, `(order[from], order[to])`, compared as Python compares tuples.
unfoldable pub key_le : List ℕ → Edge → Edge → Bool
key_le item_ids a b =
    let fa = order item_ids 0 a.from_item_id in
    let fb = order item_ids 0 b.from_item_id in
    ltb fa fb || (fa == fb && leb (order item_ids 0 a.to_item_id) (order item_ids 0 b.to_item_id))

-- `list.sort` is stable: an edge goes in front of those whose key is not smaller.
unfoldable pub insert : List ℕ → Edge → List Edge → List Edge
insert item_ids e [] = e ∷ []
insert item_ids e (x ∷ xs) =
    let rest = insert item_ids e xs in if key_le item_ids e x then e ∷ x ∷ xs else x ∷ rest

unfoldable pub sort : List ℕ → List Edge → List Edge
sort item_ids [] = []
sort item_ids (e ∷ es) = insert item_ids e (sort item_ids es)

abbrev pub blocker_edge : Dependency → Edge
blocker_edge r = record { from_item_id = r.blocker_item_id; to_item_id = r.item_id }

unfoldable pub compute_blocker_edges : List Dependency → List ℕ → List Edge
unfolding fetch_dependency_pairs
compute_blocker_edges rows item_ids =
    sort item_ids (map blocker_edge (fetch_dependency_pairs rows item_ids))

module _ {Entry : Type 0} (paths_overlap : Entry → Entry → Bool) where
  -- `any(_paths_overlap(pa, pb) for pa in paths_a for pb in paths_b)`
  unfoldable pub items_overlap : (ℕ → List Entry) → ℕ → ℕ → Bool
  items_overlap paths a b = any (λ pa. any (paths_overlap pa) (paths b)) (paths a)

  -- the inner loop, over `item_ids[i + 1 :]`
  unfoldable pub overlap_row : (ℕ → List Entry) → ℕ → List ℕ → List Edge
  overlap_row paths a [] = []
  overlap_row paths a (b ∷ later) =
      let rest = overlap_row paths a later in
      if items_overlap paths a b then record { from_item_id = a; to_item_id = b } ∷ rest else rest

  -- `paths` is the dictionary `id_to_paths`, with `[]` at an id that it lacks.
  unfoldable pub compute_overlap_edges : (ℕ → List Entry) → List ℕ → List Edge
  compute_overlap_edges paths [] = []
  compute_overlap_edges paths (a ∷ later) =
      overlap_row paths a later ++ compute_overlap_edges paths later

-- The loop of `merge_edges` over the keys seen and the result so far.
unfoldable pub merge_from : List Edge → List Edge → List Edge → List Edge
merge_from seen result [] = result
merge_from seen result (e ∷ es) =
    let known = has_edge e.from_item_id e.to_item_id seen in
    merge_from (if known then seen else e ∷ seen) (if known then result else result ++ e ∷ []) es

unfoldable pub merge_edges : List Edge → List Edge → List Edge
merge_edges blocker_edges overlap_edges = merge_from [] [] (blocker_edges ++ overlap_edges)

-- `assert_acyclic` as a call that raises. Its fuel never runs out (`assert_acyclic_total`).
unfoldable pub raise_if_cyclic : Verdict → Result (Unit {0})
raise_if_cyclic acyclic = ok tt
raise_if_cyclic (cyclic k) = err (value_error k)
raise_if_cyclic out_of_fuel = err (value_error 0)

unfoldable pub derive_edges :
    {Entry : Type 0}
    → (Entry → Entry → Bool)
    → (ℕ → List Entry)
    → List Dependency
    → List ℕ
    → Result (List Edge)
derive_edges paths_overlap paths rows item_ids =
    let blocker_edges = compute_blocker_edges rows item_ids in
    let overlap_edges = compute_overlap_edges paths_overlap paths item_ids in
    let edges = merge_edges blocker_edges overlap_edges in
    raise_if_cyclic (assert_acyclic item_ids edges) >> ok edges
