-- ===== src/Examples/Dag.antt =====
-- A plan of three items, derived from one blocker and the files that two pairs of items share.
use agent_gtd.Prelude.{ℕ, ◌<◌, ◌≡◌, ◌≢◌, ◌↔◌, refl, true, List, [], ◌∷◌, arith, ◌==◌, if◌then◌else◌}
use agent_gtd.Prelude.Members.{Nodup}
use agent_gtd.Exceptions.{ok}
use agent_gtd.Graph.{Edge, has_edge, Reaches, edge, via, Acyclic}
use agent_gtd.Dag.{
  Dependency, derive_edges, compute_blocker_edges, compute_overlap_edges, merge_edges, merge_from,
  raise_if_cyclic, fetch_dependency_pairs, sort, insert, key_le, order, overlap_row, items_overlap,
}
use agent_gtd.Dag.Kahn.{
  assert_acyclic, acyclic, out_of_fuel, build_tables, add_edges, add_edge, drain, relax, verdict,
}
use agent_gtd.Dag.Kahn.Fuel.{assert_acyclic_total}
use agent_gtd.Dag.Kahn.Correct.{Within, assert_acyclic_iff}
use agent_gtd.Dag.Edges.{Distinct}
use agent_gtd.Dag.Derive.{must_precede, derive_edges_sound}

abbrev pub triangle : List Edge
triangle =
    record { from_item_id = 1; to_item_id = 3 }
    ∷ record { from_item_id = 1; to_item_id = 2 }
    ∷ record { from_item_id = 2; to_item_id = 3 }
    ∷ []

abbrev nodes : List ℕ
nodes = 1 ∷ 2 ∷ 3 ∷ []

nodes-Nodup : Nodup nodes
nodes-Nodup = ground arith

triangle-Within : Within nodes triangle
triangle-Within u v h = ground arith

-- Every edge that goes up makes a graph with no cycle.
up-Reaches :
    (es : List Edge)
    → ((u v : ℕ) → has_edge u v es ≡ true → u < v)
    → {u v : ℕ} → Reaches es u v
    → u < v
up-Reaches es up (edge h) = up _ _ h
up-Reaches es up (via p h) = omega (arith, up-Reaches es up p, up _ _ h)

up-Acyclic : (es : List Edge) → ((u v : ℕ) → has_edge u v es ≡ true → u < v) → Acyclic es
up-Acyclic es up v r = omega (arith, up-Reaches es up r)

assert_acyclic_total_example : assert_acyclic nodes triangle ≢ out_of_fuel
assert_acyclic_total_example = assert_acyclic_total nodes triangle

assert_acyclic_iff_example : (assert_acyclic nodes triangle ≡ acyclic) ↔ Acyclic triangle
assert_acyclic_iff_example = assert_acyclic_iff nodes triangle nodes-Nodup triangle-Within

abbrev paths : ℕ → List ℕ
paths a = if a == 1 then 10 ∷ [] else if a == 2 then 10 ∷ 20 ∷ [] else 20 ∷ []

abbrev rows : List Dependency
rows = record { item_id = 3; blocker_item_id = 1 } ∷ []

derived : derive_edges ◌==◌ paths rows nodes ≡ ok triangle
unfolding derive_edges compute_blocker_edges compute_overlap_edges merge_edges merge_from
    raise_if_cyclic fetch_dependency_pairs sort insert key_le order overlap_row items_overlap
    assert_acyclic build_tables add_edges add_edge drain relax verdict
derived = refl

derive_edges_sound_example :
    ((u v : ℕ) → has_edge u v triangle ≡ must_precede ◌==◌ paths rows nodes u v)
    × Acyclic triangle
    × Distinct triangle
derive_edges_sound_example = derive_edges_sound ◌==◌ paths rows nodes triangle nodes-Nodup derived

asked-up : (u v : ℕ) → must_precede ◌==◌ paths rows nodes u v ≡ true → u < v
asked-up u v h = ground arith
