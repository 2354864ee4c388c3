-- ===== src/Dag/Derive.antt =====
-- `derive_edges` as a whole.
use agent_gtd.Prelude.{ℕ, ◌≡◌, refl, Bool, true, ◌&&◌, ◌||◌, List, [], ◌∷◌, arith}
use agent_gtd.Prelude.Members.{mem, Nodup}
use agent_gtd.Exceptions.{ok, ◌>>◌}
use agent_gtd.Graph.{Edge, has_edge, Acyclic}
use agent_gtd.Dag.Kahn.{Verdict, acyclic, assert_acyclic}
use agent_gtd.Dag.Kahn.Correct.{Within, assert_acyclic_iff}
use agent_gtd.Dag.{
  Dependency, compute_blocker_edges, compute_overlap_edges, items_overlap, merge_edges,
  raise_if_cyclic, derive_edges,
}
use agent_gtd.Dag.Edges.{
  has_pair, precedes, has_edge-compute_blocker_edges, has_edge-compute_overlap_edges,
  has_edge-merge_edges, Distinct, merge_edges-Distinct,
}

mem-precedes :
    (u v : ℕ) (xs : List ℕ) → precedes u v xs ≡ true → (mem u xs ≡ true) × (mem v xs ≡ true)
mem-precedes u v [] h = ground arith
mem-precedes u v (x ∷ xs) h = ground (arith, mem-precedes u v xs)

raise_if_cyclic-ok :
    (v : Verdict) (e es : List Edge)
    → (raise_if_cyclic v >> ok e) ≡ ok es
    → (v ≡ acyclic) × (e ≡ es)
unfolding raise_if_cyclic
raise_if_cyclic-ok v e es h = ground arith

module _ {Entry : Type 0} (paths_overlap : Entry → Entry → Bool) (paths : ℕ → List Entry)
    (rows : List Dependency) (ids : List ℕ) where
  -- The order that a wave asks for: `u` blocks `v`, or stands before it and touches a common file.
  abbrev pub must_precede : ℕ → ℕ → Bool
  must_precede u v =
      (has_pair u v rows && (mem u ids && mem v ids))
      || (precedes u v ids && items_overlap paths_overlap paths u v)

  abbrev merged : List Edge
  merged =
      merge_edges (compute_blocker_edges rows ids) (compute_overlap_edges paths_overlap paths ids)

  has_edge-merged : (u v : ℕ) → has_edge u v merged ≡ must_precede u v
  has_edge-merged u v = ground (
    arith,
    has_edge-merge_edges (compute_blocker_edges rows ids)
        (compute_overlap_edges paths_overlap paths ids) u v,
    has_edge-compute_blocker_edges rows ids u v,
    has_edge-compute_overlap_edges paths_overlap paths u v ids,
  )

  merged-Within : Within ids merged
  merged-Within u v h = ground (arith, has_edge-merged u v, mem-precedes u v ids)

  -- A plan that is derived holds exactly the edges that the wave asks for, each once, and has no
  -- cycle, if the ids of the wave are distinct.
  pub derive_edges_sound :
      (es : List Edge)
      → Nodup ids
      → derive_edges paths_overlap paths rows ids ≡ ok es
      → ((u v : ℕ) → has_edge u v es ≡ must_precede u v) × Acyclic es × Distinct es
  unfolding derive_edges
  derive_edges_sound es d h =
      let (v, e) = raise_if_cyclic-ok (assert_acyclic ids merged) merged es h in
      rw (← e) (
        has_edge-merged,
        (assert_acyclic_iff ids merged d merged-Within).0 v,
        merge_edges-Distinct _ _,
      )

  -- The derivation fails only if those edges have a cycle.
  pub derive_edges_complete :
      Nodup ids
      → ((es : List Edge) → ((u v : ℕ) → has_edge u v es ≡ must_precede u v) → Acyclic es)
      → (es : List Edge) × (derive_edges paths_overlap paths rows ids ≡ ok es)
  unfolding derive_edges raise_if_cyclic
  derive_edges_complete d h = (
    merged,
    rw ((assert_acyclic_iff ids merged d merged-Within).1 (h merged has_edge-merged)) refl,
  )
