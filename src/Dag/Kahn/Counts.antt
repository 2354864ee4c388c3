-- ===== src/Dag/Kahn/Counts.antt =====
-- What the two dictionaries of `assert_acyclic` hold.
use mathlib.Core.List.{append-nil, append_assoc}
use agent_gtd.Prelude.{
  ℕ, ◌+◌, ◌<◌, ◌≡◌, inl, inr, true, false, not, ◌&&◌, List, [], ◌∷◌, ◌++◌, arith, ◌==◌,
  if◌then◌else◌, Bool-cases,
}
use agent_gtd.Prelude.Members.{mem, count}
use agent_gtd.Graph.{Edge, has_edge}
use agent_gtd.Dag.Kahn.{Tables, add_edge, add_edges, build_tables}

-- The targets of the edges from `u`, in order.
abbrev pub targets : ℕ → List Edge → List ℕ
targets u [] = []
targets u (e ∷ es) =
    let rest = targets u es in if u == e.from_item_id then e.to_item_id ∷ rest else rest

-- The number of edges to `v` whose source is not in `past`.
abbrev pub pending : ℕ → List ℕ → List Edge → ℕ
pending v past [] = 0
pending v past (e ∷ es) =
    (if v == e.to_item_id && not (mem e.from_item_id past) then 1 else 0) + pending v past es

adjacency-add_edges :
    (t : Tables) (es : List Edge) (u : ℕ)
    → (add_edges t es).adjacency u ≡ t.adjacency u ++ targets u es
unfolding add_edges add_edge
adjacency-add_edges t [] u = simp append-nil
adjacency-add_edges t (e ∷ es) u = ground (
  arith,
  adjacency-add_edges (add_edge t e) es u,
  append_assoc (t.adjacency u) (e.to_item_id ∷ []) (targets u es),
)

in_degree-add_edges :
    (t : Tables) (es : List Edge) (v : ℕ)
    → (add_edges t es).in_degree v ≡ t.in_degree v + pending v [] es
unfolding add_edges add_edge
in_degree-add_edges t [] v = omega arith
in_degree-add_edges t (e ∷ es) v = ground (arith, in_degree-add_edges (add_edge t e) es v)

pub adjacency-build_tables : (es : List Edge) (u : ℕ) → (build_tables es).adjacency u ≡ targets u es
unfolding build_tables
adjacency-build_tables es u = adjacency-add_edges _ es u

pub in_degree-build_tables :
    (es : List Edge) (v : ℕ) → (build_tables es).in_degree v ≡ pending v [] es
unfolding build_tables
in_degree-build_tables es v = omega (arith, in_degree-add_edges _ es v)

-- Once `n` is past, its edges to `v` are no longer pending.
pub pending-cons :
    (v n : ℕ) (past : List ℕ) (es : List Edge)
    → mem n past ≡ false
    → pending v past es ≡ count v (targets n es) + pending v (n ∷ past) es
pending-cons v n past [] h = omega arith
pending-cons v n past (e ∷ es) h = ground (arith, pending-cons v n past es)

-- With none pending every predecessor is past, and otherwise one is not.
pub mem_of_pending-zero :
    (u v : ℕ) (past : List ℕ) (es : List Edge)
    → pending v past es ≡ 0
    → has_edge u v es ≡ true
    → mem u past ≡ true
mem_of_pending-zero u v past [] z h = ground arith
mem_of_pending-zero u v past (e ∷ es) z h = ground (arith, mem_of_pending-zero u v past es)

pub pending-pos :
    (v : ℕ) (past : List ℕ) (es : List Edge)
    → 0 < pending v past es
    → (u : ℕ) × (has_edge u v es ≡ true) × (mem u past ≡ false)
pending-pos v past [] h = absurd (omega arith)
pending-pos v past (e ∷ es) h =
    elim (Bool-cases (v == e.to_item_id && not (mem e.from_item_id past))) [
      | inl here ↦ (e.from_item_id, ground arith, ground arith)
      | inr later ↦
          let (u, edge_u, out) = pending-pos v past es (ground arith) in (u, ground arith, out)
    ]

pub count_of_has_edge :
    (u v : ℕ) (es : List Edge) → 0 < count v (targets u es) → has_edge u v es ≡ true
count_of_has_edge u v [] h = absurd (omega arith)
count_of_has_edge u v (e ∷ es) h = ground (arith, count_of_has_edge u v es)
