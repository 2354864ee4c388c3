-- ===== src/Dag/Edges.antt =====
-- Which edges the parts of the derivation hold.
use agent_gtd.Prelude.{
  ℕ, ◌≡◌, refl, Bool, false, ◌&&◌, ◌||◌, List, [], ◌∷◌, ◌++◌, arith, map, ◌==◌, if◌then◌else◌,
  Bool-cases, inl, inr,
}
use agent_gtd.Prelude.Members.{mem}
use agent_gtd.Graph.{Edge, has_edge}
use agent_gtd.Dag.{
  Dependency, fetch_dependency_pairs, insert, sort, blocker_edge, compute_blocker_edges,
  items_overlap, overlap_row, compute_overlap_edges, merge_from, merge_edges,
}

-- The row says that `u` blocks `v`.
abbrev pub has_pair : ℕ → ℕ → List Dependency → Bool
has_pair u v [] = false
has_pair u v (r ∷ rows) = (u == r.blocker_item_id && v == r.item_id) || has_pair u v rows

-- `u` stands before `v`.
abbrev pub precedes : ℕ → ℕ → List ℕ → Bool
precedes u v [] = false
precedes u v (x ∷ xs) = (u == x && mem v xs) || precedes u v xs

pub has_edge-append :
    (u v : ℕ) (xs ys : List Edge) → has_edge u v (xs ++ ys) ≡ (has_edge u v xs || has_edge u v ys)
has_edge-append u v [] ys = refl
has_edge-append u v (x ∷ xs) ys = ground (arith, has_edge-append u v xs ys)

has_edge-insert :
    (ids : List ℕ) (u v : ℕ) (e : Edge) (es : List Edge)
    → has_edge u v (insert ids e es) ≡ has_edge u v (e ∷ es)
unfolding insert
has_edge-insert ids u v e [] = refl
has_edge-insert ids u v e (x ∷ xs) = ground (arith, has_edge-insert ids u v e xs)

has_edge-sort :
    (ids : List ℕ) (u v : ℕ) (es : List Edge) → has_edge u v (sort ids es) ≡ has_edge u v es
unfolding sort
has_edge-sort ids u v [] = refl
has_edge-sort ids u v (e ∷ es) =
    ground (arith, has_edge-insert ids u v e (sort ids es), has_edge-sort ids u v es)

has_edge-fetched :
    (ids : List ℕ) (u v : ℕ) (rows : List Dependency)
    → has_edge u v (map blocker_edge (fetch_dependency_pairs rows ids))
      ≡ (has_pair u v rows && (mem u ids && mem v ids))
unfolding fetch_dependency_pairs
has_edge-fetched ids u v [] = refl
has_edge-fetched ids u v (r ∷ rows) = ground (arith, has_edge-fetched ids u v rows)

pub has_edge-compute_blocker_edges :
    (rows : List Dependency) (ids : List ℕ) (u v : ℕ)
    → has_edge u v (compute_blocker_edges rows ids)
      ≡ (has_pair u v rows && (mem u ids && mem v ids))
unfolding compute_blocker_edges
has_edge-compute_blocker_edges rows ids u v = ground (
  arith,
  has_edge-sort ids u v (map blocker_edge (fetch_dependency_pairs rows ids)),
  has_edge-fetched ids u v rows,
)

module _ {Entry : Type 0} (paths_overlap : Entry → Entry → Bool) (paths : ℕ → List Entry) where
  has_edge-overlap_row :
      (a u v : ℕ) (later : List ℕ)
      → has_edge u v (overlap_row paths_overlap paths a later)
        ≡ (u == a && (mem v later && items_overlap paths_overlap paths a v))
  unfolding overlap_row
  has_edge-overlap_row a u v [] = ground arith
  has_edge-overlap_row a u v (b ∷ later) = ground (arith, has_edge-overlap_row a u v later)

  pub has_edge-compute_overlap_edges :
      (u v : ℕ) (ids : List ℕ)
      → has_edge u v (compute_overlap_edges paths_overlap paths ids)
        ≡ (precedes u v ids && items_overlap paths_overlap paths u v)
  unfolding compute_overlap_edges
  has_edge-compute_overlap_edges u v [] = refl
  has_edge-compute_overlap_edges u v (a ∷ ids) = ground (
    arith,
    has_edge-append u v (overlap_row paths_overlap paths a ids)
        (compute_overlap_edges paths_overlap paths ids),
    has_edge-overlap_row a u v ids,
    has_edge-compute_overlap_edges u v ids,
  )

merge_from_lem :
    (u v : ℕ) (seen result es : List Edge)
    → has_edge u v seen ≡ has_edge u v result
    → has_edge u v (merge_from seen result es) ≡ (has_edge u v result || has_edge u v es)
unfolding merge_from
merge_from_lem u v seen result [] h = ground arith
merge_from_lem u v seen result (e ∷ es) h =
    let known = has_edge e.from_item_id e.to_item_id seen in
    ground (
      arith,
      has_edge-append u v result (e ∷ []),
      merge_from_lem u v (if known then seen else e ∷ seen)
          (if known then result else result ++ e ∷ []) es,
    )

pub has_edge-merge_edges :
    (a b : List Edge) (u v : ℕ)
    → has_edge u v (merge_edges a b) ≡ (has_edge u v a || has_edge u v b)
unfolding merge_edges
has_edge-merge_edges a b u v =
    ground (arith, merge_from_lem u v [] [] (a ++ b) refl, has_edge-append u v a b)

-- No edge stands twice.
abbrev pub Distinct : List Edge → Type 0
Distinct [] = Unit
Distinct (e ∷ es) = (has_edge e.from_item_id e.to_item_id es ≡ false) × Distinct es

Distinct-snoc :
    (e : Edge) (es : List Edge)
    → Distinct es
    → has_edge e.from_item_id e.to_item_id es ≡ false
    → Distinct (es ++ e ∷ [])
Distinct-snoc e [] d h = (refl, tt)
Distinct-snoc e (x ∷ es) d h = (
  ground (arith, has_edge-append x.from_item_id x.to_item_id es (e ∷ [])),
  Distinct-snoc e es d.1 (ground arith),
)

merge_from-Distinct :
    (seen result es : List Edge)
    → ((u v : ℕ) → has_edge u v seen ≡ has_edge u v result)
    → Distinct result
    → Distinct (merge_from seen result es)
unfolding merge_from
merge_from-Distinct seen result [] h d = d
merge_from-Distinct seen result (e ∷ es) h d =
    elim (Bool-cases (has_edge e.from_item_id e.to_item_id seen)) [
      | inl known ↦ rw known (merge_from-Distinct seen result es h d)
      | inr new ↦ rw new (
          merge_from-Distinct (e ∷ seen) (result ++ e ∷ []) es
            (λ u v. ground (arith, h u v, has_edge-append u v result (e ∷ [])))
            (Distinct-snoc e result d (ground (arith, h e.from_item_id e.to_item_id))))
    ]

pub merge_edges-Distinct : (a b : List Edge) → Distinct (merge_edges a b)
unfolding merge_edges
merge_edges-Distinct a b = merge_from-Distinct [] [] (a ++ b) (λ u v. refl) tt
