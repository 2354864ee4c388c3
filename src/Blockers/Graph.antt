-- ===== src/Blockers/Graph.antt =====
-- The blockers that users record never form a cycle.
use agent_gtd.Prelude.{
  ℕ, ◌≡◌, ◌≢◌, ◌⊎◌, ◌↔◌, inl, inr, arith, Bool, true, ◌&&◌, ◌||◌, List, [], ◌∷◌, ◌++◌, map, ◌==◌,
  filter, Bool-cases,
}
use agent_gtd.Graph.{Edge, has_edge, Reaches, edge, via, Reaches-trans, Acyclic}
use agent_gtd.Dag.{Dependency, blocker_edge}
use agent_gtd.Blockers.{would_create_cycle, found_cycle, dependency}
use agent_gtd.Blockers.Search.{would_create_cycle_iff}

abbrev pub edges_of : List Dependency → List Edge
edges_of rows = map blocker_edge rows

has_edge-added :
    (rows : List Dependency) (i k u v : ℕ)
    → has_edge u v (edges_of (rows ++ dependency i k ∷ []))
      ≡ (has_edge u v (edges_of rows) || (u == k && v == i))
has_edge-added [] i k u v = ground arith
has_edge-added (r ∷ rows) i k u v = ground (arith, has_edge-added rows i k u v)

pub has_edge-removed :
    (rows : List Dependency) (p : Dependency → Bool) (u v : ℕ)
    → has_edge u v (edges_of (filter p rows)) ≡ true
    → has_edge u v (edges_of rows) ≡ true
has_edge-removed [] p u v h = h
has_edge-removed (r ∷ rows) p u v h = ground (arith, has_edge-removed rows p u v)

-- Fewer edges, fewer paths.
pub Reaches-mono :
    (es fs : List Edge)
    → ((u v : ℕ) → has_edge u v es ≡ true → has_edge u v fs ≡ true)
    → {u v : ℕ} → Reaches es u v
    → Reaches fs u v
Reaches-mono es fs h (edge e) = edge (h _ _ e)
Reaches-mono es fs h (via p e) = via (Reaches-mono es fs h p) (h _ _ e)

module _ (rows : List Dependency) (i k : ℕ) where
  -- In no step or more.
  abbrev Upto : ℕ → ℕ → Type 0
  Upto u v = (u ≡ v) ⊎ Reaches (edges_of rows) u v

  Upto-trans : (u v w : ℕ) → Upto u v → Upto v w → Upto u w
  Upto-trans u v w (inl e) q = rw e q
  Upto-trans u v w (inr p) (inl e) = rw (← e) (inr p)
  Upto-trans u v w (inr p) (inr q) = inr (Reaches-trans p q)

  abbrev Detour : ℕ → ℕ → Type 0
  Detour u w = Reaches (edges_of rows) u w ⊎ (Upto u k × Upto i w)

  -- A path through the graph with the new edge goes without it, or to its start and from its end.
  new_step : (u w : ℕ) → has_edge u w (edges_of (rows ++ dependency i k ∷ [])) ≡ true → Detour u w
  new_step u w h = elim (Bool-cases (has_edge u w (edges_of rows))) [
    | inl old ↦ inl (edge old)
    | inr new ↦
        let at : (u == k && w == i) ≡ true = ground (arith, has_edge-added rows i k u w) in
        inr (inl (ground arith), inl (ground arith))
  ]

  join_detours : (u v w : ℕ) → Detour u v → Detour v w → Detour u w
  join_detours u v w (inl p) (inl q) = inl (Reaches-trans p q)
  join_detours u v w (inl p) (inr (x, y)) = inr (Upto-trans u v k (inr p) x, y)
  join_detours u v w (inr (x, y)) (inl q) = inr (x, Upto-trans i v w y (inr q))
  join_detours u v w (inr (x, y)) (inr (x', y')) = inr (x, y')

  detour : {u w : ℕ} → Reaches (edges_of (rows ++ dependency i k ∷ [])) u w → Detour u w
  detour (edge h) = new_step _ _ h
  detour (via {u = u} {v = v} {w = w} p h) = join_detours u v w (detour p) (new_step v w h)

  pub Acyclic-added :
      Acyclic (edges_of rows)
      → ¬ (Reaches (edges_of rows) i k)
      → i ≢ k
      → Acyclic (edges_of (rows ++ dependency i k ∷ []))
  Acyclic-added ac apart ne v r = elim (detour r) [
    | inl p ↦ ac v p
    | inr (x, y) ↦ elim (Upto-trans i v k y x) [ inl e ↦ ne e | inr p ↦ apart p ]
  ]

  pub found_cycle_iff :
      (found_cycle (would_create_cycle rows i k) ≡ true) ↔ Reaches (edges_of rows) i k
  found_cycle_iff =
      let (b, e, q) = would_create_cycle_iff rows i k in (λ h. q.0 (rw e at h), λ p. rw e (q.1 p))
