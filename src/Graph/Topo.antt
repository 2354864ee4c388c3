-- ===== src/Graph/Topo.antt =====
-- A list in which every vertex stands after all its predecessors shows that no cycle meets it.
use agent_gtd.Prelude.{ℕ, ◌≡◌, inl, inr, true, false, List, [], ◌∷◌, arith, Bool-cases}
use agent_gtd.Prelude.Members.{mem}
use agent_gtd.Graph.{Edge, has_edge, Reaches, edge, via}

-- The newest vertex is the head; its predecessors all stand behind it.
abbrev pub Topo : List Edge → List ℕ → Type 0
Topo es [] = Unit
Topo es (v ∷ vs) =
    (mem v vs ≡ false) × ((u : ℕ) → has_edge u v es ≡ true → mem u vs ≡ true) × (Topo es vs)

mem-pred :
    (es : List Edge) (u v : ℕ) (vs : List ℕ)
    → Topo es vs
    → mem v vs ≡ true
    → has_edge u v es ≡ true
    → mem u vs ≡ true
mem-pred es u v [] t m h = ground arith
mem-pred es u v (x ∷ vs) t m h = ground (arith, t.1 u, mem-pred es u v vs t.2)

mem-Reaches :
    (es : List Edge) (vs : List ℕ) (u v : ℕ)
    → Topo es vs
    → Reaches es u v
    → mem v vs ≡ true
    → mem u vs ≡ true
mem-Reaches es vs u v t (edge h) m = mem-pred es u v vs t m h
mem-Reaches es vs u v t (via {v = x} p h) m = mem-Reaches es vs u x t p (mem-pred es x v vs t m h)

-- Whatever reaches the head stands behind it.
mem_before :
    (es : List Edge) (vs : List ℕ) (x u v : ℕ)
    → Topo es (x ∷ vs)
    → Reaches es u v
    → v ≡ x
    → mem u vs ≡ true
mem_before es vs x u v t (edge h) e = t.1 u (rw (← e) h)
mem_before es vs x u v t (via {v = w} p h) e = mem-Reaches es vs u w t.2 p (t.1 w (rw (← e) h))

-- No vertex of such a list lies on a cycle.
pub Topo-no_cycle :
    (es : List Edge) (vs : List ℕ) (v : ℕ) → Topo es vs → mem v vs ≡ true → ¬ (Reaches es v v)
Topo-no_cycle es [] v t m r = ground arith
Topo-no_cycle es (x ∷ vs) v t m r = elim (Bool-cases (mem v vs)) [
  | inl old ↦ Topo-no_cycle es vs v t.2 old r
  | inr new ↦ ground (arith, mem_before es vs x v v t r)
]
