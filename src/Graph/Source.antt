-- ===== src/Graph/Source.antt =====
-- In an acyclic graph every non-empty finite set of vertices has one with no predecessor in the set.
use agent_gtd.Prelude.{
  ℕ, zero, suc, ◌+◌, ◌<◌, ◌≡◌, inl, inr, true, List, [], ◌∷◌, arith, ◌==◌, length, Bool-cases,
}
use agent_gtd.Prelude.Members.{mem, Nodup, Subset, length-le_of_Subset}
use agent_gtd.Graph.{Edge, has_edge, Reaches, edge, Reaches-trans, Acyclic}

module _ (es : List Edge) (acyclic : Acyclic es) (vs : List ℕ)
    (pred : (v : ℕ)
      → mem v vs ≡ true
      → (u : ℕ) × (has_edge u v es ≡ true) × (mem u vs ≡ true)) where
  -- A walk back from `v` that has come through `seen` never meets itself, so it is short.
  walk :
      (n v : ℕ) (seen : List ℕ)
      → Nodup (v ∷ seen)
      → Subset (v ∷ seen) vs
      → ((w : ℕ) → mem w seen ≡ true → Reaches es v w)
      → length vs < n + length (v ∷ seen)
      → ⊥
  walk zero v seen d s r l = omega (arith, length-le_of_Subset (v ∷ seen) vs d s)
  walk (suc n) v seen d s r l =
      let (u, e, m) = pred v (s v (ground arith)) in
      elim (Bool-cases (u == v)) [
        | inl same ↦ acyclic v (edge (ground arith))
        | inr other ↦ elim (Bool-cases (mem u seen)) [
          | inl old ↦ acyclic u (Reaches-trans (edge e) (r u old))
          | inr new ↦
              walk n u (v ∷ seen) (ground arith, d) (λ a h. ground (arith, s a))
                (λ w h. elim (Bool-cases (w == v)) [
                  | inl here ↦ edge (ground arith)
                  | inr further ↦ Reaches-trans (edge e) (r w (ground arith))
                ])
                (omega arith)
        ]
      ]

  pub pred-absurd : (v : ℕ) → mem v vs ≡ true → ⊥
  pred-absurd v m =
      walk (length vs) v [] (ground arith) (λ a h. ground arith) (λ w h. ground arith) (omega arith)
