-- ===== src/Graph.antt =====
-- Directed graphs of items, as the plan of a rollout and the blocker table hold them: a list of
-- edges, each from the item that must be finished first.
pub mod Topo
pub mod Source
use agent_gtd.Prelude.{ℕ, ◌≡◌, Bool, true, false, ◌&&◌, ◌||◌, List, [], ◌∷◌, ◌==◌}

-- `{"from_item_id": ..., "to_item_id": ...}`
pub record Edge : Type 0 where
  pub from_item_id : ℕ
  pub to_item_id : ℕ

abbrev pub has_edge : ℕ → ℕ → List Edge → Bool
has_edge u v [] = false
has_edge u v (e ∷ es) = (u == e.from_item_id && v == e.to_item_id) || has_edge u v es

-- A path of one edge or more.
pub data Reaches (es : List Edge) : ℕ → ℕ → Type 0 where
  edge : {u v : ℕ} → has_edge u v es ≡ true → Reaches es u v
  via : {u v w : ℕ} → Reaches es u v → has_edge v w es ≡ true → Reaches es u w

abbrev pub Acyclic : List Edge → Type 0
Acyclic es = (v : ℕ) → ¬ (Reaches es v v)

pub Reaches-trans : {es : List Edge} {u v w : ℕ} → Reaches es u v → Reaches es v w → Reaches es u w
Reaches-trans p (edge h) = via p h
Reaches-trans p (via q h) = via (Reaches-trans p q) h
