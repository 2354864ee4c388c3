-- ===== src/Rollout/Graph/Views.antt =====
-- Statuses of the items of a rollout, as the executor reads them.
use agent_gtd.Prelude.{
  ℕ, ◌≡◌, refl, true, ◌&&◌, Option, none, some, List, [], ◌∷◌, arith, map, ◌==◌, if◌then◌else◌,
}
use agent_gtd.Rollout.Types.{RolloutItemStatus}
use agent_gtd.Rollout.Db.{RolloutItem}
use agent_gtd.Rollout.Graph.{
  Statuses, load_item_statuses, get_status, set_status, terminal_or_missing, all_done, is_pending?,
  make_ready,
}

abbrev pub map? :
    (RolloutItemStatus → RolloutItemStatus) → Option RolloutItemStatus → Option RolloutItemStatus
map? g none = none
map? g (some t) = some (g t)

-- A write that keeps the ids and changes each status by `g` changes every status read by `g`.
pub get_status-map :
    (f : RolloutItem → RolloutItem) (g : ℕ → RolloutItemStatus → RolloutItemStatus)
    → ((r : RolloutItem) → ((f r).item_id ≡ r.item_id) × ((f r).status ≡ g r.item_id r.status))
    → (rows : List RolloutItem) (a : ℕ)
    → get_status (load_item_statuses (map f rows)) a
      ≡ map? (g a) (get_status (load_item_statuses rows) a)
get_status-map f g h [] a = refl
get_status-map f g h (r ∷ rows) a = ground (arith, h r, get_status-map f g h rows a)

pub get_status-set_status :
    (m : Statuses) (a b : ℕ) (t : RolloutItemStatus)
    → get_status (set_status m a t) b
      ≡ (if a == b then map? (λ _. t) (get_status m b) else get_status m b)
get_status-set_status [] a b t = ground arith
get_status-set_status ((c, u) ∷ m) a b t = ground (arith, get_status-set_status m a b t)

pub get_status-make_ready :
    (rows : List RolloutItem) (a b : ℕ)
    → get_status (load_item_statuses (map (make_ready a) rows)) b ≡ (
        if a == b && is_pending? (get_status (load_item_statuses rows) b)
        then some RolloutItemStatus.ready
        else get_status (load_item_statuses rows) b)
get_status-make_ready [] a b = ground arith
get_status-make_ready (r ∷ rows) a b = ground (arith, get_status-make_ready rows a b)

-- What is terminal in one view is terminal in the other.
abbrev pub StaysTerminal : Statuses → Statuses → Type 0
StaysTerminal m n =
    (p : ℕ)
    → terminal_or_missing (get_status m p) ≡ true
    → terminal_or_missing (get_status n p) ≡ true

pub all_done_mono :
    (m n : Statuses)
    → StaysTerminal m n
    → (ps : List ℕ) → all_done m ps ≡ true
    → all_done n ps ≡ true
all_done_mono m n h [] d = refl
all_done_mono m n h (p ∷ ps) d = ground (arith, h p, all_done_mono m n h ps)

-- Making a pending item ready changes no such test.
pub all_done-set_ready :
    (m : Statuses) (a : ℕ) (ps : List ℕ)
    → is_pending? (get_status m a) ≡ true
    → all_done (set_status m a RolloutItemStatus.ready) ps ≡ all_done m ps
all_done-set_ready m a [] h = refl
all_done-set_ready m a (p ∷ ps) h =
    ground (arith, get_status-set_status m a p RolloutItemStatus.ready, all_done-set_ready m a ps)

pub all_done_cong :
    (m n : Statuses)
    → ((p : ℕ) → get_status m p ≡ get_status n p)
    → (ps : List ℕ) → all_done m ps ≡ all_done n ps
all_done_cong m n h [] = refl
all_done_cong m n h (p ∷ ps) = ground (arith, h p, all_done_cong m n h ps)
