-- ===== src/Rollout/Precedence.antt =====
-- The order of the plan: no item is ready or dispatched before its predecessors are terminal.
pub mod Lifecycle
pub mod Unblock
pub mod History
use agent_gtd.Prelude.{
  ℕ, ◌≡◌, refl, ◌==◌, if◌then◌else◌, ◌⊎◌, inl, inr, Bool, true, ◌||◌, Option, none, some, List, map,
}
use agent_gtd.Graph.{Edge}
use agent_gtd.Rollout.Types.{RolloutItemStatus, is_terminal, is_ready, is_dispatched}
use agent_gtd.Rollout.Db.{Db, RolloutItem}
use agent_gtd.Rollout.Graph.{
  terminal_or_missing, Statuses, get_status, load_item_statuses, all_done, predecessors, plan_edges,
}
use agent_gtd.Rollout.Graph.Views.{map?, get_status-map, StaysTerminal, all_done_mono}
use agent_gtd.Rollout.Graph.Progress.{has, view_of}

abbrev pub is_released : RolloutItemStatus → Bool
is_released t = is_ready t || is_dispatched t

abbrev pub OrderedView : List Edge → Statuses → Type 0
OrderedView es m =
    (a : ℕ) → has is_released (get_status m a) ≡ true → all_done m (predecessors es a) ≡ true

pub record IsOrdered (s : Db) : Type 0 where
  pub order : OrderedView (plan_edges s) (view_of s)

pub OrderedView-step :
    (es : List Edge) (m n : Statuses)
    → StaysTerminal m n
    → ((a : ℕ) → has is_released (get_status n a) ≡ true → has is_released (get_status m a) ≡ true)
    → OrderedView es m
    → OrderedView es n
OrderedView-step es m n keep back h a r =
    all_done_mono m n keep (predecessors es a) (h a (back a r))

-- A write that takes no item back from a terminal status and releases none.
pub record IsQuiet (f : RolloutItem → RolloutItem) (g : ℕ → RolloutItemStatus → RolloutItemStatus)
    : Type 0 where
  pub writes :
      (r : RolloutItem) → ((f r).item_id ≡ r.item_id) × ((f r).status ≡ g r.item_id r.status)
  pub keeps : (a : ℕ) (t : RolloutItemStatus) → is_terminal t ≡ true → is_terminal (g a t) ≡ true
  pub releases : (a : ℕ) (t : RolloutItemStatus) → is_released (g a t) ≡ true → is_released t ≡ true

module _ {f : RolloutItem → RolloutItem} {g : ℕ → RolloutItemStatus → RolloutItemStatus}
    (q : IsQuiet f g) where
  keeps? :
      (a : ℕ) (o : Option RolloutItemStatus)
      → terminal_or_missing o ≡ true
      → terminal_or_missing (map? (g a) o) ≡ true
  keeps? a none h = h
  keeps? a (some t) h = q.keeps a t h

  releases? :
      (a : ℕ) (o : Option RolloutItemStatus)
      → has is_released (map? (g a) o) ≡ true
      → has is_released o ≡ true
  releases? a none h = h
  releases? a (some t) h = q.releases a t h

  pub OrderedView-map :
      (es : List Edge) (rows : List RolloutItem)
      → OrderedView es (load_item_statuses rows)
      → OrderedView es (load_item_statuses (map f rows))
  OrderedView-map es rows =
      let read = get_status-map f g q.writes rows in
      OrderedView-step es (load_item_statuses rows) (load_item_statuses (map f rows))
        (λ a h. rw (read a) (keeps? a (get_status (load_item_statuses rows) a) h))
        (λ a h. releases? a (get_status (load_item_statuses rows) a) (rw (read a) at h))

-- The rows are left alone, or written by `f`; the plan is left alone.
pub record WritesRows (f : RolloutItem → RolloutItem) (s t : Db) : Type 0 where
  pub rows : (t.rows ≡ s.rows) ⊎ (t.rows ≡ map f s.rows)
  pub plan : t.plan ≡ s.plan

pub WritesRows-IsOrdered :
    {f : RolloutItem → RolloutItem} {g : ℕ → RolloutItemStatus → RolloutItemStatus}
    (q : IsQuiet f g) (s t : Db)
    → WritesRows f s t
    → IsOrdered s
    → IsOrdered t
WritesRows-IsOrdered q s t w o = elim w.rows [
  | inl same ↦ record { order = rw (same, w.plan) o.order }
  | inr new ↦ record { order = rw (new, w.plan) (OrderedView-map q (plan_edges s) s.rows o.order) }
]

-- The write of one item's row.
abbrev pub at_item : ℕ → (RolloutItem → RolloutItem) → RolloutItem → RolloutItem
at_item a f r = if r.item_id == a then f r else r

pub unchanged-IsQuiet : IsQuiet (λ r. r) (λ a t. t)
unchanged-IsQuiet = record { writes = λ r. (refl, refl); keeps = λ a t h. h; releases = λ a t h. h }
