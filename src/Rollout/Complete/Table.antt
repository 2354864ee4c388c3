-- ===== src/Rollout/Complete/Table.antt =====
-- The view of the statuses and the table of the items move together: on the write of an outcome,
-- and through `_unblock_successors`.
use agent_gtd.Prelude.{
  ℕ, ◌≡◌, refl, Bool, true, false, Option, List, [], ◌∷◌, ◌++◌, arith, map, ◌==◌, if◌then◌else◌,
}
use agent_gtd.Prelude.Members.{mem, Nodup}
use agent_gtd.Rollout.Types.{RolloutItemStatus, RolloutItemOutcome, MergeActor, outcome_status}
use agent_gtd.Rollout.Db.{RolloutItem}
use agent_gtd.Rollout.Graph.{
  Statuses, load_item_statuses, get_status, set_status, make_ready, is_pending?, unblock_each,
}
use agent_gtd.Rollout.Graph.Unblock.{unblocked}
use agent_gtd.Rollout.Graph.Progress.{keys}
use agent_gtd.Rollout.Complete.{write_outcome}

set_status-absent :
    (rows : List RolloutItem) (a : ℕ)
    → mem a (keys (load_item_statuses rows)) ≡ false
    → (set_status (load_item_statuses rows) a RolloutItemStatus.ready ≡ load_item_statuses rows)
      × (map (make_ready a) rows ≡ rows)
set_status-absent [] a h = (refl, refl)
set_status-absent (r ∷ rows) a h = ground (arith, set_status-absent rows a)

set_status-make_ready :
    (rows : List RolloutItem) (a : ℕ)
    → Nodup (keys (load_item_statuses rows))
    → is_pending? (get_status (load_item_statuses rows) a) ≡ true
    → set_status (load_item_statuses rows) a RolloutItemStatus.ready
      ≡ load_item_statuses (map (make_ready a) rows)
set_status-make_ready [] a d h = refl
set_status-make_ready (r ∷ rows) a d h =
    ground (arith, set_status-make_ready rows a, set_status-absent rows a)

keys-make_ready :
    (rows : List RolloutItem) (a : ℕ)
    → keys (load_item_statuses (map (make_ready a) rows)) ≡ keys (load_item_statuses rows)
keys-make_ready [] a = refl
keys-make_ready (r ∷ rows) a = ground (arith, keys-make_ready rows a)

pub set_status-write_outcome :
    (now i : ℕ) (o : RolloutItemOutcome) (actor : Option MergeActor) (rows : List RolloutItem)
    → load_item_statuses (map (λ r. if r.item_id == i then write_outcome now o actor r else r) rows)
      ≡ set_status (load_item_statuses rows) i (outcome_status o)
set_status-write_outcome now i o actor [] = refl
set_status-write_outcome now i o actor (r ∷ rows) =
    ground (arith, set_status-write_outcome now i o actor rows)

pub set_status-again :
    (m : Statuses) (i : ℕ) (t : RolloutItemStatus)
    → set_status (set_status m i t) i t ≡ set_status m i t
set_status-again [] i t = refl
set_status-again (x ∷ m) i t = ground (arith, set_status-again m i t)

pub keys-set_status :
    (m : Statuses) (i : ℕ) (t : RolloutItemStatus) → keys (set_status m i t) ≡ keys m
keys-set_status [] i t = refl
keys-set_status (x ∷ m) i t = ground (arith, keys-set_status m i t)

module _ (a : ℕ) (rows : List RolloutItem) (view : Statuses) (same : view ≡ load_item_statuses rows)
    (distinct : Nodup (keys (load_item_statuses rows))) where
  view-step :
      (go : Bool)
      → (go ≡ true → is_pending? (get_status view a) ≡ true)
      → (if go then set_status view a RolloutItemStatus.ready else view)
        ≡ load_item_statuses (if go then map (make_ready a) rows else rows)
  view-step true h = rw same (set_status-make_ready rows a distinct (rw same at h refl))
  view-step false h = same

  keys-step :
      (go : Bool) → Nodup (keys (load_item_statuses (if go then map (make_ready a) rows else rows)))
  keys-step true = rw (keys-make_ready rows a) distinct
  keys-step false = distinct

-- On distinct items the view that `_unblock_successors` returns is the table.
pub unblock_each-rows :
    (preds : ℕ → List ℕ) (as' : List ℕ) (rows : List RolloutItem) (view : Statuses) (newly : List ℕ)
    → view ≡ load_item_statuses rows
    → Nodup (keys (load_item_statuses rows))
    → (unblock_each preds as' rows view newly).1
      ≡ load_item_statuses (unblock_each preds as' rows view newly).0
unfolding unblock_each
unblock_each-rows preds [] rows view newly same d = same
unblock_each-rows preds (a ∷ as') rows view newly same d =
    let go = unblocked preds view a in
    unblock_each-rows preds as' (if go then map (make_ready a) rows else rows)
      (if go then set_status view a RolloutItemStatus.ready else view)
      (if go then newly ++ a ∷ [] else newly) (view-step a rows view same d go (λ h. ground arith))
      (keys-step a rows view same d go)
