-- ===== src/Rollout/Resume/Restore.antt =====
-- Which items a resumption restores, and to what.
use agent_gtd.Prelude.{
  ℕ, ◌≡◌, refl, arith, Bool, not, ◌&&◌, Option, none, some, List, [], ◌∷◌, if◌then◌else◌,
}
use agent_gtd.Prelude.Members.{mem, Nodup}
use agent_gtd.Rollout.Types.{RolloutItemStatus, is_terminal, is_halted}
use agent_gtd.Rollout.Db.{RolloutItem}
use agent_gtd.Rollout.Graph.{Statuses, load_item_statuses, get_status, all_done}
use agent_gtd.Rollout.Graph.Progress.{keys, has, get_status-absent}
use agent_gtd.Rollout.Resume.{Restored, restore, set_each, non_terminal}

module _ (kept : ℕ → Bool) (preds : ℕ → List ℕ) (view : Statuses) where
  -- Where a halted item goes.
  abbrev pub destination : ℕ → RolloutItemStatus
  destination a =
      if kept a
      then RolloutItemStatus.dispatched
      else if all_done view (preds a)
      then RolloutItemStatus.ready
      else RolloutItemStatus.pending

  abbrev lists : Statuses → Restored
  lists m = restore kept preds view m

  pub mem-newly_dispatched :
      (m : Statuses) (a : ℕ)
      → Nodup (keys m)
      → mem a (lists m).newly_dispatched ≡ (has is_halted (get_status m a) && kept a)
  unfolding restore
  mem-newly_dispatched [] a d = refl
  mem-newly_dispatched ((b, t) ∷ m) a d =
      ground (arith, mem-newly_dispatched m a d.1, get_status-absent m b d.0)

  pub mem-newly_ready :
      (m : Statuses) (a : ℕ)
      → Nodup (keys m)
      → mem a (lists m).newly_ready
        ≡ (has is_halted (get_status m a) && (not (kept a) && all_done view (preds a)))
  unfolding restore
  mem-newly_ready [] a d = refl
  mem-newly_ready ((b, t) ∷ m) a d =
      ground (arith, mem-newly_ready m a d.1, get_status-absent m b d.0)

  pub mem-newly_pending :
      (m : Statuses) (a : ℕ)
      → Nodup (keys m)
      → mem a (lists m).newly_pending
        ≡ (has is_halted (get_status m a) && (not (kept a) && not (all_done view (preds a))))
  unfolding restore
  mem-newly_pending [] a d = refl
  mem-newly_pending ((b, t) ∷ m) a d =
      ground (arith, mem-newly_pending m a d.1, get_status-absent m b d.0)

pub mem-non_terminal :
    (m : Statuses) (a : ℕ)
    → Nodup (keys m)
    → mem a (non_terminal m) ≡ has (λ t. not (is_terminal t)) (get_status m a)
unfolding non_terminal
mem-non_terminal [] a d = refl
mem-non_terminal ((b, t) ∷ m) a d =
    ground (arith, mem-non_terminal m a d.1, get_status-absent m b d.0)

abbrev pub overwrite :
    Bool → RolloutItemStatus → Option RolloutItemStatus → Option RolloutItemStatus
overwrite b t none = none
overwrite b t (some u) = some (if b then t else u)

pub get_status-set_each :
    (t : RolloutItemStatus) (ids : List ℕ) (rows : List RolloutItem) (a : ℕ)
    → get_status (load_item_statuses (set_each t ids rows)) a
      ≡ overwrite (mem a ids) t (get_status (load_item_statuses rows) a)
get_status-set_each t ids [] a = refl
get_status-set_each t ids (r ∷ rows) a = ground (arith, get_status-set_each t ids rows a)
