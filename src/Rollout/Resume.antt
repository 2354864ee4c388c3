-- ===== src/Rollout/Resume.antt =====
-- `_resume_halted_rollout` and `_post_resume_answer` of rollout_service.py: the part of
-- `resume_rollout` that takes a halted rollout back to running.
pub mod Restore
pub mod Resumed
use agent_gtd.Prelude.{
  ℕ, Bool, true, false, not, ◌&&◌, ◌||◌, Option, none, some, List, [], ◌∷◌, ◌++◌, map, ◌==◌,
  if◌then◌else◌, filter,
}
use agent_gtd.Prelude.Members.{mem}
use agent_gtd.Text.{Text}
use agent_gtd.Rollout.Types.{
  RolloutStatus, RolloutItemStatus, LocalRunStatus, DispatchMode, RolloutEventKind,
  RolloutEventActor, is_terminal, is_halted, is_active_run, is_success,
}
use agent_gtd.Rollout.Db.{Db, Call, Run, RolloutItem, Payload, execute, fetch, ◌>>=◌, ◌>>◌}
use agent_gtd.Rollout.Events.{append_rollout_event}
use agent_gtd.Rollout.Access.{create_project_comment}
use agent_gtd.Rollout.Locks.{held_by, lock_items_for_rollout}
use agent_gtd.Rollout.Graph.{Statuses, load_item_statuses, predecessors, plan_edges, all_done}

unfoldable pub post_resume_answer : ℕ → ℕ → ℕ → Text → Call (Unit {0})
post_resume_answer comment_id project_id user_id answer = do
  create_project_comment comment_id user_id project_id answer
  append_rollout_event RolloutEventKind.comment_posted RolloutEventActor.human
      (Payload.comment_of comment_id) []

abbrev pub is_build : DispatchMode → Bool
is_build DispatchMode.build = true
is_build _ = false

-- The newest of the build runs of the item in the rollout; the table has the oldest first.
abbrev pub latest_build : ℕ → ℕ → List Run → Option LocalRunStatus
latest_build rollout_id item_id [] = none
latest_build rollout_id item_id (r ∷ rs) =
    let rest = latest_build rollout_id item_id rs in
    elim rest [
      | some t ↦ some t
      | none ↦
          if held_by r.rollout_id rollout_id && held_by r.item_id item_id && is_build r.mode
          then some (r.status)
          else none
    ]

-- There is such a run, and it succeeded or is in flight.
abbrev pub is_kept : Option LocalRunStatus → Bool
is_kept none = false
is_kept (some t) = is_success t || is_active_run t

pub record Restored : Type 0 where
  pub newly_ready : List ℕ
  pub newly_pending : List ℕ
  pub newly_dispatched : List ℕ

-- The loop over the items, with what it appends to the three lists.
unfoldable pub restore : (ℕ → Bool) → (ℕ → List ℕ) → Statuses → Statuses → Restored
restore kept preds view [] = record { newly_ready = []; newly_pending = []; newly_dispatched = [] }
restore kept preds view ((a, t) ∷ m) =
    let rest = restore kept preds view m in
    if not (is_halted t)
    then rest
    else if kept a
    then record rest { newly_dispatched = a ∷ rest.newly_dispatched }
    else if all_done view (preds a)
    then record rest { newly_ready = a ∷ rest.newly_ready }
    else record rest { newly_pending = a ∷ rest.newly_pending }

-- `for item_id in ids: UPDATE rollout_items SET status = ...`
abbrev pub set_each : RolloutItemStatus → List ℕ → List RolloutItem → List RolloutItem
set_each status ids rows =
    map (λ r. if mem r.item_id ids then record r { status = status } else r) rows

unfoldable pub non_terminal : Statuses → List ℕ
non_terminal [] = []
non_terminal ((a, t) ∷ m) = let rest = non_terminal m in if is_terminal t then rest else a ∷ rest

abbrev pub restored_of : ℕ → Db → Restored
restored_of rollout_id s =
    restore (λ a. is_kept (latest_build rollout_id a s.runs)) (predecessors (plan_edges s))
      (load_item_statuses s.rows) (load_item_statuses s.rows)

-- The three loops of updates.
abbrev pub write_restored : Restored → Db → Db
write_restored out s = record s {
  rows = set_each RolloutItemStatus.pending out.newly_pending (
      set_each RolloutItemStatus.ready out.newly_ready
        (set_each RolloutItemStatus.dispatched out.newly_dispatched s.rows));
}

abbrev pub reopen : ℕ → Db → Db
reopen now s = record s {
  wave = record (s.wave) {
    status = RolloutStatus.running;
    halt_reason = none;
    ended_at = none;
    updated_at = now;
  };
}

unfoldable pub resume_halted_rollout : ℕ → ℕ → ℕ → ℕ → ℕ → Text → Call (Unit {0})
resume_halted_rollout now comment_id rollout_id project_id user_id answer = do
  post_resume_answer comment_id project_id user_id answer
  out ← fetch (restored_of rollout_id)
  non_terminal_items ← fetch (λ s. non_terminal (load_item_statuses s.rows))
  execute (write_restored out)
  lock_items_for_rollout rollout_id non_terminal_items
  execute (reopen now)
  append_rollout_event RolloutEventKind.wave_resumed RolloutEventActor.human
      (Payload.resumed_of out.newly_ready out.newly_pending out.newly_dispatched) []
