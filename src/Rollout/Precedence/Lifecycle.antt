-- ===== src/Rollout/Precedence/Lifecycle.antt =====
-- The operations of `Rollout.Lifecycle` keep the order of the plan.
use agent_gtd.Prelude.{ℕ, Option, arith, ◌==◌, if◌then◌else◌}
use agent_gtd.Text.{Text}
use agent_gtd.Rollout.Types.{
  RolloutItemStatus, RolloutEventActor, ManagerPhase, is_finished, is_terminal, is_dispatched,
  is_ready,
}
use agent_gtd.Rollout.Events.{append_rollout_event}
use agent_gtd.Rollout.Db.{get_rollout, Db, Payload}
use agent_gtd.Rollout.Locks.{release_rollout_locks}
use agent_gtd.Rollout.Access.{
  get_item, add_comment, verify_project_access, create_project_comment, create_item_comment,
}
use agent_gtd.Rollout.Lifecycle.{
  start_rollout, update_rollout_state, reset_found, reset_rollout_item, cancel_rollout,
  halt_rollout, link_build_run, skip_unfinished, halt_open, make_reset, link_run, stop_rollout,
}
use agent_gtd.Rollout.Precedence.{IsQuiet, WritesRows, at_item}

pub skip_unfinished-IsQuiet :
    IsQuiet skip_unfinished (λ a t. if is_finished t then t else RolloutItemStatus.skipped)
skip_unfinished-IsQuiet = record {
  writes = λ r. ground arith;
  keeps = λ a t h. ground arith;
  releases = λ a t h. ground arith;
}

pub halt_open-IsQuiet :
    IsQuiet halt_open (λ a t. if is_terminal t then t else RolloutItemStatus.halted)
halt_open-IsQuiet = record {
  writes = λ r. ground arith;
  keeps = λ a t h. ground arith;
  releases = λ a t h. ground arith;
}

pub reset-IsQuiet :
    (i : ℕ)
    → IsQuiet
        (at_item i make_reset)
        (λ a t. if a == i then (if is_dispatched t then RolloutItemStatus.ready else t) else t)
reset-IsQuiet i = record {
  writes = λ r. ground arith;
  keeps = λ a t h. ground arith;
  releases = λ a t h. ground arith;
}

pub link-IsQuiet :
    (i run : ℕ)
    → IsQuiet
        (at_item i (link_run run))
        (λ a t. if a == i then (if is_ready t then RolloutItemStatus.dispatched else t) else t)
link-IsQuiet i run = record {
  writes = λ r. ground arith;
  keeps = λ a t h. ground arith;
  releases = λ a t h. ground arith;
}

module _ (now user rid : ℕ) (s : Db) where
  pub start_rollout-WritesRows :
      (actor : RolloutEventActor) (details : Payload)
      → WritesRows (λ r. r) s (start_rollout now user rid actor details s).1
  unfolding start_rollout get_rollout append_rollout_event
  start_rollout-WritesRows actor details = ground arith

  pub update_rollout_state-WritesRows :
      (phase : ManagerPhase) (item : Option ℕ) (step : Option Text)
      → WritesRows (λ r. r) s (update_rollout_state now user rid phase item step s).1
  unfolding update_rollout_state get_rollout append_rollout_event
  update_rollout_state-WritesRows phase item step = ground arith

  pub reset_rollout_item-WritesRows :
      (i : ℕ) → WritesRows (at_item i make_reset) s (reset_rollout_item user rid i s).1
  unfolding reset_rollout_item reset_found get_rollout append_rollout_event
  reset_rollout_item-WritesRows i = ground arith

  pub cancel_rollout-WritesRows :
      (reason : Text) → WritesRows skip_unfinished s (cancel_rollout now user rid reason s).1
  unfolding cancel_rollout get_rollout append_rollout_event release_rollout_locks
  cancel_rollout-WritesRows reason = ground arith

  pub halt_rollout-WritesRows :
      (comment_id item_comment_id : ℕ) (reason : Text) (comment : Option Text) (item : Option ℕ)
      → WritesRows halt_open s
          (halt_rollout now comment_id item_comment_id user rid reason comment item s).1
  unfolding halt_rollout stop_rollout get_rollout append_rollout_event release_rollout_locks
      create_project_comment verify_project_access create_item_comment get_item add_comment
  halt_rollout-WritesRows comment_id item_comment_id reason comment item = ground arith

pub link_build_run-WritesRows :
    (run i : ℕ) (s : Db) → WritesRows (at_item i (link_run run)) s (link_build_run run i s).1
unfolding link_build_run append_rollout_event
link_build_run-WritesRows run i s = ground arith
