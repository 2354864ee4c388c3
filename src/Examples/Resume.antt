-- ===== src/Examples/Resume.antt =====
-- The rollout of Examples/Data, halted before anything was built, and resumed: the second item is
-- made ready although the first, which comes before it, is only ready.
use agent_gtd.Prelude.{ℕ, ◌≡◌, refl, not, ◌&&◌, none, some, [], ◌∷◌, if◌then◌else◌}
use agent_gtd.Text.{text}
use agent_gtd.Exceptions.{ok}
use agent_gtd.Rollout.Types.{RolloutStatus, RolloutItemStatus, is_terminal}
use agent_gtd.Rollout.Db.{Db}
use agent_gtd.Rollout.Events.{append_rollout_event}
use agent_gtd.Rollout.Access.{create_project_comment, verify_project_access, add_comment}
use agent_gtd.Rollout.Locks.{lock_of, lock_all, lock_items_for_rollout, item_exists}
use agent_gtd.Rollout.Graph.{get_status, predecessors}
use agent_gtd.Rollout.Graph.Progress.{has, view_of}
use agent_gtd.Rollout.Resume.{post_resume_answer, restore, non_terminal, resume_halted_rollout}
use agent_gtd.Rollout.Resume.Resumed.{resumed, resume_halted_rollout_resumes}
use agent_gtd.Examples.Data.{ready_db, row, wave}

abbrev halted_db : Db
halted_db = record ready_db {
  wave = record wave { status = RolloutStatus.halted };
  rows = row 1 RolloutItemStatus.halted ∷ row 2 RolloutItemStatus.halted ∷ [];
  runs = [];
}

abbrev after : Db
after = (resume_halted_rollout 110 31 7 1 5 (text "go on") halted_db).1

resume_run : (resume_halted_rollout 110 31 7 1 5 (text "go on") halted_db).0 ≡ ok tt
unfolding resume_halted_rollout post_resume_answer create_project_comment verify_project_access
    add_comment append_rollout_event restore non_terminal lock_items_for_rollout lock_all
    predecessors
resume_run = refl

both_ready :
    (get_status (view_of after) 1 ≡ some RolloutItemStatus.ready)
    × (get_status (view_of after) 2 ≡ some RolloutItemStatus.ready)
    × (lock_of 1 after.items ≡ none)
unfolding resume_halted_rollout post_resume_answer create_project_comment verify_project_access
    add_comment append_rollout_event restore non_terminal lock_items_for_rollout lock_all
    predecessors
both_ready = (refl, refl, refl)

resume_halted_rollout_resumes_example :
    ((a : ℕ)
      → get_status (view_of after) a ≡ resumed 7 halted_db a (get_status (view_of halted_db) a))
    × ((a : ℕ)
        → lock_of a after.items ≡ (
            if has (λ t. not (is_terminal t)) (get_status (view_of halted_db) a)
              && item_exists a halted_db.items
            then some 7
            else lock_of a halted_db.items))
    × (after.wave.status ≡ RolloutStatus.running)
    × (after.wave.halt_reason ≡ none)
    × (after.wave.ended_at ≡ none)
resume_halted_rollout_resumes_example =
    resume_halted_rollout_resumes 110 31 7 1 5 (text "go on") halted_db resume_run
      (refl, (refl, tt))
