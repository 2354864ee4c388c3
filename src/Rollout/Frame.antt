-- ===== src/Rollout/Frame.antt =====
-- What the calls on shared tables leave alone of the rollout itself.
use agent_gtd.Prelude.{ℕ, ◌≡◌, refl, arith}
use agent_gtd.Text.{Text}
use agent_gtd.Rollout.Db.{Db}
use agent_gtd.Rollout.Locks.{release_rollout_item, release_rollout_locks}
use agent_gtd.Rollout.Access.{
  get_item, add_comment, verify_project_access, create_project_comment, create_item_comment,
}

pub record Frame (s t : Db) : Type 0 where
  pub wave : t.wave ≡ s.wave
  pub rows : t.rows ≡ s.rows
  pub plan : t.plan ≡ s.plan
  pub events : t.events ≡ s.events
  pub runs : t.runs ≡ s.runs

pub release_rollout_item-Frame : (r a : ℕ) (s : Db) → Frame s (release_rollout_item r a s)
unfolding release_rollout_item
release_rollout_item-Frame r a s = record {
  wave = refl;
  rows = refl;
  plan = refl;
  events = refl;
  runs = refl;
}

pub release_rollout_locks-Frame : (r : ℕ) (s : Db) → Frame s (release_rollout_locks r s)
unfolding release_rollout_locks
release_rollout_locks-Frame r s = record {
  wave = refl;
  rows = refl;
  plan = refl;
  events = refl;
  runs = refl;
}

pub create_project_comment-Frame :
    (c u p : ℕ) (t : Text) (s : Db) → Frame s (create_project_comment c u p t s).1
unfolding create_project_comment verify_project_access add_comment
create_project_comment-Frame c u p t s = ground arith

pub create_item_comment-Frame :
    (c u i : ℕ) (t : Text) (s : Db) → Frame s (create_item_comment c u i t s).1
unfolding create_item_comment get_item add_comment
create_item_comment-Frame c u i t s = ground arith
