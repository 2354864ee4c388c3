-- ===== src/Items/Complete.antt =====
-- `complete_item` is an update.
use agent_gtd.Prelude.{ℕ, ◌≡◌, arith, none, some, List}
use agent_gtd.Text.{Text}
use agent_gtd.Rollout.Types.{ItemStatus}
use agent_gtd.Rollout.Db.{Db}
use agent_gtd.Rollout.Items.{complete_item}
use agent_gtd.Items.{
  Changes, no_changes, update_item, commit_update, check_update, check_move, refuses_engine,
  refuses_commit_type, overrides_engine,
}

abbrev pub finish : Changes
finish = record no_changes { status = some ItemStatus.done }

-- `complete_item`, which is modelled apart, does what the update to done does, in every state.
pub complete_item-update_item :
    (engines : List Text) (now user a : ℕ) (s : Db)
    → complete_item now user a s ≡ update_item engines now none none finish user a s
unfolding complete_item update_item commit_update check_update check_move refuses_engine
    refuses_commit_type overrides_engine
complete_item-update_item engines now user a s = ground arith
