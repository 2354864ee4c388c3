-- ===== src/Rollout/Sequence/Lifecycle.antt =====
-- Every operation appends to the log in sequence.
use agent_gtd.Prelude.{ℕ, ◌≡◌, refl, Option, none, some}
use agent_gtd.Text.{Text}
use agent_gtd.Rollout.Types.{RolloutEventKind, RolloutEventActor, ManagerPhase}
use agent_gtd.Rollout.Db.{Db, Payload, RolloutItem, execute}
use agent_gtd.Rollout.Events.{append_rollout_event}
use agent_gtd.Rollout.Locks.{release_rollout_locks}
use agent_gtd.Rollout.Access.{create_project_comment}
use agent_gtd.Rollout.Frame.{create_project_comment-Frame, create_item_comment-Frame}
use agent_gtd.Rollout.Keeps.{Keeps, Keeps-execute, keeps_rules}
use agent_gtd.Rollout.Lifecycle.{
  start_rollout, update_rollout_state, reset_found, reset_rollout_item, cancel_rollout,
  halt_rollout, stop_rollout, item_halt_comment, link_build_run,
}
use agent_gtd.Rollout.Sequence.{IsNumbered, append_event-IsNumbered}

pub append-Keeps :
    (kind : RolloutEventKind) (actor : RolloutEventActor) (details : Payload) (rule : Text)
    → Keeps IsNumbered (append_rollout_event kind actor details rule)
unfolding append_rollout_event
append-Keeps kind actor details rule = record {
  at = append_event-IsNumbered kind actor details rule;
}

-- A statement on other tables.
pub silent : (f : Db → Db) → ((s : Db) → (f s).events ≡ s.events) → Keeps IsNumbered (execute f)
silent f h = Keeps-execute f (λ s n. record { numbers = rw (h s) n.numbers })

pub start-Keeps :
    (now user rid : ℕ) (actor : RolloutEventActor) (details : Payload)
    → Keeps IsNumbered (start_rollout now user rid actor details)
unfolding start_rollout
start-Keeps now user rid actor details = search (keeps_rules, append-Keeps, silent)

pub update-Keeps :
    (now user rid : ℕ) (phase : ManagerPhase) (item : Option ℕ) (step : Option Text)
    → Keeps IsNumbered (update_rollout_state now user rid phase item step)
unfolding update_rollout_state
update-Keeps now user rid phase item step = search (keeps_rules, append-Keeps, silent)

reset_found-Keeps : (i : ℕ) (found : Option RolloutItem) → Keeps IsNumbered (reset_found i found)
unfolding reset_found
reset_found-Keeps i none = search keeps_rules
reset_found-Keeps i (some row) = search (keeps_rules, append-Keeps, silent)

pub reset-Keeps : (user rid i : ℕ) → Keeps IsNumbered (reset_rollout_item user rid i)
unfolding reset_rollout_item
reset-Keeps user rid i = search (keeps_rules, reset_found-Keeps)

releases : (rid : ℕ) → Keeps IsNumbered (execute (release_rollout_locks rid))
unfolding release_rollout_locks
releases rid = silent (release_rollout_locks rid) (λ s. refl)

pub cancel-Keeps :
    (now user rid : ℕ) (reason : Text) → Keeps IsNumbered (cancel_rollout now user rid reason)
unfolding cancel_rollout
cancel-Keeps now user rid reason = search (keeps_rules, append-Keeps, releases, silent) depth 14

stops : (now rid : ℕ) (reason : Text) → Keeps IsNumbered (execute (stop_rollout now rid reason))
unfolding stop_rollout release_rollout_locks
stops now rid reason = silent (stop_rollout now rid reason) (λ s. refl)

project_comment-Keeps : (c u p : ℕ) (t : Text) → Keeps IsNumbered (create_project_comment c u p t)
project_comment-Keeps c u p t = record {
  at = λ s n. record { numbers = rw (create_project_comment-Frame c u p t s).events n.numbers };
}

item_comment-Keeps :
    (c u : ℕ) (item : Option ℕ) (reason : Text)
    → Keeps IsNumbered (item_halt_comment c u item reason)
item_comment-Keeps c u none reason = record { at = λ s n. n }
item_comment-Keeps c u (some i) reason = record {
  at = λ s n. record { numbers = rw (create_item_comment-Frame c u i _ s).events n.numbers };
}

pub halt-Keeps :
    (now c d user rid : ℕ) (reason : Text) (comment : Option Text) (item : Option ℕ)
    → Keeps IsNumbered (halt_rollout now c d user rid reason comment item)
unfolding halt_rollout
halt-Keeps now c d user rid reason comment item =
    search (keeps_rules, append-Keeps, stops, project_comment-Keeps, item_comment-Keeps) depth 14

pub link-Keeps : (run i : ℕ) → Keeps IsNumbered (link_build_run run i)
unfolding link_build_run
link-Keeps run i = search (keeps_rules, append-Keeps, silent)
