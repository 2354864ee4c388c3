-- ===== src/Examples/Dispatch.antt =====
-- A dispatch over a stale run, and a cancellation that is refused.
use agent_gtd.Prelude.{
  filter, ◌≡◌, ℕ, refl, false, true, ◌⊎◌, not, ◌&&◌, ◌||◌, Option, none, some, [], ◌∷◌,
}
use agent_gtd.Text.{Text, text}
use agent_gtd.Exceptions.{ok, err, validation_error, owned_by_rollout}
use agent_gtd.Rollout.Types.{LocalRunStatus, DispatchMode, RolloutStatus}
use agent_gtd.Rollout.Db.{Db, Run, get_rollout}
use agent_gtd.Rollout.Access.{get_item, item_accessible, project_accessible}
use agent_gtd.Rollout.Events.{append_rollout_event}
use agent_gtd.Rollout.Lifecycle.{link_build_run}
use agent_gtd.Rollout.Plan.Legality.{get_unresolved_blockers}
use agent_gtd.Settings.{get_setting}
use agent_gtd.Dispatch.{
  RunRequest, create_run, create_run_for, get_project, check_active_runs, reap_stale,
  is_stale_pending_run, rollout_pin, check_pin, effective_max_turns, resolve_max_turns, insert_run,
  set_up_run,
}
use agent_gtd.Dispatch.Single.{IsSingle, create_run-IsSingle}
use agent_gtd.Dispatch.Cancel.{cancel_run}
use agent_gtd.Dispatch.Refusal.{is_unended, drives, is_under_way, IsCancelled, cancel_run-outcome}
use agent_gtd.Dispatch.{list_hosts}
use agent_gtd.Dispatch.Loop.{
  LoopTarget, is_loop_of, resolve_loop_relaunch, resolve_from, check_target,
}
use agent_gtd.Dispatch.Owner.{IsAnswer, resolve_loop_relaunch-IsAnswer}
use agent_gtd.Settings.{get_dispatch_hosts}
use agent_gtd.Examples.Data.{ready_db, build_run, wave, project, host_row}

abbrev int : Text → Option ℕ
int t = none

abbrev with_stale : Db
with_stale = record ready_db { runs = build_run 21 1 LocalRunStatus.pending none ∷ [] }

abbrev request : RunRequest
request = record {
  max_turns = none;
  mode = DispatchMode.build;
  rollout_id = some 7;
  dispatch_host_id = none;
  allow_drained_host = false;
}

abbrev made : Run
made = record (build_run 30 1 LocalRunStatus.pending none) { created_at = some 1000 }

dispatched : (create_run int 100 [] 1000 30 40 5 1 request with_stale).0 ≡ ok made
unfolding create_run create_run_for get_item item_accessible project_accessible get_project
    check_active_runs reap_stale is_stale_pending_run get_unresolved_blockers rollout_pin
    get_rollout check_pin effective_max_turns resolve_max_turns get_setting insert_run set_up_run
    link_build_run append_rollout_event
dispatched = refl

create_run-IsSingle_example :
    IsSingle 30 1 request made (create_run int 100 [] 1000 30 40 5 1 request with_stale).1
create_run-IsSingle_example =
    create_run-IsSingle int 100 [] 1000 30 40 5 1 request with_stale made dispatched

abbrev no_others : ℕ → Option RolloutStatus
no_others rollout_id = none

abbrev building : Run
building = build_run 21 1 LocalRunStatus.running (some 3)

cancel_run-outcome_example :
    let refused =
      is_unended building.status
      && (not false
          && (drives building.mode || is_under_way no_others building.rollout_id ready_db)) in
    let done = cancel_run no_others 200 5 21 false ready_db in
    ((refused ≡ true) × (done ≡ (err (validation_error owned_by_rollout), ready_db)))
    ⊎ ((is_unended building.status ≡ false) × (done ≡ (ok building, ready_db)))
    ⊎ ((refused ≡ false)
        × (is_unended building.status ≡ true)
        × IsCancelled 200 false building ready_db done)
cancel_run-outcome_example = cancel_run-outcome no_others 200 5 false ready_db building refl refl

abbrev loop_run : Run
loop_run = record (build_run 40 1 LocalRunStatus.success (some 8)) {
  item_id = none;
  mode = DispatchMode.manage;
  dispatch_host_url = text "http://a";
}

abbrev driven : Db
driven = record ready_db { runs = loop_run ∷ [] }

abbrev target : LoopTarget
target = record { host = host_row 1 (text "a"); prior_run_id = 40; project = project 1 5 }

target_resolved : (resolve_loop_relaunch 200 50 5 wave driven).0 ≡ ok (some target)
unfolding resolve_loop_relaunch resolve_from get_project project_accessible list_hosts
    get_dispatch_hosts check_target
target_resolved = refl

resolve_loop_relaunch-IsAnswer_example :
    IsAnswer wave (filter (is_loop_of wave.id) driven.runs) (some target)
resolve_loop_relaunch-IsAnswer_example =
    resolve_loop_relaunch-IsAnswer 200 50 5 wave driven (some target) target_resolved
