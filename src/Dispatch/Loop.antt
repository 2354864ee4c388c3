-- ===== src/Dispatch/Loop.antt =====
-- The relaunch of a rollout's loop in src/agent_gtd/services/dispatch_service.py.
use agent_gtd.Prelude.{
  ℕ, Bool, false, ◌&&◌, Option, none, some, List, [], ◌∷◌, ◌==◌, if◌then◌else◌, filter, find?, any,
}
use agent_gtd.Text.{Text, is_empty, same_text}
use agent_gtd.Exceptions.{validation_error, host_draining, pending_loop, unresolved_host}
use agent_gtd.Router.{is_drained}
use agent_gtd.Rollout.Types.{LocalRunStatus, DispatchMode, is_manage, is_pending_run}
use agent_gtd.Rollout.Db.{Call, Run, Project, Wave, fetch, raise, return, refuse_if, ◌>>=◌, ◌>>◌}
use agent_gtd.Rollout.Runs.{of_rollout}
use agent_gtd.Settings.Types.{HostRow}
use agent_gtd.Dispatch.{effective_max_turns, get_project, list_hosts, insert_run}

-- What a relaunch starts from.
pub record LoopTarget : Type 0 where
  pub host : HostRow
  pub prior_run_id : ℕ
  pub project : Project

module _ (int : Text → Option ℕ) (default_max_turns : ℕ) (allowed_build_engines : List Text) where
  -- `_create_manage_run`. Returns the new id.
  unfoldable pub create_manage_run : ℕ → ℕ → ℕ → ℕ → Project → Option ℕ → Call ℕ
  create_manage_run now run_id user_id rollout_id project host = do
    turns ←
        effective_max_turns int default_max_turns allowed_build_engines project DispatchMode.manage
          none
    insert_run record {
      id = run_id;
      item_id = none;
      rollout_id = some rollout_id;
      mode = DispatchMode.manage;
      status = LocalRunStatus.pending;
      remote_run_id = none;
      finished_at = none;
      error_msg = [];
      user_id = user_id;
      project_id = project.id;
      created_at = some now;
      started_at = none;
      dispatch_host_url = [];
      dispatch_host_id = host;
      allow_drained_host = false;
      max_turns = turns;
      engine_actual = none;
    }
    return run_id

  unfoldable pub relaunch_rollout_loop : ℕ → ℕ → ℕ → ℕ → LoopTarget → Call ℕ
  relaunch_rollout_loop now run_id user_id rollout_id target =
      create_manage_run now run_id user_id rollout_id target.project (some target.host.host.id)

abbrev pub is_loop_of : ℕ → Run → Bool
is_loop_of rollout_id r = of_rollout r.rollout_id rollout_id && is_manage r.mode

-- The last of the rows, which are oldest first.
abbrev pub last_of : Run → List Run → Run
last_of r [] = r
last_of r (q ∷ rows) = last_of q rows

-- The host that the rollout is pinned to, or else the one that last drove it.
abbrev pub owning_host : Option ℕ → Text → List HostRow → Option HostRow
owning_host (some pinned) prior_url hosts = find? (λ h. h.host.id == pinned) hosts
owning_host none prior_url hosts =
    if is_empty prior_url then none else find? (λ h. same_text h.host.url prior_url) hosts

-- `_refuse_draining_host`, and that the host is there.
unfoldable pub check_target : ℕ → Project → Option HostRow → Call (Option LoopTarget)
check_target prior_run_id project none = raise (validation_error unresolved_host)
check_target prior_run_id project (some h) = do
  refuse_if (is_drained h.host) (validation_error host_draining)
  return (some (record { host = h; prior_run_id = prior_run_id; project = project }))

-- From the manage runs on, oldest first.
unfoldable pub resolve_from : ℕ → ℕ → ℕ → Wave → List Run → Call (Option LoopTarget)
resolve_from now fresh user_id wave [] = return none
resolve_from now fresh user_id wave (r ∷ rows) = do
  refuse_if (any (λ q. is_pending_run q.status) (r ∷ rows)) (validation_error pending_loop)
  project ← get_project user_id wave.project_id
  hosts ← list_hosts now fresh project.user_id
  let latest = last_of r rows
  check_target latest.id project (owning_host wave.dispatch_host_id latest.dispatch_host_url hosts)

unfoldable pub resolve_loop_relaunch : ℕ → ℕ → ℕ → Wave → Call (Option LoopTarget)
resolve_loop_relaunch now fresh user_id wave = do
  manage_rows ← fetch (λ s. filter (is_loop_of wave.id) s.runs)
  resolve_from now fresh user_id wave manage_rows
