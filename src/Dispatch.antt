-- ===== src/Dispatch.antt =====
-- src/agent_gtd/services/dispatch_service.py: how a run is created and cancelled, and what a
-- restart does to the runs. Python's `int`, the default number of turns, the engines of the
-- dispatch protocol, the new ids and the time are arguments. Times are whole seconds. The branch
-- name is left out, and so are logging, events for subscribers and the forward of a cancellation.
pub mod Silent
pub mod Stale
pub mod Stored
pub mod Single
pub mod Cancel
pub mod Refusal
pub mod Loop
pub mod Owner
use agent_gtd.Prelude.{
  ℕ, ◌-◌, Bool, true, false, not, ◌&&◌, ◌||◌, Option, none, some, List, [], ◌∷◌, ◌++◌, map, ◌==◌,
  ltb, if◌then◌else◌, filter, find?, any, length,
}
use agent_gtd.Text.{Text, text, is_empty, mem_text}
use agent_gtd.Exceptions.{
  AgentGtdError, Result, ok, err, not_found, EntityType, validation_error, use_dispatch_rollout,
  already_done, host_draining, owned_by_rollout, not_running, rollout_item_locked,
  blockers_unresolved, run_active, no_item_project, no_repos, no_git_origin, bad_number,
  integrity_error,
}
use agent_gtd.Rollout.Types.{
  LocalRunStatus, DispatchMode, ItemStatus, RolloutStatus, is_active_run, is_pending_run, is_manage,
  is_build, is_done,
}
use agent_gtd.Rollout.Db.{
  Db, Call, Run, Project, Wave, Item, continue, execute, fetch, raise, return, refuse_if,
  get_rollout, ◌>>=◌, ◌>>◌,
}
use agent_gtd.Rollout.Access.{get_item, project_accessible}
use agent_gtd.Rollout.Graph.{is_running}
use agent_gtd.Rollout.Plan.Legality.{get_unresolved_blockers, is_nothing}
use agent_gtd.Rollout.Lifecycle.{link_build_run}
use agent_gtd.Items.{update_item, no_changes}
use agent_gtd.Router.{is_drained}
use agent_gtd.Settings.{get_setting, get_dispatch_hosts}
use agent_gtd.Settings.Types.{HostRow, Registry, Outcome}
use agent_gtd.Settings.Types as Registered

abbrev pub stale_pending_run_seconds : ℕ
stale_pending_run_seconds = 600

abbrev pub stale_pending_run_error : Text
stale_pending_run_error =
    text
      "Orphaned pending run reaped: never handed to a dispatch host within 600s of creation (no remote run id)"

abbrev pub is_unsent : Run → Bool
is_unsent r = elim r.remote_run_id [ none ↦ true | some id ↦ false ]

abbrev pub is_older : ℕ → Option ℕ → Bool
is_older now none = false
is_older now (some created) = ltb stale_pending_run_seconds (now - created)

-- `_is_stale_pending_run`
unfoldable pub is_stale_pending_run : ℕ → Run → Bool
is_stale_pending_run now r = is_pending_run r.status && is_unsent r && is_older now r.created_at

-- The union, without the order in which the code lists it.
unfoldable pub effective_required_labels : List Text → List Text → List Text
effective_required_labels project_labels item_labels =
    project_labels ++ filter (λ l. not (mem_text l project_labels)) item_labels

-- `MANAGE_MAX_TURNS` is None and `REVIEW_MAX_TURNS` is 40.
unfoldable pub resolve_max_turns : Option ℕ → ℕ → DispatchMode → ℕ
resolve_max_turns (some turns) global_default mode = turns
resolve_max_turns none global_default DispatchMode.review = 40
resolve_max_turns none global_default mode = global_default

-- The arguments of a dispatch.
pub record RunRequest : Type 0 where
  pub max_turns : Option ℕ
  pub mode : DispatchMode
  pub rollout_id : Option ℕ
  pub dispatch_host_id : Option ℕ
  pub allow_drained_host : Bool

abbrev pub is_some : {A : Type 0} → Option A → Bool
is_some none = false
is_some (some a) = true

-- `mode == "build" and rollout_id is not None`
abbrev pub is_rollout_build : RunRequest → Bool
is_rollout_build q = is_build q.mode && is_some q.rollout_id

abbrev pub refuse_locked : ℕ → Option ℕ → Call (Unit {0})
refuse_locked item_id none = return tt
refuse_locked item_id (some rollout_id) = raise (rollout_item_locked item_id rollout_id)

-- `get_project`
unfoldable pub get_project : ℕ → ℕ → Call Project
unfolding project_accessible
get_project user_id project_id s =
    elim (find? (λ p. p.id == project_id && project_accessible s user_id p.id) s.projects) [
      | none ↦ (err (not_found EntityType.project project_id), s)
      | some p ↦ (ok p, s)
    ]

abbrev pub project_of : ℕ → Option ℕ → Call Project
project_of user_id none = raise no_item_project
project_of user_id (some project_id) = get_project user_id project_id

-- A workspace needs repos, any other project an origin.
abbrev pub check_repos : Project → Call (Unit {0})
check_repos p =
    if p.is_workspace
    then refuse_if (is_nothing p.workspace_repos) no_repos
    else refuse_if (is_empty p.git_origin) no_git_origin

abbrev pub is_of_item : ℕ → Option ℕ → Bool
is_of_item item_id none = false
is_of_item item_id (some a) = a == item_id

abbrev pub is_active_on : ℕ → Run → Bool
is_active_on item_id r = is_of_item item_id r.item_id && is_active_run r.status

abbrev pub fail_stale : ℕ → ℕ → Run → Run
fail_stale now run_id r =
    if r.id == run_id && (is_pending_run r.status && is_unsent r)
    then record r {
      status = LocalRunStatus.failed;
      error_msg = stale_pending_run_error;
      finished_at = some now;
    }
    else r

abbrev pub is_failed_run : LocalRunStatus → Bool
is_failed_run LocalRunStatus.failed = true
is_failed_run _ = false

abbrev pub set_runs : (Run → Run) → Db → Db
set_runs f s = record s { runs = map f s.runs }

abbrev pub has_failed : ℕ → Db → Bool
has_failed run_id s = elim (find? (λ r. r.id == run_id) s.runs) [
  | none ↦ false
  | some r ↦ is_failed_run r.status
]

unfoldable pub reap_stale : ℕ → ℕ → List Run → Call (Unit {0})
reap_stale now item_id [] = return tt
reap_stale now item_id (r ∷ rs) = do
  execute (set_runs (fail_stale now r.id))
  done ← fetch (has_failed r.id)
  refuse_if (not done) (run_active item_id r.id)
  reap_stale now item_id rs

-- The first active run that is not stale refuses.
abbrev pub refuse_active : ℕ → List Run → Call (Unit {0})
refuse_active item_id [] = return tt
refuse_active item_id (r ∷ rs) = raise (run_active item_id r.id)

unfoldable pub check_active_runs : ℕ → ℕ → Call (Unit {0})
check_active_runs now item_id = do
  active_rows ← fetch (λ s. filter (is_active_on item_id) s.runs)
  refuse_active item_id (filter (λ r. not (is_stale_pending_run now r)) active_rows)
  reap_stale now item_id active_rows

abbrev pub or_else : Option ℕ → Option ℕ → Option ℕ
or_else none d = d
or_else (some a) d = some a

-- The checks of the rollout of a build; returns the host that the run is pinned to.
unfoldable pub rollout_pin : ℕ → RunRequest → Call (Option ℕ)
rollout_pin user_id q = elim q.rollout_id [
  | none ↦ return q.dispatch_host_id
  | some rollout_id ↦
      if is_build q.mode
      then (do
        wave ← get_rollout user_id rollout_id
        refuse_if (not (is_running wave.status)) (validation_error not_running)
        return (or_else q.dispatch_host_id wave.dispatch_host_id))
      else return q.dispatch_host_id
]

-- `get_dispatch_hosts`, in this database.
abbrev pub listed : Outcome (List HostRow) × Registry → Call (List HostRow)
listed (Registered.ok rows, registry) s = (ok rows, record s { registry = registry })
listed (Registered.err e, registry) s = (err integrity_error, record s { registry = registry })

unfoldable pub list_hosts : ℕ → ℕ → ℕ → Call (List HostRow)
list_hosts now fresh owner_id s = listed (get_dispatch_hosts now fresh owner_id s.registry) s

abbrev pub is_draining : ℕ → List HostRow → Bool
is_draining id hosts = elim (find? (λ h. h.host.id == id) hosts) [
  | none ↦ false
  | some h ↦ is_drained h.host
]

unfoldable pub check_pin : ℕ → ℕ → ℕ → Bool → Option ℕ → Call (Unit {0})
check_pin now fresh owner_id allow_drained_host none = return tt
check_pin now fresh owner_id allow_drained_host (some id) = do
  hosts ← list_hosts now fresh owner_id
  refuse_if (is_draining id hosts && not allow_drained_host) (validation_error host_draining)

unfoldable pub insert_run : Run → Call (Unit {0})
insert_run r = do
  taken ← fetch (λ s. any (λ q. q.id == r.id) s.runs)
  refuse_if taken integrity_error
  execute (λ s. record s { runs = s.runs ++ r ∷ [] })

-- `try: ... except: ...; raise`
abbrev pub settle : {A : Type 0} → (Db → Db) → Result A × Db → Result A × Db
settle cleanup (ok a, s) = (ok a, s)
settle cleanup (err e, s) = (err e, cleanup s)

abbrev pub on_error : {A : Type 0} → Call A → (Db → Db) → Call A
on_error m cleanup s = settle cleanup (m s)

-- The cleanup. The text of the error is left out.
abbrev pub fail_setup : ℕ → ℕ → Run → Run
fail_setup now run_id r =
    if r.id == run_id && is_pending_run r.status
    then record r {
      status = LocalRunStatus.failed;
      error_msg = text "Dispatch setup failed after run creation";
      finished_at = some now;
    }
    else r

abbrev pub found_run : ℕ → Option Run → Call Run
found_run run_id none = raise (not_found EntityType.dispatch_run run_id)
found_run run_id (some r) = return r

unfoldable pub set_up_run : ℕ → ℕ → Bool → Call Run
set_up_run run_id item_id links = do
  if links then link_build_run run_id item_id else return tt
  row ← fetch (λ s. find? (λ r. r.id == run_id) s.runs)
  found_run run_id row

-- `try: ... except Exception: ...`
abbrev pub suppress : {A : Type 0} → A → Call A → Call A
suppress a m s = (ok a, (m s).1)

module _ (int : Text → Option ℕ) (default_max_turns : ℕ) (allowed_build_engines : List Text) where
  abbrev parsed : Option Text → Call ℕ
  parsed none = return default_max_turns
  parsed (some raw) = elim (int raw) [ none ↦ raise bad_number | some n ↦ return n ]

  unfoldable pub effective_max_turns : Project → DispatchMode → Option ℕ → Call ℕ
  effective_max_turns project mode (some turns) = return turns
  effective_max_turns project mode none = do
    stored ← fetch (λ s. get_setting (text "dispatch.default_max_turns") none s.registry)
    global_default ← parsed stored
    return (resolve_max_turns project.dispatch_max_turns global_default mode)

  -- From the item on.
  unfoldable pub create_run_for : ℕ → ℕ → ℕ → ℕ → RunRequest → Item → Call Run
  create_run_for now run_id fresh user_id q item = do
    refuse_if (is_rollout_build q && is_done item.status) (validation_error already_done)
    refuse_locked item.id item.locked_by_rollout_id
    project ← project_of user_id item.project_id
    check_repos project
    check_active_runs now item.id
    unresolved ← fetch (λ s. get_unresolved_blockers s item.id)
    refuse_if (not (is_nothing unresolved)) (blockers_unresolved unresolved)
    host ← rollout_pin user_id q
    check_pin now fresh project.user_id q.allow_drained_host host
    turns ← effective_max_turns project q.mode q.max_turns
    insert_run record {
      id = run_id;
      item_id = some item.id;
      rollout_id = q.rollout_id;
      mode = q.mode;
      status = LocalRunStatus.pending;
      remote_run_id = none;
      finished_at = none;
      error_msg = [];
      user_id = user_id;
      project_id = project.id;
      created_at = some now;
      started_at = none;
      dispatch_host_url = [];
      dispatch_host_id = host;
      allow_drained_host = q.allow_drained_host && is_some host;
      max_turns = turns;
      engine_actual = none;
    }
    row ←
        on_error (set_up_run run_id item.id (is_rollout_build q)) (set_runs (fail_setup now run_id))
    suppress tt (
        update_item allowed_build_engines now none none
          (record no_changes { status = some ItemStatus.active }) user_id item.id)
    return row

  unfoldable pub create_run : ℕ → ℕ → ℕ → ℕ → ℕ → RunRequest → Call Run
  create_run now run_id fresh user_id item_id q = do
    refuse_if (is_manage q.mode) (validation_error use_dispatch_rollout)
    item ← get_item user_id item_id
    create_run_for now run_id fresh user_id q item
