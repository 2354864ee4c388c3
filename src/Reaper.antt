-- ===== src/Reaper.antt =====
-- src/agent_gtd/services/run_reaper.py: one pass over the runs that are stuck at `running`, with
-- the timeouts of src/agent_gtd/dispatch_worker.py. Times are whole seconds. What a host answers
-- is an argument, `poll`; so are Python's `int`, the ids that a migration of hosts would take, and
-- `meanwhile`, what other requests do to the database while a run is resolved. Timeouts are not
-- negative. Logging and the events for subscribers are left out.
pub mod Types
pub mod Ended
pub mod Fatal
pub mod Written
pub mod Waits
pub mod Progress
use agent_gtd.Prelude.{
  ℕ, ◌+◌, ◌-◌, Bool, true, false, not, ◌&&◌, ◌||◌, Option, none, some, List, [], ◌∷◌, ◌++◌, map,
  ◌==◌, leb, if◌then◌else◌, filter, find?,
}
use Prim.Native.Nat.{◌*◌, ◌/◌}
use agent_gtd.Text.{Text, text, take, is_empty, same_text}
use agent_gtd.Rollout.Types.{LocalRunStatus, DispatchMode, is_manage}
use agent_gtd.Rollout.Db.{Db, Run, Project}
use agent_gtd.Settings.Types.{HostRow, Registry, Outcome}
use agent_gtd.Settings.Types as Registered
use agent_gtd.Settings.{get_setting, get_dispatch_hosts}
use agent_gtd.Reaper.Types.{
  RemoteRun, Poll, reported, http_status_error, connect_error, timeout, http_error, invalid_body,
  other_error, Resolution, no_remote_run_id, no_host_url, unmatched_host, owning_host, Decision,
  adopted, no_record, host_active, unreachable_timeout, unreachable_wait, from_remote,
  is_terminal_remote,
}

abbrev pub reaper_grace_seconds : ℕ
reaper_grace_seconds = 600

abbrev pub reaper_unreachable_slack_minutes : ℕ
reaper_unreachable_slack_minutes = 30

abbrev pub manager_default_timeout_minutes : ℕ
manager_default_timeout_minutes = 45

abbrev pub error_msg_max_chars : ℕ
error_msg_max_chars = 2000

abbrev pub is_running_run : LocalRunStatus → Bool
is_running_run LocalRunStatus.running = true
is_running_run _ = false

-- `_lookup_project`
abbrev pub lookup_project : ℕ → Db → Option Project
lookup_project project_id s = find? (λ p. p.id == project_id) s.projects

unfoldable pub resolve_timeout_minutes : DispatchMode → Option ℕ → ℕ → ℕ → ℕ
resolve_timeout_minutes mode (some project_timeout) global_worker global_manager = project_timeout
resolve_timeout_minutes mode none global_worker global_manager =
    if is_manage mode then global_manager else global_worker

-- `started_at`, or else `created_at`.
abbrev pub base_of : Run → Option ℕ
base_of r = elim r.started_at [ some t ↦ some t | none ↦ r.created_at ]

abbrev pub run_owner : Run → Option Project → ℕ
run_owner run none = run.user_id
run_owner run (some p) = p.user_id

abbrev pub timeout_of : Option Project → Option ℕ
timeout_of none = none
timeout_of (some p) = p.dispatch_timeout_minutes

abbrev pub unreachable : Bool → Decision
unreachable past_limit = if past_limit then unreachable_timeout else unreachable_wait

-- What an answer of the host leads to, unless the code raises.
unfoldable pub decide_polled : Bool → Poll → Option Decision
decide_polled past_limit (reported remote) =
    some (if is_terminal_remote remote.status then adopted remote else host_active)
decide_polled past_limit (http_status_error code) =
    some (if code == 404 then no_record else unreachable past_limit)
decide_polled past_limit other_error = none
decide_polled past_limit _ = some (unreachable past_limit)

unfoldable pub decide : Bool → (ℕ → Text → Text → Poll) → Resolution → Option Decision
decide past_limit poll (owning_host remote_run_id url api_key) =
    decide_polled past_limit (poll remote_run_id url api_key)
decide past_limit poll _ = some (unreachable past_limit)

-- `new_status`
abbrev pub new_status : Decision → Option LocalRunStatus
new_status (adopted remote) = some (from_remote remote.status)
new_status no_record = some LocalRunStatus.failed
new_status unreachable_timeout = some LocalRunStatus.timeout
new_status host_active = none
new_status unreachable_wait = none

-- `printed` is the text of the minutes.
abbrev pub message : Text → Decision → Text
message printed (adopted remote) = take error_msg_max_chars remote.error
message printed no_record =
    text "reaped: dispatch host has no record of this run (running for " ++ printed ++ text "m)"
message printed _ = text "reaped: dispatch host unreachable for " ++ printed ++ text "m"

abbrev pub engine_of : Decision → Option Text
engine_of (adopted remote) = remote.engine_actual
engine_of _ = none

abbrev pub or_kept : Option Text → Option Text → Option Text
or_kept none old = old
or_kept (some engine) old = some engine

-- The UPDATE of `_write_reaped` on one row.
abbrev pub reap_row : ℕ → ℕ → LocalRunStatus → Text → Option Text → Run → Run
reap_row now run_id status error_msg engine_actual r =
    if r.id == run_id && is_running_run r.status
    then record r {
      status = status;
      finished_at = some now;
      error_msg = error_msg;
      engine_actual = or_kept engine_actual r.engine_actual;
    }
    else r

abbrev pub same_status : LocalRunStatus → LocalRunStatus → Bool
same_status LocalRunStatus.pending LocalRunStatus.pending = true
same_status LocalRunStatus.cloning LocalRunStatus.cloning = true
same_status LocalRunStatus.running LocalRunStatus.running = true
same_status LocalRunStatus.success LocalRunStatus.success = true
same_status LocalRunStatus.failed LocalRunStatus.failed = true
same_status LocalRunStatus.timeout LocalRunStatus.timeout = true
same_status LocalRunStatus.cancelled LocalRunStatus.cancelled = true
same_status _ _ = false

abbrev pub is_time : ℕ → Option ℕ → Bool
is_time now none = false
is_time now (some t) = t == now

-- Whether the row shows what was written.
abbrev pub counted : ℕ → LocalRunStatus → Option Run → Bool
counted now status none = false
counted now status (some r) = same_status r.status status && is_time now r.finished_at

unfoldable pub write_reaped : ℕ → ℕ → LocalRunStatus → Text → Option Text → Db → Bool × Db
write_reaped now run_id status error_msg engine_actual s =
    let runs = map (reap_row now run_id status error_msg engine_actual) s.runs in
    (counted now status (find? (λ r. r.id == run_id) runs), record s { runs = runs })

-- Which host to ask about a run, from the hosts of its owner.
abbrev pub match_host : ℕ → Text → List HostRow → Resolution
match_host remote_run_id url hosts = elim (find? (λ h. same_text h.host.url url) hosts) [
  | none ↦ unmatched_host
  | some h ↦ owning_host remote_run_id url h.api_key
]

-- What the hosts of the owner tell. Their lookup may raise.
abbrev pub ask_hosts : ℕ → Text → Outcome (List HostRow) × Registry → Db → Option Resolution × Db
ask_hosts remote_run_id url (Registered.ok rows, registry) s =
    (some (match_host remote_run_id url rows), record s { registry = registry })
ask_hosts remote_run_id url (Registered.err e, registry) s =
    (none, record s { registry = registry })

abbrev pub resolve_remote : ℕ → ℕ → ℕ → Text → Option ℕ → Db → Option Resolution × Db
resolve_remote now fresh owner_id url none s = (some no_remote_run_id, s)
resolve_remote now fresh owner_id url (some remote_run_id) s =
    let asked = ask_hosts remote_run_id url (get_dispatch_hosts now fresh owner_id s.registry) s in
    if is_empty url then (some no_host_url, s) else asked

unfoldable pub resolve_host : ℕ → ℕ → ℕ → Run → Db → Option Resolution × Db
resolve_host now fresh owner_id run s =
    resolve_remote now fresh owner_id run.dispatch_host_url run.remote_run_id s

-- Whether a row was changed.
abbrev pub write_status : ℕ → ℕ → Text → Decision → Option LocalRunStatus → Db → Bool × Db
write_status now run_id printed d none s = (false, s)
write_status now run_id printed d (some status) s =
    write_reaped now run_id status (message printed d) (engine_of d) s

-- Where the code raised, which the pass catches, nothing is written.
abbrev pub write_decision : ℕ → ℕ → Text → Option Decision → Db → Bool × Db
write_decision now run_id printed none s = (false, s)
write_decision now run_id printed (some d) s = write_status now run_id printed d (new_status d) s

abbrev pub decide_found : Bool → (ℕ → Text → Text → Poll) → Option Resolution → Option Decision
decide_found past_limit poll none = none
decide_found past_limit poll (some resolution) = decide past_limit poll resolution

-- `_setting_int`
unfoldable pub setting_int : (Text → Option ℕ) → Text → ℕ → Db → ℕ
setting_int int key fallback s = elim (get_setting key none s.registry) [
  | none ↦ fallback
  | some raw ↦ elim (int raw) [ none ↦ fallback | some n ↦ n ]
]

abbrev pub global_worker_of : (Text → Option ℕ) → Db → ℕ
global_worker_of int s = setting_int int (text "dispatch.default_timeout_minutes") 30 s

abbrev pub global_manager_of : (Text → Option ℕ) → Db → ℕ
global_manager_of int s =
    setting_int int (text "dispatch.manager_default_timeout_minutes")
      manager_default_timeout_minutes s

-- The limit in minutes.
abbrev pub limit_of : ℕ → ℕ → Run → Option Project → ℕ
limit_of global_worker global_manager run project =
    resolve_timeout_minutes run.mode (timeout_of project) global_worker global_manager
    + reaper_unreachable_slack_minutes

module _ (int : Text → Option ℕ) (print : ℕ → Text) (fresh : ℕ → ℕ) (poll : ℕ → Text → Text → Poll)
    (meanwhile : Run → Db → Db) (now : ℕ) where
  abbrev pub elapsed_minutes : ℕ → ℕ
  elapsed_minutes base = (now - base) / 60

  unfoldable pub reap_candidate : ℕ → ℕ → Run → ℕ → Db → Bool × Db
  reap_candidate global_worker global_manager run base s =
      let project = lookup_project run.project_id s in
      let past_limit =
        leb (limit_of global_worker global_manager run project) (elapsed_minutes base) in
      let (resolution, t) = resolve_host now (fresh run.id) (run_owner run project) run s in
      write_decision now run.id (print (elapsed_minutes base))
        (decide_found past_limit poll resolution) (meanwhile run t)

  abbrev pub in_grace : ℕ → Bool
  in_grace base = leb (now - base) reaper_grace_seconds

  -- Unless the run is within its grace.
  abbrev pub reap_aged : ℕ → ℕ → Run → ℕ → Bool → Db → Bool × Db
  reap_aged global_worker global_manager run base true s = (false, s)
  reap_aged global_worker global_manager run base false s =
      reap_candidate global_worker global_manager run base s

  abbrev pub reap_timed : ℕ → ℕ → Run → Option ℕ → Db → Bool × Db
  reap_timed global_worker global_manager run none s = (false, s)
  reap_timed global_worker global_manager run (some base) s =
      reap_aged global_worker global_manager run base (in_grace base) s

  unfoldable pub reap_one : ℕ → ℕ → Run → Db → Bool × Db
  reap_one global_worker global_manager run s =
      reap_timed global_worker global_manager run (base_of run) s

  -- The number of rows that changed.
  unfoldable pub reap_each : ℕ → ℕ → List Run → Db → ℕ × Db
  reap_each global_worker global_manager [] s = (0, s)
  reap_each global_worker global_manager (run ∷ rows) s =
      let (changed, t) = reap_one global_worker global_manager run s in
      let (n, u) = reap_each global_worker global_manager rows t in
      ((if changed then 1 else 0) + n, u)

  unfoldable pub reap_stuck_runs : Db → ℕ × Db
  reap_stuck_runs s =
      reap_each (global_worker_of int s) (global_manager_of int s)
        (filter (λ r. is_running_run r.status) s.runs) s
