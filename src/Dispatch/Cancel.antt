-- ===== src/Dispatch/Cancel.antt =====
-- The end of runs in src/agent_gtd/services/dispatch_service.py: the cancellation of one run, and
-- what a restart of the service does to all.
use agent_gtd.Prelude.{
  ℕ, Bool, true, false, not, ◌&&◌, ◌||◌, Option, none, some, ◌==◌, if◌then◌else◌, filter, find?,
  length,
}
use agent_gtd.Text.{text}
use agent_gtd.Exceptions.{validation_error, owned_by_rollout}
use agent_gtd.Rollout.Types.{LocalRunStatus, RolloutStatus, is_active_run, is_manage}
use agent_gtd.Rollout.Db.{Db, Call, Run, execute, fetch, return, refuse_if, ◌>>=◌, ◌>>◌}
use agent_gtd.Dispatch.{set_runs, found_run}

unfoldable pub get_run : ℕ → ℕ → Call Run
get_run user_id run_id = do
  row ← fetch (λ s. find? (λ r. r.id == run_id && r.user_id == user_id) s.runs)
  found_run run_id row

-- `TERMINAL_ROLLOUT_STATUSES`
abbrev pub is_terminal_rollout : RolloutStatus → Bool
is_terminal_rollout RolloutStatus.pending = false
is_terminal_rollout RolloutStatus.planning = false
is_terminal_rollout RolloutStatus.running = false
is_terminal_rollout _ = true

abbrev pub is_over : Option RolloutStatus → Bool
is_over none = true
is_over (some status) = is_terminal_rollout status

-- `_rollout_is_terminal`. The rows of the other rollouts are an argument.
abbrev pub rollout_is_terminal : (ℕ → Option RolloutStatus) → ℕ → Db → Bool
rollout_is_terminal others rollout_id s =
    if rollout_id == s.wave.id
    then is_terminal_rollout s.wave.status
    else is_over (others rollout_id)

abbrev pub is_live : (ℕ → Option RolloutStatus) → Option ℕ → Db → Bool
is_live others none s = false
is_live others (some rollout_id) s = not (rollout_is_terminal others rollout_id s)

-- The UPDATE, with the message if there is one.
abbrev pub cancel_row : ℕ → Bool → ℕ → Run → Run
cancel_row now force run_id r =
    if r.id == run_id
    then record r {
      status = LocalRunStatus.cancelled;
      finished_at = some now;
      error_msg = if force then text "forced by operator" else r.error_msg;
    }
    else r

unfoldable pub cancel_and_forward : ℕ → Bool → Run → Call Run
cancel_and_forward now force r = do
  execute (set_runs (cancel_row now force r.id))
  row ← fetch (λ s. find? (λ q. q.id == r.id) s.runs)
  found_run r.id row

-- From the row on.
unfoldable pub cancel_found : (ℕ → Option RolloutStatus) → ℕ → Bool → Run → Call Run
cancel_found others now force r = do
  if not (is_active_run r.status) then return r else do
    live ← fetch (is_live others r.rollout_id)
    refuse_if (not force && (is_manage r.mode || live)) (validation_error owned_by_rollout)
    cancel_and_forward now force r

unfoldable pub cancel_run : (ℕ → Option RolloutStatus) → ℕ → ℕ → ℕ → Bool → Call Run
cancel_run others now user_id run_id force = do
  r ← get_run user_id run_id
  cancel_found others now force r

abbrev pub orphan : ℕ → Run → Run
orphan now r =
    if is_active_run r.status
    then record r {
      status = LocalRunStatus.failed;
      error_msg = text "Server restarted while run was active";
      finished_at = some now;
    }
    else r

-- Returns how many runs it marked.
unfoldable pub reconcile_orphans : ℕ → Call ℕ
reconcile_orphans now = do
  rows ← fetch (λ s. filter (λ r. is_active_run r.status) s.runs)
  execute (set_runs (orphan now))
  return (length rows)
