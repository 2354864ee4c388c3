-- ===== src/Rollout/Runs.antt =====
-- The child runs of a rollout: `_fetch_active_child_runs` and `_cancel_child_runs` of
-- rollout_service.py, and the local half of `cancel_run_and_forward` of dispatch_service.py. The
-- forward to the dispatch host is best effort and leaves the tables alone.
use agent_gtd.Prelude.{
  ℕ, Bool, false, not, ◌&&◌, Option, none, some, List, [], ◌∷◌, map, ◌==◌, if◌then◌else◌, filter,
}
use agent_gtd.Text.{Text}
use agent_gtd.Rollout.Types.{LocalRunStatus, is_active_run, is_manage}
use agent_gtd.Rollout.Db.{Run}

abbrev pub of_rollout : Option ℕ → ℕ → Bool
of_rollout none rollout_id = false
of_rollout (some r) rollout_id = r == rollout_id

abbrev pub is_child_run : ℕ → Run → Bool
is_child_run rollout_id r =
    of_rollout r.rollout_id rollout_id && (not (is_manage r.mode) && is_active_run r.status)

unfoldable pub fetch_active_child_runs : ℕ → List Run → List Run
fetch_active_child_runs rollout_id runs = filter (is_child_run rollout_id) runs

-- The UPDATE of `cancel_run_and_forward`.
abbrev pub cancel_one : ℕ → Text → ℕ → Run → Run
cancel_one now reason run_id r =
    if r.id == run_id
    then record r { status = LocalRunStatus.cancelled; finished_at = some now; error_msg = reason }
    else r

unfoldable pub cancel_child_runs : ℕ → Text → List Run → List Run → List Run
cancel_child_runs now reason [] runs = runs
cancel_child_runs now reason (r ∷ rest) runs =
    cancel_child_runs now reason rest (map (cancel_one now reason r.id) runs)

abbrev pub run_ids : List Run → List ℕ
run_ids rs = map (λ r. r.id) rs
