-- ===== src/Examples/Reaper.antt =====
-- A pass of the reaper over a run whose host is down.
use agent_gtd.Prelude.{ℕ, refl, Option, none, some, List, [], ◌∷◌}
use agent_gtd.Text.{Text, text}
use agent_gtd.Rollout.Types.{LocalRunStatus}
use agent_gtd.Rollout.Db.{Db, Run}
use agent_gtd.Reaper.Types.{Poll, connect_error}
use agent_gtd.Reaper.{reap_stuck_runs, reap_each, setting_int, resolve_timeout_minutes}
use agent_gtd.Settings.{get_setting}
use agent_gtd.Reaper.Ended.{EndedKept, reap_stuck_runs-EndedKept}
use agent_gtd.Reaper.Written.{alone, HasEnded}
use agent_gtd.Reaper.Progress.{IsLost, reap_stuck_runs-HasEnded}
use agent_gtd.Examples.Data.{ready_db, build_run, project}

abbrev int : Text → Option ℕ
int t = none

abbrev print : ℕ → Text
print n = n ∷ []

abbrev fresh : ℕ → ℕ
fresh id = id

abbrev down : ℕ → Text → Text → Poll
down rid url key = connect_error

abbrev lost_run : Run
lost_run = record (build_run 21 1 LocalRunStatus.running (some 3)) {
  dispatch_host_url = text "http://a";
}

abbrev stuck : Db
stuck = record ready_db { runs = lost_run ∷ build_run 22 2 LocalRunStatus.success none ∷ [] }

lost_run-IsLost : IsLost int print fresh down 10000 30 45 lost_run (some (project 1 5)) 100
unfolding resolve_timeout_minutes
lost_run-IsLost = record {
  running = refl;
  since = refl;
  old = refl;
  past = refl;
  unanswered = λ rid key. refl;
}

reap_stuck_runs-HasEnded_example :
    HasEnded 10000 21 (reap_stuck_runs int print fresh down alone 10000 stuck).1
unfolding setting_int get_setting
reap_stuck_runs-HasEnded_example =
    reap_stuck_runs-HasEnded int print fresh down 10000 lost_run 100 stuck refl refl lost_run-IsLost

reap_stuck_runs-EndedKept_example :
    EndedKept stuck.runs (reap_stuck_runs int print fresh down alone 10000 stuck).1.runs
    × ((gw gm : ℕ) (rows : List Run) (t : Db)
        → EndedKept t.runs (reap_each int print fresh down alone 10000 gw gm rows t).1.runs)
reap_stuck_runs-EndedKept_example =
    reap_stuck_runs-EndedKept int print fresh down alone 10000 (λ run s id r f e. f) stuck
