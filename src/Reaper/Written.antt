-- ===== src/Reaper/Written.antt =====
-- A run with a fatal decision has ended.
use mathlib.Core.Path.{subst}
use agent_gtd.Prelude.{
  ◌≡◌, ℕ, refl, sym, ap, true, false, ◌&&◌, Option, some, ◌==◌, find?, find-map, ==_refl,
}
use agent_gtd.Text.{Text}
use agent_gtd.Rollout.Types.{LocalRunStatus, is_active_run}
use agent_gtd.Rollout.Db.{Db, Run}
use agent_gtd.Reaper.Types.{Decision}
use agent_gtd.Reaper.{
  reap_row, write_reaped, write_decision, write_status, message, engine_of, is_running_run,
}
use agent_gtd.Reaper.Ended.{has_run_id, reap_row-id}
use agent_gtd.Reaper.Fatal.{IsFatal}

-- No request in between.
abbrev pub alone : Run → Db → Db
alone run s = s

-- The run with this id has ended, just now.
pub record HasEnded (now id : ℕ) (s : Db) : Type 0 where
  pub run : Run
  pub found : find? (has_run_id id) s.runs ≡ some run
  pub ended : is_active_run run.status ≡ false
  pub finished : run.finished_at ≡ some now

module _ (now : ℕ) (printed : Text) (r : Run) (running : is_running_run r.status ≡ true) where
  its_own : (r.id == r.id && is_running_run r.status) ≡ true
  its_own = rw (==_refl r.id, running) refl

  write_reaped-HasEnded :
      (status : LocalRunStatus) (error_msg : Text) (engine : Option Text) (s : Db)
      → is_active_run status ≡ false
      → find? (has_run_id r.id) s.runs ≡ some r
      → HasEnded now r.id (write_reaped now r.id status error_msg engine s).1
  unfolding write_reaped
  write_reaped-HasEnded status error_msg engine s e f =
      let reap = reap_row now r.id status error_msg engine in
      record {
        run = reap r;
        found =
            find-map (has_run_id r.id) reap
              (λ q. ap (λ n. n == r.id) (reap_row-id now r.id status error_msg engine q)) r s.runs
              f;
        ended = rw (its_own, reap_row) e;
        finished = rw (its_own, reap_row) refl;
      }

  pub write_decision-HasEnded :
      (o : Option Decision) (s : Db)
      → IsFatal o
      → find? (has_run_id r.id) s.runs ≡ some r
      → HasEnded now r.id (write_decision now r.id printed o s).1
  write_decision-HasEnded o s d f =
      subst (λ o. HasEnded now r.id (write_decision now r.id printed o s).1) (sym d.taken)
        (subst (λ w. HasEnded now r.id (write_status now r.id printed d.decision w s).1)
          (sym d.written)
          (write_reaped-HasEnded d.status (message printed d.decision) (engine_of d.decision) s
            d.ended f))
