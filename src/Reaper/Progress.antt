-- ===== src/Reaper/Progress.antt =====
-- A run whose host does not answer for it does not stay at `running`.
use mathlib.Core.Path.{subst}
use agent_gtd.Prelude.{
  ◌≡◌, ℕ, refl, sym, arith, Bool, true, false, Option, none, some, List, [], ◌∷◌, filter, ◌==◌,
  find?, find_head, find_tail, find-filter, leb, Bool-cases, inl, inr,
}
use agent_gtd.Text.{Text}
use agent_gtd.Rollout.Db.{Db, Run, Project}
use agent_gtd.Reaper.Types.{Poll, Resolution}
use agent_gtd.Reaper.{
  write_decision, resolve_remote, resolve_host, reap_candidate, reap_aged, reap_timed, reap_one,
  reap_each, reap_stuck_runs, is_running_run, base_of, lookup_project, run_owner, limit_of,
  decide_found, in_grace, global_worker_of, global_manager_of, elapsed_minutes,
}
use agent_gtd.Reaper.Ended.{has_run_id, reap_each-EndedKept}
use agent_gtd.Reaper.Fatal.{fails, has_host, resolve_remote-IsFatal}
use agent_gtd.Reaper.Written.{alone, HasEnded, write_decision-HasEnded}
use agent_gtd.Reaper.Waits.{Waits, resolve_remote-Waits, write_decision-Waits}

module _ (int : Text → Option ℕ) (print : ℕ → Text) (fresh : ℕ → ℕ) (poll : ℕ → Text → Text → Poll)
    (now gw gm : ℕ) (r : Run) (project : Option Project) where
  abbrev minutes : ℕ → ℕ
  minutes base = elapsed_minutes int print fresh poll alone now base

  reap_candidate-Waits :
      (x : Run) (base : ℕ) (s : Db)
      → (r.id == x.id) ≡ false
      → Waits r project s
      → Waits r project (reap_candidate int print fresh poll alone now gw gm x base s).1
  unfolding reap_candidate resolve_host
  reap_candidate-Waits x base s other w =
      let p = lookup_project x.project_id s in
      let owner = run_owner x p in
      let looked = resolve_remote now (fresh x.id) owner x.dispatch_host_url x.remote_run_id s in
      let past = leb (limit_of gw gm x p) (minutes base) in
      write_decision-Waits now x.id (print (minutes base)) r project
        (decide_found past poll looked.0) looked.1 other
        (resolve_remote-Waits now (fresh x.id) owner x.dispatch_host_url x.remote_run_id r project s
          w)

  reap_aged-Waits :
      (x : Run) (base : ℕ) (young : Bool) (s : Db)
      → (r.id == x.id) ≡ false
      → Waits r project s
      → Waits r project (reap_aged int print fresh poll alone now gw gm x base young s).1
  reap_aged-Waits x base true s other w = w
  reap_aged-Waits x base false s other w = reap_candidate-Waits x base s other w

  reap_timed-Waits :
      (x : Run) (since : Option ℕ) (s : Db)
      → (r.id == x.id) ≡ false
      → Waits r project s
      → Waits r project (reap_timed int print fresh poll alone now gw gm x since s).1
  reap_timed-Waits x none s other w = w
  reap_timed-Waits x (some base) s other w =
      reap_aged-Waits x base (in_grace int print fresh poll alone now base) s other w

  -- The run is running, its host does not answer for it, and it is past its limit.
  pub record IsLost (base : ℕ) : Type 0 where
    pub running : is_running_run r.status ≡ true
    pub since : base_of r ≡ some base
    pub old : in_grace int print fresh poll alone now base ≡ false
    pub past : leb (limit_of gw gm r project) (minutes base) ≡ true
    pub unanswered : (rid : ℕ) (key : Text) → fails (poll rid r.dispatch_host_url key) ≡ true

  other_id : (x : Run) → (x.id == r.id) ≡ false → (r.id == x.id) ≡ false
  other_id x h = swap x.id r.id h
    where
      swap : (a b : ℕ) → (a == b) ≡ false → (b == a) ≡ false
      swap a b h = ground arith

  module _ (base : ℕ) (l : IsLost base) where
    abbrev asked : Option Project → Db → Option Resolution × Db
    asked p s =
        resolve_remote now (fresh r.id) (run_owner r p) r.dispatch_host_url r.remote_run_id s

    abbrev after : Option Project → Bool → Db → Db
    after p past s =
        (write_decision now r.id (print (minutes base)) (decide_found past poll (asked p s).0)
          (asked p s).1).1

    after-HasEnded : (s : Db) → Waits r project s → HasEnded now r.id (after project true s)
    unfolding resolve_host
    after-HasEnded s w =
        write_decision-HasEnded now (print (minutes base)) r l.running
          (decide_found true poll (asked project s).0) (asked project s).1
          (resolve_remote-IsFatal poll r.dispatch_host_url l.unanswered now (fresh r.id)
            (run_owner r project) r.remote_run_id s w.hosted)
          (resolve_remote-Waits now (fresh r.id) (run_owner r project) r.dispatch_host_url
            r.remote_run_id r project s w).there

    reap_candidate-HasEnded :
        (s : Db)
        → Waits r project s
        → HasEnded now r.id (reap_candidate int print fresh poll alone now gw gm r base s).1
    unfolding reap_candidate resolve_host
    reap_candidate-HasEnded s w =
        subst (λ p. HasEnded now r.id (after p (leb (limit_of gw gm r p) (minutes base)) s))
          (sym w.looked)
          (subst (λ past. HasEnded now r.id (after project past s)) (sym l.past)
            (after-HasEnded s w))

    reap_one-HasEnded :
        (s : Db)
        → Waits r project s
        → HasEnded now r.id (reap_one int print fresh poll alone now gw gm r s).1
    unfolding reap_one
    reap_one-HasEnded s w =
        subst
          (λ since. HasEnded now r.id (reap_timed int print fresh poll alone now gw gm r since s).1)
          (sym l.since)
          (subst
            (λ young.
              HasEnded now r.id (reap_aged int print fresh poll alone now gw gm r base young s).1)
            (sym l.old) (reap_candidate-HasEnded s w))

    reap_each-keeps :
        (rows : List Run) (s : Db)
        → HasEnded now r.id s
        → HasEnded now r.id (reap_each int print fresh poll alone now gw gm rows s).1
    reap_each-keeps rows s h = record {
      run = h.run;
      found =
          reap_each-EndedKept int print fresh poll alone now (λ run t id q f e. f) gw gm rows s r.id
            h.run h.found h.ended;
      ended = h.ended;
      finished = h.finished;
    }

    reap_each-HasEnded :
        (rows : List Run) (s : Db)
        → Waits r project s
        → find? (has_run_id r.id) rows ≡ some r
        → HasEnded now r.id (reap_each int print fresh poll alone now gw gm rows s).1
    unfolding reap_each reap_one
    reap_each-HasEnded [] s w f = ground arith
    reap_each-HasEnded (x ∷ rows) s w f = elim (Bool-cases (x.id == r.id)) [
      | inl same ↦ reap_each-keeps rows _ (
          subst (λ y. HasEnded now r.id (reap_one int print fresh poll alone now gw gm y s).1)
            (sym (find_head (has_run_id r.id) x r rows same f)) (reap_one-HasEnded s w))
      | inr other ↦
          reap_each-HasEnded rows (reap_one int print fresh poll alone now gw gm x s).1
            (reap_timed-Waits x (base_of x) s (other_id x other) w)
            (find_tail (has_run_id r.id) x r rows other f)
    ]

-- A pass that no request interrupts ends every run that is lost: the run is running, began or was
-- made longer than the grace ago and at least its limit ago (the timeout of its project, else of
-- the deployment for its mode, and the slack), and its host, at whatever key, fails every question
-- about it or knows nothing of it. This holds where the user whose hosts are asked has any host.
-- The run has then ended, at the time of the pass.
pub reap_stuck_runs-HasEnded :
    (int : Text → Option ℕ) (print : ℕ → Text) (fresh : ℕ → ℕ) (poll : ℕ → Text → Text → Poll)
    (now : ℕ) (r : Run) (base : ℕ) (s : Db)
    → find? (has_run_id r.id) s.runs ≡ some r
    → has_host (run_owner r (lookup_project r.project_id s)) s.registry.hosts ≡ true
    → IsLost int print fresh poll now
        (global_worker_of int s)
        (global_manager_of int s)
        r
        (lookup_project r.project_id s)
        base
    → HasEnded now r.id (reap_stuck_runs int print fresh poll alone now s).1
unfolding reap_stuck_runs
reap_stuck_runs-HasEnded int print fresh poll now r base s f h l =
    reap_each-HasEnded int print fresh poll now _ _ r (lookup_project r.project_id s) base l
      (filter (λ q. is_running_run q.status) s.runs) s
      record { there = f; looked = refl; hosted = h }
      (find-filter (has_run_id r.id) (λ q. is_running_run q.status) r s.runs f l.running)
