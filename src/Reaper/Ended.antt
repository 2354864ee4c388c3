-- ===== src/Reaper/Ended.antt =====
-- What a pass of the reaper does to runs that have ended, with other requests in between.
use agent_gtd.Prelude.{
  ◌≡◌, ◌∙◌, ℕ, refl, ap, arith, Bool, true, false, ◌&&◌, Option, none, some, List, [], ◌∷◌, ◌==◌,
  find?, find-map, leb, Bool-cases, inl, inr,
}
use mathlib.Core.Path.{subst}
use agent_gtd.Text.{Text, is_empty}
use agent_gtd.Rollout.Types.{LocalRunStatus, is_active_run}
use agent_gtd.Rollout.Db.{Db, Run}
use agent_gtd.Settings.{get_dispatch_hosts}
use agent_gtd.Settings.Types.{Outcome, HostRow, Registry}
use agent_gtd.Settings.Types as Registered
use agent_gtd.Reaper.Types.{Poll, Decision}
use agent_gtd.Reaper.{
  reap_row, write_reaped, write_decision, write_status, new_status, message, engine_of, ask_hosts,
  resolve_remote, resolve_host, reap_candidate, reap_aged, reap_timed, reap_one, reap_each,
  reap_stuck_runs, is_running_run, base_of, lookup_project, run_owner, limit_of, decide_found,
  in_grace, elapsed_minutes,
}

abbrev pub has_run_id : ℕ → Run → Bool
has_run_id id r = r.id == id

-- Every run that has ended is as it was.
abbrev pub EndedKept : List Run → List Run → Type 0
EndedKept xs ys =
    (id : ℕ) (r : Run)
    → find? (has_run_id id) xs ≡ some r
    → is_active_run r.status ≡ false
    → find? (has_run_id id) ys ≡ some r

and_false : (a b : Bool) → b ≡ false → (a && b) ≡ false
and_false a b h = ground arith

not_running : (t : LocalRunStatus) → is_active_run t ≡ false → is_running_run t ≡ false
not_running t h = ground arith

module _ (now run_id : ℕ) (status : LocalRunStatus) (error_msg : Text) (engine : Option Text) where
  abbrev reap : Run → Run
  reap = reap_row now run_id status error_msg engine

  pub reap_row-id : (r : Run) → (reap r).id ≡ r.id
  reap_row-id r = elim (Bool-cases (r.id == run_id && is_running_run r.status)) [
    | inl its ↦ rw (its, reap_row) refl
    | inr other ↦ rw (other, reap_row) refl
  ]

  reap_row-kept : (r : Run) → (r.id == run_id && is_running_run r.status) ≡ false → reap r ≡ r
  reap_row-kept r h = rw (h, reap_row) refl

  write_reaped-kept :
      (s : Db) (id : ℕ) (r : Run)
      → (r.id == run_id && is_running_run r.status) ≡ false
      → find? (has_run_id id) s.runs ≡ some r
      → find? (has_run_id id) (write_reaped now run_id status error_msg engine s).1.runs ≡ some r
  unfolding write_reaped
  write_reaped-kept s id r h f =
      find-map (has_run_id id) reap (λ q. ap (λ n. n == id) (reap_row-id q)) r s.runs f
      ∙ ap some (reap_row-kept r h)

module _ (now run_id : ℕ) (printed : Text) where
  pub write_status-kept :
      (d : Decision) (o : Option LocalRunStatus) (s : Db) (id : ℕ) (r : Run)
      → (r.id == run_id && is_running_run r.status) ≡ false
      → find? (has_run_id id) s.runs ≡ some r
      → find? (has_run_id id) (write_status now run_id printed d o s).1.runs ≡ some r
  write_status-kept d none s id r h f = f
  write_status-kept d (some status) s id r h f =
      write_reaped-kept now run_id status (message printed d) (engine_of d) s id r h f

  -- A run with another id, or that does not run, is not written.
  pub write_decision-kept :
      (d : Option Decision) (s : Db) (id : ℕ) (r : Run)
      → (r.id == run_id && is_running_run r.status) ≡ false
      → find? (has_run_id id) s.runs ≡ some r
      → find? (has_run_id id) (write_decision now run_id printed d s).1.runs ≡ some r
  write_decision-kept none s id r h f = f
  write_decision-kept (some d) s id r h f = write_status-kept d (new_status d) s id r h f

  write_decision-EndedKept :
      (d : Option Decision) (s : Db)
      → EndedKept s.runs (write_decision now run_id printed d s).1.runs
  write_decision-EndedKept d s id r f e =
      write_decision-kept d s id r (and_false (r.id == run_id) _ (not_running r.status e)) f

ask_hosts-runs :
    (remote_run_id : ℕ) (url : Text) (a : Outcome (List HostRow) × Registry) (s : Db)
    → (ask_hosts remote_run_id url a s).1.runs ≡ s.runs
ask_hosts-runs remote_run_id url (Registered.ok rows, registry) s = refl
ask_hosts-runs remote_run_id url (Registered.err e, registry) s = refl

resolve_remote-runs :
    (now fresh owner_id : ℕ) (url : Text) (remote : Option ℕ) (s : Db)
    → (resolve_remote now fresh owner_id url remote s).1.runs ≡ s.runs
resolve_remote-runs now fresh owner_id url none s = refl
resolve_remote-runs now fresh owner_id url (some remote_run_id) s =
    let asked = get_dispatch_hosts now fresh owner_id s.registry in
    elim (Bool-cases (is_empty url)) [
      | inl empty ↦ rw (empty, resolve_remote) refl
      | inr given ↦ rw (given, resolve_remote) (ask_hosts-runs remote_run_id url asked s)
    ]

pub resolve_host-runs :
    (now fresh owner_id : ℕ) (run : Run) (s : Db)
    → (resolve_host now fresh owner_id run s).1.runs ≡ s.runs
unfolding resolve_host
resolve_host-runs now fresh owner_id run s =
    resolve_remote-runs now fresh owner_id run.dispatch_host_url run.remote_run_id s

pub EndedKept-trans : (xs ys zs : List Run) → EndedKept xs ys → EndedKept ys zs → EndedKept xs zs
EndedKept-trans xs ys zs k l id r f e = l id r (k id r f e) e

module _ (int : Text → Option ℕ) (print : ℕ → Text) (fresh : ℕ → ℕ) (poll : ℕ → Text → Text → Poll)
    (meanwhile : Run → Db → Db) (now : ℕ)
    (others : (run : Run) (s : Db) → EndedKept s.runs (meanwhile run s).runs) where
  reap_candidate-EndedKept :
      (gw gm : ℕ) (run : Run) (base : ℕ) (s : Db)
      → EndedKept s.runs (reap_candidate int print fresh poll meanwhile now gw gm run base s).1.runs
  unfolding reap_candidate
  reap_candidate-EndedKept gw gm run base s =
      let project = lookup_project run.project_id s in
      let owner = run_owner run project in
      let looked = resolve_host now (fresh run.id) owner run s in
      let past =
        leb (limit_of gw gm run project)
          (elapsed_minutes int print fresh poll meanwhile now base) in
      let u = meanwhile run looked.1 in
      EndedKept-trans s.runs u.runs _
        (subst (λ xs. EndedKept xs u.runs) (resolve_host-runs now (fresh run.id) owner run s)
          (others run looked.1))
        (write_decision-EndedKept now run.id
          (print (elapsed_minutes int print fresh poll meanwhile now base))
          (decide_found past poll looked.0) u)

  reap_aged-EndedKept :
      (gw gm : ℕ) (run : Run) (base : ℕ) (young : Bool) (s : Db)
      → EndedKept s.runs
          (reap_aged int print fresh poll meanwhile now gw gm run base young s).1.runs
  reap_aged-EndedKept gw gm run base true s = λ id r f e. f
  reap_aged-EndedKept gw gm run base false s = reap_candidate-EndedKept gw gm run base s

  reap_timed-EndedKept :
      (gw gm : ℕ) (run : Run) (at : Option ℕ) (s : Db)
      → EndedKept s.runs (reap_timed int print fresh poll meanwhile now gw gm run at s).1.runs
  reap_timed-EndedKept gw gm run none s = λ id r f e. f
  reap_timed-EndedKept gw gm run (some base) s =
      reap_aged-EndedKept gw gm run base (in_grace int print fresh poll meanwhile now base) s

  pub reap_each-EndedKept :
      (gw gm : ℕ) (rows : List Run) (s : Db)
      → EndedKept s.runs (reap_each int print fresh poll meanwhile now gw gm rows s).1.runs
  unfolding reap_each reap_one
  reap_each-EndedKept gw gm [] s = λ id r f e. f
  reap_each-EndedKept gw gm (run ∷ rows) s =
      let one = reap_one int print fresh poll meanwhile now gw gm run s in
      EndedKept-trans s.runs one.1.runs _ (reap_timed-EndedKept gw gm run (base_of run) s)
        (reap_each-EndedKept gw gm rows one.1)

  -- Whatever other requests do in the middle of a pass, so long as they leave the runs that have
  -- ended as they are, a pass of the reaper leaves as it was every run that had ended before it;
  -- and from any point on, over any rows that it had read, it leaves every run that has ended by
  -- then, be it among these rows.
  pub reap_stuck_runs-EndedKept :
      (s : Db)
      → EndedKept s.runs (reap_stuck_runs int print fresh poll meanwhile now s).1.runs
        × ((gw gm : ℕ) (rows : List Run) (t : Db)
            → EndedKept t.runs (reap_each int print fresh poll meanwhile now gw gm rows t).1.runs)
  unfolding reap_stuck_runs
  reap_stuck_runs-EndedKept s = (reap_each-EndedKept _ _ _ s, reap_each-EndedKept)
