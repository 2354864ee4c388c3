-- ===== src/Reaper/Waits.antt =====
-- What a pass keeps of a run while it resolves others.
use agent_gtd.Prelude.{
  ◌≡◌, ℕ, refl, arith, true, false, Option, none, some, List, [], ◌∷◌, ◌++◌, ◌==◌, find?,
  Bool-cases, inl, inr,
}
use agent_gtd.Text.{Text, text, is_empty}
use agent_gtd.Rollout.Types.{LocalRunStatus}
use agent_gtd.Rollout.Db.{Db, Run, Project}
use agent_gtd.Settings.{get_dispatch_hosts, migrate, migrated, given, get_user_setting}
use agent_gtd.Settings.Types.{Outcome, HostRow, Registry}
use agent_gtd.Settings.Types as Registered
use agent_gtd.Reaper.Types.{Decision}
use agent_gtd.Reaper.{
  write_reaped, write_decision, write_status, new_status, ask_hosts, resolve_remote, lookup_project,
  run_owner,
}
use agent_gtd.Reaper.Ended.{has_run_id, write_status-kept}
use agent_gtd.Reaper.Fatal.{has_host}

-- What stays while other runs are resolved.
pub record Waits (r : Run) (project : Option Project) (s : Db) : Type 0 where
  pub there : find? (has_run_id r.id) s.runs ≡ some r
  pub looked : lookup_project r.project_id s ≡ project
  pub hosted : has_host (run_owner r project) s.registry.hosts ≡ true

has_host-snoc :
    (owner : ℕ) (rows : List HostRow) (h : HostRow)
    → has_host owner rows ≡ true
    → has_host owner (rows ++ h ∷ []) ≡ true
has_host-snoc owner [] h k = ground arith
has_host-snoc owner (q ∷ rows) h k = ground (arith, has_host-snoc owner rows h)

migrate-has_host :
    (now fresh user owner : ℕ) (url key : Option Text) (s : Registry)
    → has_host owner s.hosts ≡ true
    → has_host owner (migrate now fresh user url key s).1.hosts ≡ true
unfolding migrate
migrate-has_host now fresh user owner url key s k =
    ground (arith, has_host-snoc owner s.hosts (migrated now fresh user (given url) (given key)) k)

get_dispatch_hosts-has_host :
    (now fresh user owner : ℕ) (s : Registry)
    → has_host owner s.hosts ≡ true
    → has_host owner (get_dispatch_hosts now fresh user s).1.hosts ≡ true
unfolding get_dispatch_hosts
get_dispatch_hosts-has_host now fresh user owner s k = ground (
  arith,
  migrate-has_host now fresh user owner (get_user_setting user (text "dispatch.service_url") s)
      (get_user_setting user (text "dispatch.service_api_key") s) s k,
)

pub resolve_remote-Waits :
    (now fresh user : ℕ) (url : Text) (remote : Option ℕ) (r : Run) (project : Option Project)
    (s : Db)
    → Waits r project s
    → Waits r project (resolve_remote now fresh user url remote s).1
resolve_remote-Waits now fresh user url none r project s w = w
resolve_remote-Waits now fresh user url (some rid) r project s w =
    elim (Bool-cases (is_empty url)) [
      | inl empty ↦ rw (empty, resolve_remote) w
      | inr known ↦
          rw (known, resolve_remote)
            (asked (get_dispatch_hosts now fresh user s.registry) (
              get_dispatch_hosts-has_host now fresh user (run_owner r project) s.registry w.hosted))
    ]
  where
    asked :
        (a : Outcome (List HostRow) × Registry)
        → has_host (run_owner r project) a.1.hosts ≡ true
        → Waits r project (ask_hosts rid url a s).1
    asked (Registered.ok rows, registry) h = record {
      there = w.there;
      looked = w.looked;
      hosted = h;
    }
    asked (Registered.err e, registry) h = record { there = w.there; looked = w.looked; hosted = h }

module _ (now run_id : ℕ) (printed : Text) (r : Run) (project : Option Project) where
  write_status-Waits :
      (d : Decision) (o : Option LocalRunStatus) (s : Db)
      → (r.id == run_id) ≡ false
      → Waits r project s
      → Waits r project (write_status now run_id printed d o s).1
  unfolding write_reaped
  write_status-Waits d none s other w = w
  write_status-Waits d (some status) s other w = record {
    there = write_status-kept now run_id printed d (some status) s r.id r (rw other refl) w.there;
    looked = w.looked;
    hosted = w.hosted;
  }

  pub write_decision-Waits :
      (o : Option Decision) (s : Db)
      → (r.id == run_id) ≡ false
      → Waits r project s
      → Waits r project (write_decision now run_id printed o s).1
  write_decision-Waits none s other w = w
  write_decision-Waits (some d) s other w = write_status-Waits d (new_status d) s other w
