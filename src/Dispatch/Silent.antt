-- ===== src/Dispatch/Silent.antt =====
-- What leaves the runs as they are, in the creation of a run.
use mathlib.Core.Path.{subst}
use agent_gtd.Prelude.{
  ℕ, sym, ap, if◌then◌else◌, ◌≡◌, ◌∙◌, refl, arith, Bool, true, false, Option, none, some, List,
  Option-cases, Bool-cases, inl, inr,
}
use agent_gtd.Text.{Text}
use agent_gtd.Rollout.Types.{DispatchMode}
use agent_gtd.Rollout.Db.{Db, Run, Project}
use agent_gtd.Rollout.Access.{get_item, get_item-reads}
use agent_gtd.Rollout.Items.{check_halted_rollout_completion, closable}
use agent_gtd.Rollout.Keeps.{
  Keeps, Keeps-return, Keeps-raise, Keeps-fetch, Keeps-refuse_if, Keeps-bind, keeps_rules,
}
use agent_gtd.Settings.{get_dispatch_hosts}
use agent_gtd.Settings.Types.{HostRow, Registry, Outcome}
use agent_gtd.Settings.Types as Registered
use agent_gtd.Items.{Changes, write_changes, has_updates, closes, update_item, commit_update}
use agent_gtd.Items.Guards.{permitted, update_item-returns}
use agent_gtd.Dispatch.{
  RunRequest, rollout_pin, listed, list_hosts, check_pin, parsed, effective_max_turns, project_of,
  resolve_max_turns, get_project, refuse_locked,
}

get_project-reads : (user a : ℕ) (s : Db) → (get_project user a s).1 ≡ s
unfolding get_project
get_project-reads user a s = ground arith

write_changes-runs : (now a : ℕ) (c : Changes) (s : Db) → (write_changes now a c s).runs ≡ s.runs
write_changes-runs now a c s = elim (Bool-cases (has_updates c)) [
  | inl some_change ↦ rw (some_change, write_changes) refl
  | inr no_change ↦ rw (no_change, write_changes) refl
]

check_halted-runs : (now a : ℕ) (s : Db) → (check_halted_rollout_completion now a s).runs ≡ s.runs
unfolding check_halted_rollout_completion
check_halted-runs now a s = elim (Bool-cases (closable a s)) [
  | inl closing ↦ rw (closing, check_halted_rollout_completion) refl
  | inr staying ↦ rw (staying, check_halted_rollout_completion) refl
]

commit_update-runs : (now a : ℕ) (c : Changes) (s : Db) → (commit_update now a c s).runs ≡ s.runs
unfolding commit_update
commit_update-runs now a c s = elim (Bool-cases (closes c.status)) [
  | inl closing ↦
      rw (closing, commit_update)
        (check_halted-runs now a (write_changes now a c s) ∙ write_changes-runs now a c s)
  | inr staying ↦ rw (staying, commit_update) (write_changes-runs now a c s)
]

update_item-runs :
    (engines : List Text) (now : ℕ) (mode : Option DispatchMode) (version : Option ℕ) (c : Changes)
    (user a : ℕ) (s : Db)
    → (update_item engines now mode version c user a s).1.runs ≡ s.runs
update_item-runs engines now mode version c user a s =
    ap (λ t. t.runs) (update_item-returns engines now mode version c user a s).1
    ∙ if_runs (permitted engines mode version c user a s)
  where
    if_runs : (b : Bool) → (if b then commit_update now a c s else s).runs ≡ s.runs
    if_runs true = commit_update-runs now a c s
    if_runs false = refl

module _ (Q : List Run → Type 0) where
  abbrev pub OnRuns : Db → Type 0
  OnRuns s = Q s.runs

  pub get_item-Keeps : (user a : ℕ) → Keeps OnRuns (get_item user a)
  get_item-Keeps user a = record { at = λ s h. rw (get_item-reads user a s) h }

  refuse_locked-Keeps : (a : ℕ) (o : Option ℕ) → Keeps OnRuns (refuse_locked a o)
  refuse_locked-Keeps a none = Keeps-return tt
  refuse_locked-Keeps a (some r) = Keeps-raise _

  get_project-Keeps : (user a : ℕ) → Keeps OnRuns (get_project user a)
  unfolding get_project
  get_project-Keeps user a = record { at = λ s h. rw (get_project-reads user a s) h }

  pub rollout_pin-Keeps : (user : ℕ) (q : RunRequest) → Keeps OnRuns (rollout_pin user q)
  unfolding rollout_pin
  rollout_pin-Keeps user q = elim (Option-cases q.rollout_id) [
    | inl plain ↦ rw (plain, rollout_pin) (Keeps-return _)
    | inr (r, its) ↦ rw (its, rollout_pin) (search keeps_rules)
  ]

  listed-Keeps : (a : Outcome (List HostRow) × Registry) → Keeps OnRuns (listed a)
  listed-Keeps (Registered.ok rows, registry) = record { at = λ s h. h }
  listed-Keeps (Registered.err e, registry) = record { at = λ s h. h }

  list_hosts-Keeps : (now fresh owner : ℕ) → Keeps OnRuns (list_hosts now fresh owner)
  unfolding list_hosts
  list_hosts-Keeps now fresh owner = record {
    at = λ s h. (listed-Keeps (get_dispatch_hosts now fresh owner s.registry)).at s h;
  }

  pub check_pin-Keeps :
      (now fresh owner : ℕ) (allow : Bool) (host : Option ℕ)
      → Keeps OnRuns (check_pin now fresh owner allow host)
  unfolding check_pin
  check_pin-Keeps now fresh owner allow none = Keeps-return tt
  check_pin-Keeps now fresh owner allow (some id) =
      Keeps-bind _ _ (list_hosts-Keeps now fresh owner) λ hosts. Keeps-refuse_if _ _

  module _ (int : Text → Option ℕ) (turns : ℕ) (engines : List Text) where
    parsed-Keeps : (o : Option Text) → Keeps OnRuns (parsed int turns engines o)
    parsed-Keeps none = Keeps-return turns
    parsed-Keeps (some raw) = elim (Option-cases (int raw)) [
      | inl bad ↦ rw (bad, parsed) (Keeps-raise _)
      | inr (n, good) ↦ rw (good, parsed) (Keeps-return n)
    ]

    pub effective_max_turns-Keeps :
        (p : Project) (mode : DispatchMode) (o : Option ℕ)
        → Keeps OnRuns (effective_max_turns int turns engines p mode o)
    unfolding effective_max_turns
    effective_max_turns-Keeps p mode none = Keeps-bind _ _ (Keeps-fetch _) λ stored.
        Keeps-bind _ _ (parsed-Keeps stored)
          λ d. Keeps-return (resolve_max_turns p.dispatch_max_turns d mode)
    effective_max_turns-Keeps p mode (some n) = Keeps-return n

  pub project_of-Keeps : (user : ℕ) (o : Option ℕ) → Keeps OnRuns (project_of user o)
  project_of-Keeps user none = Keeps-raise _
  project_of-Keeps user (some a) = get_project-Keeps user a

  pub update_item-Keeps :
      (engines : List Text) (now : ℕ) (mode : Option DispatchMode) (version : Option ℕ)
      (c : Changes) (user a : ℕ)
      → Keeps OnRuns (update_item engines now mode version c user a)
  update_item-Keeps engines now mode version c user a = record {
    at = λ s h. subst Q (sym (update_item-runs engines now mode version c user a s)) h;
  }
