-- ===== src/Dispatch/Single.antt =====
-- The run that `create_run` returns, among the runs of its item.
use mathlib.Core.Path.{subst}
use agent_gtd.Prelude.{
  ◌≡◌, ◌∙◌, ℕ, refl, sym, ap, arith, Bool, true, not, ◌&&◌, Option, none, some, List, [], ◌∷◌,
  filter, find?, ◌==◌, ==→≡, find_passes,
}
use agent_gtd.Text.{Text}
use agent_gtd.Exceptions.{
  Result, ok, err, validation_error, already_done, use_dispatch_rollout, blockers_unresolved,
  not_found, EntityType,
}
use agent_gtd.Rollout.Types.{LocalRunStatus, ItemStatus, is_done, is_manage, is_pending_run}
use agent_gtd.Rollout.Db.{Db, Run, Call, Item, Project, fetch, refuse_if, return, ◌>>◌, ◌>>=◌}
use agent_gtd.Rollout.Access.{get_item, item_accessible}
use agent_gtd.Rollout.Plan.Legality.{get_unresolved_blockers, is_nothing}
use agent_gtd.Rollout.Keeps.{Keeps, Keeps-fetch, Keeps-refuse_if}
use agent_gtd.Rollout.Ensures.{Ensures, Ensures-bind, Ensures-return, Ensures-Keeps, ok-injective}
use agent_gtd.Items.{update_item, no_changes}
use agent_gtd.Dispatch.{
  RunRequest, is_rollout_build, refuse_locked, project_of, check_repos, check_active_runs,
  rollout_pin, check_pin, effective_max_turns, insert_run, on_error, set_up_run, fail_setup,
  set_runs, suppress, create_run, create_run_for, is_active_on, is_some,
}
use agent_gtd.Dispatch.Silent.{
  OnRuns, rollout_pin-Keeps, check_pin-Keeps, effective_max_turns-Keeps, update_item-Keeps,
}
use agent_gtd.Dispatch.Stale.{NoActive, check_active_runs-Ensures}
use agent_gtd.Dispatch.Stored.{Alone, Ensures-on_error, insert_run-Ensures, set_up_run-Ensures}

own_active : (a : ℕ) → (a == a && true) ≡ true
own_active a = ground arith

suppress-Keeps :
    {A : Type 0} {P : Db → Type 0} (a : A) (m : Call A) → Keeps P m → Keeps P (suppress a m)
suppress-Keeps a m k = record { at = k.at }

-- The new run is the one active run of its item.
abbrev pub IsSingle : ℕ → ℕ → RunRequest → Run → Db → Type 0
IsSingle run_id item_id q r s =
    (filter (is_active_on item_id) s.runs ≡ r ∷ [])
    × (r.id ≡ run_id)
    × (is_pending_run r.status ≡ true)
    × (r.rollout_id ≡ q.rollout_id)

module _ (int : Text → Option ℕ) (turns : ℕ) (engines : List Text) (now run_id fresh user : ℕ)
    (q : RunRequest) (item : Item) where
  abbrev inserted : Project → Option ℕ → ℕ → Run
  inserted project host max = record {
    id = run_id;
    item_id = some item.id;
    rollout_id = q.rollout_id;
    mode = q.mode;
    status = LocalRunStatus.pending;
    remote_run_id = none;
    finished_at = none;
    error_msg = [];
    user_id = user;
    project_id = project.id;
    created_at = some now;
    started_at = none;
    dispatch_host_url = [];
    dispatch_host_id = host;
    allow_drained_host = q.allow_drained_host && is_some host;
    max_turns = max;
    engine_actual = none;
  }

  abbrev Idle : Db → Type 0
  Idle = OnRuns (NoActive now item.id)

  trivial : {A : Type 0} {m : Call A} → Keeps (λ s. Unit) m
  trivial = record { at = λ s h. tt }

  -- From the insertion on.
  store-Ensures :
      (project : Project) (host : Option ℕ) (max : ℕ)
      → Ensures Idle
          (insert_run (inserted project host max)
            >> (on_error
                  (set_up_run run_id item.id (is_rollout_build q))
                  (set_runs (fail_setup now run_id))
                >>= λ row.
                    suppress tt (
                      update_item engines now none none
                        (record no_changes { status = some ItemStatus.active })
                        user
                        item.id)
                    >> return row))
          (IsSingle run_id item.id q)
  store-Ensures project host max =
      let n = inserted project host max in
      let on : is_active_on item.id n ≡ true = own_active item.id in
      let alone = OnRuns (Alone item.id n) in
      Ensures-bind (λ u. alone) _ (insert_run n) _ (insert_run-Ensures item.id n on now)
        λ u.
          Ensures-bind (λ a s. (a ≡ n) × alone s) _ _ _
            (Ensures-on_error _ (set_up_run run_id item.id (is_rollout_build q))
              (set_runs (fail_setup now run_id))
              (set_up_run-Ensures item.id n on (is_rollout_build q)))
            λ a.
              let its : List Run → Type 0 = λ runs. (a ≡ n) × Alone item.id n runs in
              let upd =
                update_item engines now none none
                  (record no_changes { status = some ItemStatus.active }) user item.id in
              Ensures-bind (λ u. OnRuns its) _ (suppress tt upd) _
                (Ensures-Keeps _ (
                  suppress-Keeps tt upd
                    (update_item-Keeps its engines now none none _ user item.id)))
                λ u. Ensures-return a _ λ s (same, (only, found)).
                  subst (λ r. IsSingle run_id item.id q r s) (sym same) (only, refl, refl, refl)

  place-Ensures :
      (project : Project)
      → Ensures Idle
          (rollout_pin user q >>= λ host.
            check_pin now fresh project.user_id q.allow_drained_host host
            >> (effective_max_turns int turns engines project q.mode q.max_turns >>= λ max.
                insert_run (inserted project host max)
                >> (on_error
                      (set_up_run run_id item.id (is_rollout_build q))
                      (set_runs (fail_setup now run_id))
                    >>= λ row.
                        suppress tt (
                          update_item engines now none none
                            (record no_changes { status = some ItemStatus.active })
                            user
                            item.id)
                        >> return row)))
          (IsSingle run_id item.id q)
  place-Ensures project =
      let idle_of = NoActive now item.id in
      let allow = q.allow_drained_host in
      Ensures-bind (λ h. Idle) _ (rollout_pin user q) _
        (Ensures-Keeps _ (rollout_pin-Keeps idle_of user q))
        λ host.
          Ensures-bind (λ u. Idle) _ (check_pin now fresh project.user_id allow host) _
            (Ensures-Keeps _ (check_pin-Keeps idle_of now fresh project.user_id allow host))
            λ u.
              Ensures-bind (λ m. Idle) _
                (effective_max_turns int turns engines project q.mode q.max_turns) _
                (Ensures-Keeps _
                  (effective_max_turns-Keeps idle_of int turns engines project q.mode q.max_turns))
                λ max. store-Ensures project host max

  create_run_for-Ensures :
      Ensures
        (λ s. Unit)
        (create_run_for int turns engines now run_id fresh user q item)
        (IsSingle run_id item.id q)
  unfolding create_run_for
  create_run_for-Ensures =
      let any_db : Db → Type 0 = λ s. Unit in
      Ensures-bind (λ u. any_db) _
        (refuse_if (is_rollout_build q && is_done item.status) (validation_error already_done)) _
        (Ensures-Keeps _ trivial)
        λ u.
          Ensures-bind (λ u. any_db) _ (refuse_locked item.id item.locked_by_rollout_id) _
            (Ensures-Keeps _ trivial)
            λ u.
              Ensures-bind (λ u. any_db) _ (project_of user item.project_id) _
                (Ensures-Keeps _ trivial)
                λ project.
                  Ensures-bind (λ u. any_db) _ (check_repos project) _ (Ensures-Keeps _ trivial)
                    λ u.
                      Ensures-bind (λ u. Idle) _ (check_active_runs now item.id) _
                        (check_active_runs-Ensures now item.id)
                        λ u.
                          Ensures-bind (λ x. Idle) _
                            (fetch (λ s. get_unresolved_blockers s item.id)) _
                            (Ensures-Keeps _ (Keeps-fetch (λ s. get_unresolved_blockers s item.id)))
                            λ unresolved.
                              Ensures-bind (λ u. Idle) _
                                (refuse_if (not (is_nothing unresolved))
                                  (blockers_unresolved unresolved))
                                _
                                (Ensures-Keeps _ (
                                  Keeps-refuse_if (not (is_nothing unresolved))
                                    (blockers_unresolved unresolved)))
                                λ u. place-Ensures project

item_answer : ℕ → Db → Option Item → Result Item × Db
item_answer a s o = elim o [ none ↦ (err (not_found EntityType.item a), s) | some i ↦ (ok i, s) ]

item_answer-id :
    (a : ℕ) (s : Db) (o : Option Item)
    → ((j : Item) → o ≡ some j → j.id ≡ a)
    → (i : Item) → (item_answer a s o).0 ≡ ok i
    → i.id ≡ a
unfolding item_answer
item_answer-id a s none k i h = ground arith
item_answer-id a s (some j) k i h = ap (λ x. x.id) (sym (ok-injective j i h)) ∙ k j refl

get_item-id : (user a : ℕ) (s : Db) (i : Item) → (get_item user a s).0 ≡ ok i → i.id ≡ a
unfolding get_item item_answer
get_item-id user a s i h =
    let own : Item → Bool = λ j. j.id == a && item_accessible s user j in
    item_answer-id a s (find? own s.items)
      (λ j f. ==→≡ j.id a (and_true _ _ (find_passes own j s.items f))) i h
  where
    and_true : (b c : Bool) → (b && c) ≡ true → b ≡ true
    and_true b c h = ground arith

-- A dispatch that returns has made one run: the run that it returns has the new id, is pending, is
-- of the rollout that was named, and is the only active run of the item; whatever active runs the
-- item had before, and whichever of them were stale.
pub create_run-IsSingle :
    (int : Text → Option ℕ) (default_max_turns : ℕ) (engines : List Text)
    (now run_id fresh user item_id : ℕ) (q : RunRequest) (s : Db) (r : Run)
    → (create_run int default_max_turns engines now run_id fresh user item_id q s).0 ≡ ok r
    → IsSingle run_id item_id q r
        (create_run int default_max_turns engines now run_id fresh user item_id q s).1
unfolding create_run
create_run-IsSingle int turns engines now run_id fresh user item_id q s r e = made.after s tt r e
  where
    made :
        Ensures
          (λ s. Unit)
          (create_run int turns engines now run_id fresh user item_id q)
          (IsSingle run_id item_id q)
    made =
        Ensures-bind (λ u s. Unit) _
          (refuse_if (is_manage q.mode) (validation_error use_dispatch_rollout)) _
          record { after = λ s h a e. tt }
          λ u.
            Ensures-bind (λ i s. i.id ≡ item_id) _ (get_item user item_id) _
              record { after = λ s h i e. get_item-id user item_id s i e }
              λ i. record {
                after = λ s own r e.
                    subst
                      (λ a.
                        IsSingle run_id a q r
                          (create_run_for int turns engines now run_id fresh user q i s).1)
                      own
                      ((create_run_for-Ensures int turns engines now run_id fresh user q i).after s
                        tt r e);
              }
