-- ===== src/Items.antt =====
-- src/agent_gtd/services/item_service.py: `update_item`, `claim_item` and `release_item`. The
-- columns that the model does not have are changed by `other`, a change that only the version
-- shows.
pub mod Guards
pub mod Rows
pub mod Calls
pub mod Version
pub mod Stamps
pub mod Complete
pub mod Claims
pub mod Asks
pub mod Effect
use agent_gtd.Prelude.{
  ℕ, ◌+◌, Bool, true, false, not, ◌&&◌, ◌||◌, Option, none, some, List, [], ◌∷◌, ◌++◌, map, ◌==◌,
  if◌then◌else◌,
}
use agent_gtd.Text.{Text, text, is_empty, same_text, mem_text}
use agent_gtd.Exceptions.{
  ok, validation_error, bad_build_engine, bad_commit_type, version_conflict, already_claimed,
  rollout_item_locked, plan_engine_override, blockers_unresolved,
}
use agent_gtd.Rollout.Types.{ItemStatus, DispatchMode, is_closed_item, is_done}
use agent_gtd.Rollout.Db.{Db, Call, Item, execute, fetch, raise, return, refuse_if, ◌>>=◌, ◌>>◌}
use agent_gtd.Rollout.Access.{get_item, verify_project_access}
use agent_gtd.Rollout.Items.{check_halted_rollout_completion}
use agent_gtd.Rollout.Plan.Legality.{get_unresolved_blockers, is_nothing}

-- The arguments; `none` is: unchanged. For the project and the engine it is: not `..._set`.
pub record Changes : Type 0 where
  pub project_id : Option (Option ℕ)
  pub status : Option ItemStatus
  pub assigned_to : Option Text
  pub build_engine : Option (Option Text)
  pub commit_type : Option Text
  pub acceptance_criteria : Option (List Text)
  pub files_to_modify : Option (List Text)
  pub other : Bool

abbrev pub is_set : {A : Type 0} → Option A → Bool
is_set none = false
is_set (some x) = true

abbrev pub or_old : {A : Type 0} → Option A → A → A
or_old none old = old
or_old (some x) old = x

-- A NULL engine reads as the empty text.
abbrev pub or_null : Option Text → Text
or_null none = []
or_null (some t) = t

abbrev pub is_active : ItemStatus → Bool
is_active ItemStatus.active = true
is_active _ = false

abbrev pub is_plan : Option DispatchMode → Bool
is_plan (some DispatchMode.plan) = true
is_plan _ = false

abbrev pub allowed_commit_types : List Text
allowed_commit_types =
    text "feat"
    ∷ text "fix"
    ∷ text "perf"
    ∷ text "refactor"
    ∷ text "test"
    ∷ text "docs"
    ∷ text "chore"
    ∷ []

-- The engines are those of the package agent_gtd_dispatch_protocol.
unfoldable pub refuses_engine : List Text → Option (Option Text) → Bool
refuses_engine allowed_build_engines none = false
refuses_engine allowed_build_engines (some none) = false
refuses_engine allowed_build_engines (some (some t)) = not (mem_text t allowed_build_engines)

-- `_validate_commit_type`
unfoldable pub refuses_commit_type : Option Text → Bool
refuses_commit_type none = false
refuses_commit_type (some t) = not (is_empty t) && not (mem_text t allowed_commit_types)

abbrev pub same_engine : Option Text → Text → Bool
same_engine none current = false
same_engine (some t) current = same_text t current

-- `blocked`
unfoldable pub overrides_engine : Option DispatchMode → Option (Option Text) → Text → Bool
overrides_engine mode none current = false
overrides_engine mode (some attempted) current =
    is_plan mode && not (is_empty current) && not (same_engine attempted current)

abbrev pub conflicts : Option ℕ → ℕ → Bool
conflicts none current = false
conflicts (some v) current = not (current == v)

-- From another status to active.
abbrev pub activates : Option ItemStatus → ItemStatus → Bool
activates none old = false
activates (some status) old = is_active status && not (is_active old)

-- The guards of `project_id_set`.
unfoldable pub check_move : ℕ → ℕ → Option ℕ → Option (Option ℕ) → Call (Unit {0})
check_move user_id item_id lock none = return tt
check_move user_id item_id (some rollout_id) (some target) =
    raise (rollout_item_locked item_id rollout_id)
check_move user_id item_id none (some none) = return tt
check_move user_id item_id none (some (some p)) = verify_project_access p user_id

-- `updates` is not empty.
abbrev pub has_updates : Changes → Bool
has_updates c =
    c.other
    || is_set c.project_id
    || is_set c.status
    || is_set c.assigned_to
    || is_set c.build_engine
    || is_set c.commit_type
    || is_set c.acceptance_criteria
    || is_set c.files_to_modify

abbrev pub stamp : ℕ → Option ItemStatus → ItemStatus → Option ℕ → Option ℕ
stamp now none old completed_at = completed_at
stamp now (some status) old completed_at =
    if is_done status
    then (if is_done old then completed_at else some now)
    else (if is_done old then none else completed_at)

abbrev pub change : ℕ → Changes → Item → Item
change now c i = record i {
  project_id = or_old c.project_id i.project_id;
  status = or_old c.status i.status;
  completed_at = stamp now c.status i.status i.completed_at;
  assigned_to = or_old c.assigned_to i.assigned_to;
  build_engine = elim c.build_engine [ none ↦ i.build_engine | some t ↦ or_null t ];
  commit_type = or_old c.commit_type i.commit_type;
  acceptance_criteria = or_old c.acceptance_criteria i.acceptance_criteria;
  files_to_modify = or_old c.files_to_modify i.files_to_modify;
  version = i.version + 1;
}

abbrev pub change_at : ℕ → ℕ → Changes → List Item → List Item
change_at now item_id c items = map (λ i. if i.id == item_id then change now c i else i) items

abbrev pub write_changes : ℕ → ℕ → Changes → Db → Db
write_changes now item_id c s =
    if has_updates c then record s { items = change_at now item_id c s.items } else s

-- `status in _terminal`
abbrev pub closes : Option ItemStatus → Bool
closes none = false
closes (some t) = is_closed_item t

-- `attempted`
abbrev pub attempted_of : Option (Option Text) → Option Text
attempted_of none = none
attempted_of (some t) = t

abbrev pub expected_of : Option ℕ → ℕ
expected_of none = 0
expected_of (some v) = v

-- The guards that look at the row, in the order of the code.
unfoldable pub check_update :
    ℕ → ℕ → Option DispatchMode → Option ℕ → Changes → Item → Call (Unit {0})
check_update user_id item_id mode version c existing = do
  refuse_if (overrides_engine mode c.build_engine existing.build_engine)
      (plan_engine_override item_id existing.build_engine (attempted_of c.build_engine))
  refuse_if (conflicts version existing.version)
      (version_conflict item_id (expected_of version) existing.version)
  unresolved ← fetch (λ s. get_unresolved_blockers s item_id)
  refuse_if (activates c.status existing.status && not (is_nothing unresolved))
      (blockers_unresolved unresolved)
  check_move user_id item_id existing.locked_by_rollout_id c.project_id

-- The UPDATE, and what follows it.
unfoldable pub commit_update : ℕ → ℕ → Changes → Db → Db
commit_update now item_id c s =
    let t = write_changes now item_id c s in
    if closes c.status then check_halted_rollout_completion now item_id t else t

abbrev pub no_changes : Changes
no_changes = record {
  project_id = none;
  status = none;
  assigned_to = none;
  build_engine = none;
  commit_type = none;
  acceptance_criteria = none;
  files_to_modify = none;
  other = false;
}

abbrev pub assign : Text → Changes
assign agent_name = record no_changes { assigned_to = some agent_name }

module _ (allowed_build_engines : List Text) where
  unfoldable pub update_item :
      ℕ → Option DispatchMode → Option ℕ → Changes → ℕ → ℕ → Call (Unit {0})
  update_item now mode version c user_id item_id = do
    refuse_if (refuses_engine allowed_build_engines c.build_engine)
        (validation_error bad_build_engine)
    refuse_if (refuses_commit_type c.commit_type) (validation_error bad_commit_type)
    existing ← get_item user_id item_id
    check_update user_id item_id mode version c existing
    execute (commit_update now item_id c)

  unfoldable pub claim_item : ℕ → ℕ → ℕ → Text → Call (Unit {0})
  claim_item now user_id item_id agent_name = do
    existing ← get_item user_id item_id
    refuse_if
        (not (is_empty existing.assigned_to) && not (same_text existing.assigned_to agent_name))
        (already_claimed item_id existing.assigned_to)
    if same_text existing.assigned_to agent_name
        then return tt
        else update_item now none none (assign agent_name) user_id item_id

  unfoldable pub release_item : ℕ → ℕ → ℕ → Call (Unit {0})
  release_item now user_id item_id = update_item now none none (assign []) user_id item_id
