-- ===== src/Rollout/Plan.antt =====
-- `plan_rollout` of rollout_service.py. How two `files_to_modify` paths are compared, and whether a
-- user has a dispatch host configured, are arguments. The database is seen from the rollout that
-- the call creates: until its row is inserted, it has no items, no plan and no events.
pub mod Legality
pub mod Contract
pub mod Planned
pub mod Sound
use agent_gtd.Prelude.{
  ℕ, ◌+◌, Bool, true, false, not, ◌&&◌, ◌||◌, Option, none, some, List, [], ◌∷◌, ◌++◌, map, ◌==◌,
  if◌then◌else◌, filter, find?, any, length,
}
use agent_gtd.Prelude.Members.{mem}
use agent_gtd.Text.{Text, is_empty}
use agent_gtd.Exceptions.{
  Result, ok, err, AgentGtdError, validation_error, no_items, no_dispatch_config, no_project,
  integrity_error,
}
use agent_gtd.Graph.{Edge}
use agent_gtd.Dag.{derive_edges}
use agent_gtd.Dag.Kahn.{update}
use agent_gtd.Rollout.Types.{RolloutStatus, RolloutItemStatus, RolloutEventKind, RolloutEventActor}
use agent_gtd.Rollout.Db.{
  Db, Call, Wave, RolloutItem, Item, Project, Payload, execute, fetch, raise, return, refuse_if,
  ◌>>=◌, ◌>>◌,
}
use agent_gtd.Rollout.Events.{append_rollout_event}
use agent_gtd.Rollout.Access.{get_item}
use agent_gtd.Rollout.Plan.Legality.{is_nothing, validate_legality_contract}

-- `_item_paths`, and the dictionary `id_to_paths` of `compute_overlap_edges`.
abbrev pub item_paths : Item → List Text
item_paths i = filter (λ p. not (is_empty p)) i.files_to_modify

abbrev pub paths_of : List Item → ℕ → List Text
paths_of items a = elim (find? (λ i. i.id == a) items) [ none ↦ [] | some i ↦ item_paths i ]

-- Step 2.
unfoldable pub get_items : ℕ → List ℕ → Call (List Item)
get_items user_id [] = return []
get_items user_id (a ∷ rest) = do
  i ← get_item user_id a
  others ← get_items user_id rest
  return (i ∷ others)

abbrev pub first_project : List Item → Option ℕ
first_project [] = none
first_project (i ∷ rest) = i.project_id

-- SELECT user_id FROM projects WHERE id = $1
abbrev pub owner_of : Db → Option ℕ → Option ℕ
owner_of s none = none
owner_of s (some p) = elim (find? (λ r. r.id == p) s.projects) [
  | none ↦ none
  | some r ↦ some (r.user_id)
]

-- The INSERT of step 4.
abbrev pub open_wave : ℕ → ℕ → ℕ → ℕ → Db → Db
open_wave now rollout_id project_id user_id s = record s {
  wave = record {
    id = rollout_id;
    project_id = project_id;
    lead_user_id = user_id;
    status = RolloutStatus.planning;
    halt_reason = none;
    started_at = some now;
    ended_at = none;
    updated_at = now;
    dispatch_host_id = none;
    manager_phase = none;
    manager_current_item_id = none;
    manager_current_step = none;
    manager_state_updated_at = none;
  };
  rows = [];
  plan = none;
  events = [];
}

abbrev pub set_status_of : RolloutStatus → ℕ → Db → Db
set_status_of status now s = record s {
  wave = record (s.wave) { status = status; updated_at = now };
}

-- The text of the error, which the code writes to `halt_reason`.
abbrev pub fail_wave : ℕ → Text → Db → Db
fail_wave now detail s = record s {
  wave = record (s.wave) {
    status = RolloutStatus.failed;
    halt_reason = some detail;
    updated_at = now;
  };
}

-- Step 7: an edge counts at its target, if that is a node.
unfoldable pub tally : List ℕ → (ℕ → ℕ) → List Edge → ℕ → ℕ
tally nodes d [] = d
tally nodes d (e ∷ es) =
    tally nodes (if mem e.to_item_id nodes then update d e.to_item_id (d e.to_item_id + 1) else d)
      es

abbrev pub new_row : (ℕ → ℕ) → ℕ → RolloutItem
new_row in_degree a = record {
  item_id = a;
  status = if in_degree a == 0 then RolloutItemStatus.ready else RolloutItemStatus.pending;
  claude_run_id = none;
  completed_at = none;
  merge_actor = none;
}

-- Step 8. The primary key refuses a second row for an item.
unfoldable pub insert_items : (ℕ → ℕ) → List ℕ → Call (Unit {0})
insert_items in_degree [] = return tt
insert_items in_degree (a ∷ rest) = do
  rows ← fetch (λ s. s.rows)
  refuse_if (any (λ r. r.item_id == a) rows) integrity_error
  execute (λ s. record s { rows = s.rows ++ new_row in_degree a ∷ [] })
  insert_items in_degree rest

-- Steps 6 to 10. The answer is the plan.
unfoldable pub store_plan : ℕ → List ℕ → List Edge → Call (List Edge)
store_plan now item_ids edges = do
  execute (λ s. record s { plan = some edges })
  insert_items (tally item_ids (λ a. 0) edges) item_ids
  execute (set_status_of RolloutStatus.pending now)
  append_rollout_event RolloutEventKind.wave_planned RolloutEventActor.manager
      (Payload.planned_of (length item_ids)) []
  return edges

-- Step 5's `except`: the rollout fails, and the error goes on.
-- `describe` is `str(exc)`.
unfoldable pub store_or_fail :
    (AgentGtdError → Text) → ℕ → List ℕ → Result (List Edge) → Call (List Edge)
store_or_fail describe now item_ids (ok edges) = store_plan now item_ids edges
store_or_fail describe now item_ids (err e) = execute (fail_wave now (describe e)) >> raise e

module _ (paths_overlap : Text → Text → Bool) (has_dispatch_config : ℕ → Bool)
    (describe : AgentGtdError → Text) where
  -- From the project's row on.
  unfoldable pub create_plan :
      ℕ → ℕ → ℕ → List ℕ → List Item → Option ℕ → Option ℕ → Call (List Edge)
  create_plan now user_id rollout_id item_ids items (some project_id) (some owner) = do
    refuse_if (not (has_dispatch_config owner)) (validation_error no_dispatch_config)
    execute (open_wave now rollout_id project_id user_id)
    derived ← fetch (λ s. derive_edges paths_overlap (paths_of items) s.dependencies item_ids)
    store_or_fail describe now item_ids derived
  create_plan now user_id rollout_id item_ids items _ _ = raise (validation_error no_project)

  unfoldable pub plan_rollout : ℕ → ℕ → ℕ → List ℕ → Call (List Edge)
  plan_rollout now user_id rollout_id item_ids = do
    refuse_if (is_nothing item_ids) (validation_error no_items)
    validate_legality_contract user_id item_ids
    items ← get_items user_id item_ids
    let project_id = first_project items
    owner ← fetch (λ s. owner_of s project_id)
    create_plan now user_id rollout_id item_ids items project_id owner
