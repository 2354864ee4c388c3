-- ===== src/Blockers.antt =====
-- The blockers of src/agent_gtd/services/item_service.py: `_would_create_cycle`, `add_blocker` and
-- `remove_blocker`.
pub mod Scan
pub mod Search
pub mod Graph
pub mod Calls
use agent_gtd.Prelude.{
  ℕ, zero, suc, ◌+◌, Bool, true, false, not, ◌&&◌, ◌||◌, Option, none, some, List, [], ◌∷◌, ◌++◌,
  map, ◌==◌, if◌then◌else◌, filter, any, length,
}
use agent_gtd.Prelude.Members.{mem}
use agent_gtd.Exceptions.{
  validation_error, self_block, cross_project, would_create_cycle as cycle_refused,
}
use agent_gtd.Dag.{Dependency}
use agent_gtd.Rollout.Db.{Db, Call, Item, execute, fetch, raise, return, refuse_if, ◌>>=◌, ◌>>◌}
use agent_gtd.Rollout.Access.{get_item}
use agent_gtd.Rollout.Plan.Legality.{same_project}

-- SELECT blocker_item_id FROM item_dependencies WHERE item_id = $1
abbrev pub blockers_of : List Dependency → ℕ → List ℕ
blockers_of rows a = map (λ r. r.blocker_item_id) (filter (λ r. r.item_id == a) rows)

-- What a pass over the rows of one item comes to: the item itself, or `visited` and `queue`.
pub data Pass : Type 0 where
  found : Pass
  more : List ℕ → List ℕ → Pass

-- `for r in rows`. The head of `queue` is its end, at which the code appends and pops.
unfoldable pub scan : ℕ → List ℕ → List ℕ → List ℕ → Pass
scan item_id [] visited queue = more visited queue
scan item_id (b ∷ bs) visited queue =
    let rest =
      scan item_id bs (if mem b visited then visited else b ∷ visited)
        (if mem b visited then queue else b ∷ queue) in
    if b == item_id then found else rest

-- `while queue`; `none` is: the fuel ran out.
unfoldable pub search_from : ℕ → List Dependency → ℕ → List ℕ → List ℕ → Option Bool
search_from fuel rows item_id visited [] = some false
search_from zero rows item_id visited (current ∷ queue) = none
search_from (suc fuel) rows item_id visited (current ∷ queue) =
    elim (scan item_id (blockers_of rows current) visited queue) [
      | found ↦ some true
      | more visited' queue' ↦ search_from fuel rows item_id visited' queue'
    ]

-- Every pop is of the start or of a blocker that some row names for the first time.
unfoldable pub would_create_cycle : List Dependency → ℕ → ℕ → Option Bool
would_create_cycle rows item_id blocker_item_id =
    search_from (length rows + 1) rows item_id (blocker_item_id ∷ []) (blocker_item_id ∷ [])

-- The fuel never runs out (`would_create_cycle_iff`).
abbrev pub found_cycle : Option Bool → Bool
found_cycle none = true
found_cycle (some b) = b

abbrev pub has_dependency : ℕ → ℕ → List Dependency → Bool
has_dependency item_id blocker_item_id rows =
    any (λ r. r.item_id == item_id && r.blocker_item_id == blocker_item_id) rows

abbrev pub dependency : ℕ → ℕ → Dependency
dependency item_id blocker_item_id = record { item_id = item_id; blocker_item_id = blocker_item_id }

unfoldable pub insert_dependency : ℕ → ℕ → Call (Unit {0})
insert_dependency item_id blocker_item_id = do
  rows ← fetch (λ s. s.dependencies)
  if has_dependency item_id blocker_item_id rows then return tt else do
    refuse_if (found_cycle (would_create_cycle rows item_id blocker_item_id))
        (validation_error cycle_refused)
    execute
        (λ s. record s { dependencies = s.dependencies ++ dependency item_id blocker_item_id ∷ [] })

-- The summary of the blocker that the code returns is left out.
unfoldable pub add_blocker : ℕ → ℕ → ℕ → Call (Unit {0})
add_blocker user_id item_id blocker_item_id = do
  refuse_if (item_id == blocker_item_id) (validation_error self_block)
  item_row ← get_item user_id item_id
  blocker_row ← get_item user_id blocker_item_id
  refuse_if (not (same_project item_row.project_id blocker_row.project_id))
      (validation_error cross_project)
  insert_dependency item_id blocker_item_id

unfoldable pub remove_blocker : ℕ → ℕ → ℕ → Call (Unit {0})
remove_blocker user_id item_id blocker_item_id = do
  get_item user_id item_id
  execute (λ s. record s {
    dependencies =
        filter (λ r. not (r.item_id == item_id && r.blocker_item_id == blocker_item_id))
          s.dependencies;
  })
