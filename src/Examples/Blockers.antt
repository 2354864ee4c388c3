-- ===== src/Examples/Blockers.antt =====
-- Runs of the theorems on blockers.
use agent_gtd.Prelude.{ℕ, ◌≡◌, ◌⊎◌, ◌↔◌, refl, arith, Bool, true, some, List, [], ◌∷◌, map}
use agent_gtd.Exceptions.{ok}
use agent_gtd.Graph.{Reaches, edge, via}
use agent_gtd.Dag.{Dependency, blocker_edge}
use agent_gtd.Rollout.Db.{Db}
use agent_gtd.Rollout.Access.{get_item, item_accessible, project_accessible}
use agent_gtd.Blockers.{
  would_create_cycle, dependency, has_dependency, add_blocker, remove_blocker, insert_dependency,
  search_from, scan,
}
use agent_gtd.Blockers.Search.{would_create_cycle_iff}
use agent_gtd.Blockers.Graph.{edges_of}
use agent_gtd.Blockers.Calls.{
  may_block, add_blocker-returns, Change, add, remove, apply_changes, apply_changes-IsAcyclic,
  IsAcyclic,
}
use agent_gtd.Examples.Data.{ready_db}

abbrev chain : List Dependency
chain = dependency 2 1 ∷ dependency 3 2 ∷ []

would_create_cycle_iff_example :
    (b : Bool) × (would_create_cycle chain 1 3 ≡ some b)
    × ((b ≡ true) ↔ Reaches (map blocker_edge chain) 1 3)
would_create_cycle_iff_example = would_create_cycle_iff chain 1 3

abbrev blocked_db : Db
blocked_db = record ready_db { dependencies = dependency 2 1 ∷ [] }

add_blocker-returns_example : ((add_blocker 5 1 2 blocked_db).0 ≡ ok tt) ↔ (
    (may_block 5 1 2 blocked_db ≡ true)
    × ((has_dependency 1 2 blocked_db.dependencies ≡ true)
        ⊎ ¬ (Reaches (edges_of blocked_db.dependencies) 1 2)))
add_blocker-returns_example = add_blocker-returns 5 1 2 blocked_db

-- The first call is made, the second would close a cycle, and after the third it would not.
abbrev changes : List Change
changes = add 5 2 1 ∷ add 5 1 2 ∷ remove 5 2 1 ∷ add 5 1 2 ∷ []

no_blockers : (v : ℕ) → ¬ (Reaches (edges_of []) v v)
no_blockers v (edge h) = ground arith
no_blockers v (via p h) = ground arith

apply_changes-IsAcyclic_example : IsAcyclic (apply_changes changes ready_db)
apply_changes-IsAcyclic_example =
    apply_changes-IsAcyclic changes ready_db (record { acyclic = no_blockers })

apply_changes_run : (apply_changes changes ready_db).dependencies ≡ dependency 1 2 ∷ []
unfolding apply_changes add_blocker remove_blocker insert_dependency get_item item_accessible
    project_accessible would_create_cycle search_from scan
apply_changes_run = refl
