-- ===== src/Examples/Items.antt =====
-- Updates of the first item of Examples/Data.
use agent_gtd.Prelude.{◌≡◌, ◌≢◌, ◌⊎◌, false, refl, true, none, some, List, [], ◌∷◌}
use agent_gtd.Text.{Text, text}
use agent_gtd.Exceptions.{AgentGtdError, ok, err}
use agent_gtd.Rollout.Types.{ItemStatus}
use agent_gtd.Rollout.Access.{get_item, item_accessible, project_accessible}
use agent_gtd.Rollout.Plan.Legality.{get_unresolved_blockers}
use agent_gtd.Items.{
  Changes, no_changes, update_item, check_update, check_move, refuses_engine, refuses_commit_type,
  overrides_engine,
}
use agent_gtd.Items.Asks.{may_update}
use agent_gtd.Items.Effect.{IsUpdated, update_item-outcome}
use agent_gtd.Items.Version.{update_item_once}
use agent_gtd.Items.Stamps.{stamped, stamped-update_item}
use agent_gtd.Items.{claim_item}
use agent_gtd.Items.Complete.{finish}
use agent_gtd.Items.Calls.{ItemCall, updates, claims, releases, completes, call_items}
use agent_gtd.Items.Claims.{claim_item-excludes}
use agent_gtd.Examples.Data.{ready_db}

abbrev engines : List Text
engines = text "engine" ∷ []

abbrev activate : Changes
activate = record no_changes { status = some ItemStatus.active }

update_item-outcome_example :
    let done = update_item engines 120 none (some 0) activate 5 1 ready_db in
    ((may_update engines none (some 0) activate 5 1 ready_db ≡ false)
      × (e : AgentGtdError) × (done ≡ (err e, ready_db)))
    ⊎ ((may_update engines none (some 0) activate 5 1 ready_db ≡ true)
        × (done.0 ≡ ok tt)
        × IsUpdated activate 1 ready_db.items done.1.items)
update_item-outcome_example =
    update_item-outcome engines 120 none (some 0) activate 5 1 ready_db (refl, (refl, tt))

activated : (update_item engines 120 none (some 0) activate 5 1 ready_db).0 ≡ ok tt
unfolding update_item refuses_engine refuses_commit_type get_item item_accessible project_accessible
    check_update overrides_engine get_unresolved_blockers check_move
activated = refl

-- A claim and a release of the item, and a completion of another.
abbrev between : List ItemCall
between =
    claims 121 5 1 (text "ada")
    ∷ releases 122 5 1
    ∷ completes 123 5 2
    ∷ updates 124 none none activate 5 1
    ∷ []

update_item_once_example :
    (update_item engines 125 none (some 0) finish 5 1 (
      call_items engines between (update_item engines 120 none (some 0) activate 5 1 ready_db).1)).0
    ≢ ok tt
update_item_once_example =
    update_item_once engines 120 none 0 activate 5 1 ready_db (refl, (refl, tt)) refl activated
      between 125 none finish 5

stamped-update_item_example :
    stamped (update_item engines 120 none (some 0) finish 5 1 ready_db).1.items ≡ true
stamped-update_item_example = stamped-update_item engines 120 none (some 0) finish 5 1 ready_db refl

claim_run : (claim_item engines 120 5 1 (text "ada") ready_db).0 ≡ ok tt
unfolding claim_item update_item refuses_engine refuses_commit_type get_item item_accessible
    project_accessible check_update overrides_engine get_unresolved_blockers check_move
claim_run = refl

-- Calls that leave the item with the agent.
abbrev elsewhere : List ItemCall
elsewhere = updates 121 none none activate 5 1 ∷ releases 122 5 2 ∷ claims 123 5 1 (text "cyd") ∷ []

claim_item-excludes_example :
    (claim_item engines 124 5 1
      (text "bob")
      (call_items engines elsewhere (claim_item engines 120 5 1 (text "ada") ready_db).1)).0
    ≢ ok tt
claim_item-excludes_example =
    claim_item-excludes engines 120 5 1 (text "ada") ready_db (refl, (refl, tt)) refl claim_run
      elsewhere refl 124 5 (text "bob") refl
