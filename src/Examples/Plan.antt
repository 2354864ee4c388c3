-- ===== src/Examples/Plan.antt =====
-- A rollout planned of two items that touch a common file.
use agent_gtd.Prelude.{◌≡◌, ◌↔◌, refl, true, false, List, [], ◌∷◌}
use agent_gtd.Text.{same_text}
use agent_gtd.Exceptions.{Result, ok}
use agent_gtd.Graph.{Edge}
use agent_gtd.Rollout.Db.{Db, Item}
use agent_gtd.Rollout.Precedence.{IsOrdered}
use agent_gtd.Rollout.Sequence.{IsNumbered}
use agent_gtd.Rollout.History.{Message, run, link, cancel}
use agent_gtd.Rollout.Plan.Legality.{legal, has_several, validate_legality_contract}
use agent_gtd.Rollout.Plan.Contract.{found_items, validate_legality_contract_iff}
use agent_gtd.Rollout.Plan.Planned.{IsPlanned}
use agent_gtd.Rollout.Plan.Sound.{Derived, plan_rollout_sound, planned_history}
use agent_gtd.Rollout.Plan.{plan_rollout, get_items}
use agent_gtd.Rollout.Plan.{create_plan, store_or_fail, store_plan, insert_items, tally}
use agent_gtd.Rollout.Plan.Legality.{check_each, item_failures, get_unresolved_blockers}
use agent_gtd.Rollout.Access.{get_item, item_accessible, project_accessible}
use agent_gtd.Rollout.Events.{append_rollout_event}
use agent_gtd.Dag.{
  derive_edges, compute_blocker_edges, compute_overlap_edges, merge_edges, merge_from,
  raise_if_cyclic, fetch_dependency_pairs, sort, insert, key_le, order, overlap_row, items_overlap,
}
use agent_gtd.Dag.Kahn.{assert_acyclic, build_tables, add_edges, add_edge, drain, relax, verdict}
use agent_gtd.Examples.Data.{first_before_second, ready_db}

validate_legality_contract_iff_example :
    (((validate_legality_contract 5 (1 ∷ 2 ∷ []) ready_db).0 ≡ ok tt) ↔ (
      (legal 5 ready_db (1 ∷ 2 ∷ []) (1 ∷ 2 ∷ []) ≡ true)
      × (has_several (found_items 5 ready_db (1 ∷ 2 ∷ [])) ≡ false)))
    × ((validate_legality_contract 5 (1 ∷ 2 ∷ []) ready_db).1 ≡ ready_db)
validate_legality_contract_iff_example = validate_legality_contract_iff 5 (1 ∷ 2 ∷ []) ready_db

abbrev plan : Result (List Edge) × Db
plan = plan_rollout same_text (λ owner. true) (λ e. []) 90 5 8 (1 ∷ 2 ∷ []) ready_db

plan_run : plan.0 ≡ ok first_before_second
unfolding plan_rollout validate_legality_contract check_each item_failures get_unresolved_blockers
    get_item item_accessible project_accessible get_items create_plan store_or_fail store_plan
    insert_items tally append_rollout_event derive_edges compute_blocker_edges compute_overlap_edges
    merge_edges merge_from raise_if_cyclic fetch_dependency_pairs sort insert key_le order
    overlap_row items_overlap assert_acyclic build_tables add_edges add_edge drain relax verdict
plan_run = refl

plan_rollout_sound_example :
    (legal 5 ready_db (1 ∷ 2 ∷ []) (1 ∷ 2 ∷ []) ≡ true)
    × (has_several (found_items 5 ready_db (1 ∷ 2 ∷ [])) ≡ false)
    × (IsPlanned (1 ∷ 2 ∷ []) first_before_second plan.1
        × ((items : List Item) × ((get_items 5 (1 ∷ 2 ∷ []) ready_db).0 ≡ ok items)
            × Derived same_text
                (λ owner. true)
                (λ e. [])
                90
                5
                8
                (1 ∷ 2 ∷ [])
                ready_db
                first_before_second
                items))
plan_rollout_sound_example =
    plan_rollout_sound same_text (λ owner. true) (λ e. []) 90 5 8 (1 ∷ 2 ∷ []) ready_db
      first_before_second plan_run

abbrev messages : List Message
messages =
    record { user_id = 5; rollout_id = 8; now = 101; request = link 21 1 }
    ∷ record { user_id = 5; rollout_id = 8; now = 102; request = cancel [] }
    ∷ []

planned_history_example : IsOrdered (run messages plan.1) × IsNumbered (run messages plan.1)
planned_history_example =
    planned_history same_text (λ owner. true) (λ e. []) 90 5 8 (1 ∷ 2 ∷ []) ready_db
      first_before_second plan_run messages
