-- ===== src/Examples/Rollout.antt =====
-- Runs of the theorems on the rollout of Examples/Data.
use agent_gtd.Prelude.{
  ℕ, ◌≡◌, ◌≢◌, refl, ◌⊎◌, false, ◌&&◌, none, some, List, [], ◌∷◌, arith, if◌then◌else◌,
}
use agent_gtd.Prelude.Members.{mem, Nodup}
use agent_gtd.Text.{Text}
use agent_gtd.Exceptions.{
  ok, err, validation_error, already_locked, not_pending, not_running, not_cancellable,
}
use agent_gtd.Graph.{Reaches, edge, via, Acyclic}
use agent_gtd.Rollout.Types.{
  RolloutStatus, RolloutItemStatus, RolloutItemOutcome, ManagerPhase, RolloutEventActor,
  is_finished, is_terminal,
}
use agent_gtd.Rollout.Db.{Db, Wave, Payload, get_rollout}
use agent_gtd.Rollout.Events.{append_rollout_event}
use agent_gtd.Rollout.Locks.{
  lock_of, lock_items_for_rollout, item_exists, lock_items_for_rollout_all, release_rollout_locks,
}
use agent_gtd.Rollout.Access.{
  get_item, add_comment, verify_project_access, create_project_comment, create_item_comment,
}
use agent_gtd.Rollout.Runs.{is_child_run, fetch_active_child_runs}
use agent_gtd.Rollout.Graph.{
  Advance, advance_rollout, predecessors, unblock_successors, classify_all, is_running, successors,
}
use agent_gtd.Rollout.Graph.Progress.{keys, view_of, advance_rollout-progress}
use agent_gtd.Rollout.Lifecycle.{
  Halted, halt_rollout, cancel_rollout, start_rollout, reset_rollout_item, update_rollout_state,
  stop_rollout, is_unrouted, is_pending_wave,
}
use agent_gtd.Rollout.History.{Message, complete, link, cancel, run, handle}
use agent_gtd.Rollout.Sequence.{IsNumbered}
use agent_gtd.Rollout.Sequence.History.{run-IsNumbered}
use agent_gtd.Rollout.Precedence.{IsOrdered}
use agent_gtd.Rollout.Precedence.History.{run-IsOrdered}
use agent_gtd.Rollout.Statuses.{Allowed, handle-Allowed}
use agent_gtd.Rollout.Stop.{
  RowsMoved, LocksReleased, RunsCancelled, halt_rollout_stops, cancel_rollout_stops,
}
use agent_gtd.Rollout.Refusals.{
  Refuses, status_at, reset_refusal, leads, no_such, lifecycle-Refuses,
}
use agent_gtd.Rollout.Complete.{
  is_completed_wave, Completion, complete_item_in_rollout, complete_found, take_branch, branch_of,
  record_outcome, finish_completion, close_out, append_merge_note,
}
use agent_gtd.Rollout.Complete.Outcome.{Recorded, complete_item_in_rollout-Recorded}
use agent_gtd.Rollout.Locks.{release_rollout_item}
use agent_gtd.Rollout.Graph.{set_status, unblock_each}
use agent_gtd.Examples.Data.{wave, first_before_second, db, ready_db}

abbrev messages : List Message
messages =
    record { user_id = 5; rollout_id = 7; now = 101; request = link 21 1 }
    ∷ record {
      user_id = 5;
      rollout_id = 7;
      now = 102;
      request = complete 1 RolloutItemOutcome.completed none [] [];
    }
    ∷ []

ready_db-IsOrdered : IsOrdered ready_db
unfolding predecessors
ready_db-IsOrdered = record { order = λ a h. ground arith }

run-IsOrdered_example : IsOrdered (run messages ready_db)
run-IsOrdered_example = run-IsOrdered messages ready_db ready_db-IsOrdered

run-IsNumbered_example : IsNumbered (run messages ready_db)
run-IsNumbered_example = run-IsNumbered messages ready_db (record { numbers = tt })

lock_items_for_rollout_all_example :
    ((lock_items_for_rollout 7 (1 ∷ 2 ∷ []) ready_db).0 ≡ err (validation_error already_locked)
      × ((lock_items_for_rollout 7 (1 ∷ 2 ∷ []) ready_db).1 ≡ ready_db))
    ⊎ (((lock_items_for_rollout 7 (1 ∷ 2 ∷ []) ready_db).0 ≡ ok tt)
        × ((b : ℕ)
            → lock_of b (lock_items_for_rollout 7 (1 ∷ 2 ∷ []) ready_db).1.items ≡ (
                if mem b (1 ∷ 2 ∷ []) && item_exists b ready_db.items
                then some 7
                else lock_of b ready_db.items)))
lock_items_for_rollout_all_example = lock_items_for_rollout_all 7 (1 ∷ 2 ∷ []) ready_db

abbrev next : Advance
next = record { next_ready = 1 ∷ []; in_progress = []; blocked = 2 ∷ []; graph_complete = false }

ready_db-next : (advance_rollout 5 7 ready_db).0 ≡ ok next
unfolding advance_rollout get_rollout classify_all predecessors
ready_db-next = refl

ready_db-Nodup : Nodup (keys (view_of ready_db))
ready_db-Nodup = ground arith

from_first : {u v : ℕ} → Reaches first_before_second u v → (u ≡ 1) × (v ≡ 2)
from_first (edge h) = ground arith
from_first (via p h) = ground (arith, from_first p)

plan-Acyclic : Acyclic first_before_second
plan-Acyclic v r = ground (arith, from_first r)

advance_rollout-progress_example : next.next_ready ≢ []
advance_rollout-progress_example =
    advance_rollout-progress 5 7 ready_db next ready_db-Nodup plan-Acyclic (λ u v h. ground arith)
      ready_db-next refl (λ a. ground arith) refl

abbrev done_db : Db
done_db = db RolloutItemStatus.completed

handle-Allowed_example :
    Allowed
      (cancel [])
      ready_db
      (handle (record { user_id = 5; rollout_id = 7; now = 103; request = cancel [] }) ready_db)
handle-Allowed_example =
    handle-Allowed (record { user_id = 5; rollout_id = 7; now = 103; request = cancel [] }) ready_db

abbrev completed_db : Db
completed_db = record ready_db { wave = record wave { status = RolloutStatus.completed } }

abbrev halted : Halted
halted = record {
  wave = record wave {
    status = RolloutStatus.halted;
    halt_reason = some [];
    ended_at = some 104;
    updated_at = 104;
  };
  cancelled_run_ids = 22 ∷ [];
  in_flight_run_ids = 21 ∷ [];
}

halts : (halt_rollout 104 31 32 5 7 [] none (some 1) ready_db).0 ≡ ok halted
unfolding halt_rollout stop_rollout get_rollout append_rollout_event create_project_comment
    verify_project_access create_item_comment get_item add_comment release_rollout_locks
    fetch_active_child_runs
halts = refl

halt_rollout_stops_example :
    let t = (halt_rollout 104 31 32 5 7 [] none (some 1) ready_db).1 in
    (t.wave.status ≡ RolloutStatus.halted)
    × RowsMoved is_terminal RolloutItemStatus.halted ready_db t
    × LocksReleased 7 ready_db t
    × RunsCancelled (λ r. is_child_run 7 r && is_unrouted r) ready_db t
halt_rollout_stops_example = halt_rollout_stops 104 31 32 5 7 [] none (some 1) ready_db halted halts

abbrev cancelled_wave : Wave
cancelled_wave = record wave {
  status = RolloutStatus.cancelled;
  halt_reason = some [];
  ended_at = some 105;
  updated_at = 105;
}

cancels : (cancel_rollout 105 5 7 [] ready_db).0 ≡ ok (cancelled_wave, 21 ∷ 22 ∷ [])
unfolding cancel_rollout get_rollout append_rollout_event fetch_active_child_runs
    release_rollout_locks
cancels = refl

cancel_rollout_stops_example :
    let t = (cancel_rollout 105 5 7 [] ready_db).1 in
    (t.wave.status ≡ RolloutStatus.cancelled)
    × RowsMoved is_finished RolloutItemStatus.skipped ready_db t
    × LocksReleased 7 ready_db t
    × RunsCancelled (is_child_run 7) ready_db t
    × ((later : ℕ) (why : Text) → cancel_rollout later 5 7 why t ≡ (ok (t.wave, []), t))
cancel_rollout_stops_example =
    cancel_rollout_stops 105 5 7 [] ready_db (cancelled_wave, 21 ∷ 22 ∷ []) cancels refl

lifecycle-Refuses_example :
    Refuses
      (if leads 5 7 ready_db
        then (if is_pending_wave ready_db.wave.status
            then none
            else some (validation_error not_pending))
        else some (no_such 7))
      ready_db
      (start_rollout 106 5 7 RolloutEventActor.human Payload.no_payload ready_db)
    × Refuses
        (if leads 5 7 ready_db
          then (if is_completed_wave ready_db.wave.status
              then some (validation_error not_cancellable)
              else none)
          else some (no_such 7))
        ready_db
        (cancel_rollout 106 5 7 [] ready_db)
    × Refuses
        (if leads 5 7 ready_db
          then (if is_running ready_db.wave.status
              then reset_refusal 1 (status_at 1 ready_db)
              else some (validation_error not_running))
          else some (no_such 7))
        ready_db
        (reset_rollout_item 5 7 1 ready_db)
    × Refuses
        (if leads 5 7 ready_db
          then (if is_running ready_db.wave.status
              then none
              else some (validation_error not_running))
          else some (no_such 7))
        ready_db
        (update_rollout_state 106 5 7 ManagerPhase.polling (some 1) none ready_db)
lifecycle-Refuses_example =
    lifecycle-Refuses 106 5 7 ready_db RolloutEventActor.human Payload.no_payload
      ManagerPhase.polling (some 1) none 1 []

abbrev second_up : Completion
second_up = record { newly_ready = 2 ∷ []; graph_complete = false; already_recorded = false }

completes :
    (complete_item_in_rollout 107 5 7 1 RolloutItemOutcome.skipped none [] [] ready_db).0
    ≡ ok second_up
unfolding complete_item_in_rollout complete_found take_branch branch_of record_outcome
    finish_completion close_out unblock_successors unblock_each predecessors successors get_rollout
    append_rollout_event append_merge_note release_rollout_item
completes = refl

complete_item_in_rollout-Recorded_example :
    Recorded
      (set_status (view_of ready_db) 1 RolloutItemStatus.skipped)
      first_before_second
      1
      second_up
      (complete_item_in_rollout 107 5 7 1 RolloutItemOutcome.skipped none [] [] ready_db).1
complete_item_in_rollout-Recorded_example =
    complete_item_in_rollout-Recorded 107 5 7 1 RolloutItemOutcome.skipped none [] [] ready_db
      second_up ready_db-Nodup completes refl
