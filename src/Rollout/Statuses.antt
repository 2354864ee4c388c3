-- ===== src/Rollout/Statuses.antt =====
-- The status of a rollout: which request may move it, and where to.
use agent_gtd.Prelude.{ℕ, ◌≡◌, refl, ◌⊎◌, inl, inr, true, false, ◌||◌, Option, List, arith, ◌∙◌}
use agent_gtd.Text.{Text}
use agent_gtd.Rollout.Types.{
  RolloutStatus, RolloutItemOutcome, RolloutEventActor, ManagerPhase, MergeActor,
}
use agent_gtd.Rollout.Db.{Db, Payload, get_rollout}
use agent_gtd.Rollout.Events.{append_rollout_event}
use agent_gtd.Rollout.Locks.{release_rollout_item, release_rollout_locks}
use agent_gtd.Rollout.Access.{
  get_item, add_comment, verify_project_access, create_project_comment, create_item_comment,
}
use agent_gtd.Rollout.Items.{check_halted_rollout_completion, complete_item}
use agent_gtd.Rollout.Graph.{Statuses, unblock_successors, is_running}
use agent_gtd.Rollout.Keeps.{Keeps}
use agent_gtd.Rollout.Complete.{
  append_merge_note, close_out, heal_close, is_completed_wave, complete_item_in_rollout,
}
use agent_gtd.Rollout.Complete.Keeps.{StepsKeep, complete_item_in_rollout-keeps}
use agent_gtd.Rollout.Lifecycle.{
  start_rollout, update_rollout_state, reset_found, reset_rollout_item, cancel_rollout,
  halt_rollout, link_build_run, stop_rollout, is_pending_wave, is_cancelled_wave,
}
use agent_gtd.Rollout.History.{
  Request, Message, start, update_state, link, reset, complete, halt, cancel, handle_request,
  handle, run, run-keeps,
}

-- Where a request may take a rollout that it does not leave where it is.
pub data Moves : Request → RolloutStatus → RolloutStatus → Type 0 where
  starts :
      {actor : RolloutEventActor} {details : Payload}
      → Moves (start actor details) RolloutStatus.pending RolloutStatus.running
  completes :
      {item : ℕ} {outcome : RolloutItemOutcome} {actor : Option MergeActor} {rule note : Text}
      {a : RolloutStatus}
      → Moves (complete item outcome actor rule note) a RolloutStatus.completed
  halts :
      {c d : ℕ} {reason : Text} {comment : Option Text} {item : Option ℕ} {a : RolloutStatus}
      → (is_running a || is_pending_wave a) ≡ true
      → Moves (halt c d reason comment item) a RolloutStatus.halted
  cancels :
      {reason : Text} {a : RolloutStatus}
      → (is_completed_wave a || is_cancelled_wave a) ≡ false
      → Moves (cancel reason) a RolloutStatus.cancelled

starts_at :
    {actor : RolloutEventActor} {details : Payload} {a b : RolloutStatus}
    → a ≡ RolloutStatus.pending
    → b ≡ RolloutStatus.running
    → Moves (start actor details) a b
starts_at p q = rw (p, q) starts

abbrev pub Allowed : Request → Db → Db → Type 0
Allowed r s t = (t.wave.status ≡ s.wave.status) ⊎ Moves r s.wave.status t.wave.status

-- The status is `a` still, or completed.
record Near (a : RolloutStatus) (t : Db) : Type 0 where
  pub near : (t.wave.status ≡ a) ⊎ (t.wave.status ≡ RolloutStatus.completed)

module _ (a : RolloutStatus) where
  complete_item-Near : (now user i : ℕ) → Keeps (Near a) (complete_item now user i)
  unfolding complete_item get_item check_halted_rollout_completion
  complete_item-Near now user i = record { at = λ s n. record { near = ground (arith, n.near) } }

  close_out-Near :
      (now i : ℕ) (o : RolloutItemOutcome) (rule note : Text) (m : Statuses) (s : Db)
      → Near a s
      → Near a (close_out now i o rule note m s).1
  unfolding close_out append_rollout_event append_merge_note
  close_out-Near now i o rule note m s n = record { near = ground (arith, n.near) }

  heal_close-Near :
      (now i : ℕ) (o : RolloutItemOutcome) (note : Text) (m : Statuses) (s : Db)
      → Near a s
      → Near a (heal_close now i o note m s).1
  unfolding heal_close append_merge_note
  heal_close-Near now i o note m s n = record { near = ground (arith, n.near) }

  Near-steps : StepsKeep (Near a)
  unfolding unblock_successors release_rollout_item
  Near-steps = record {
    writes = λ now i o actor s n. record { near = n.near };
    releases = λ r i s n. record { near = n.near };
    completes = λ now user i. (complete_item-Near now user i).at;
    unblocks = λ i m s n. record { near = n.near };
    closes = close_out-Near;
    heals = heal_close-Near;
  }

module _ (now user rid : ℕ) (s : Db) where
  start-status :
      (actor : RolloutEventActor) (details : Payload)
      → let t = (start_rollout now user rid actor details s).1 in
        (t.wave.status ≡ s.wave.status)
        ⊎ ((s.wave.status ≡ RolloutStatus.pending) × (t.wave.status ≡ RolloutStatus.running))
  unfolding start_rollout get_rollout append_rollout_event
  start-status actor details = ground arith

  start-Allowed :
      (actor : RolloutEventActor) (details : Payload)
      → Allowed (start actor details) s (start_rollout now user rid actor details s).1
  start-Allowed actor details = elim (start-status actor details) [
    | inl same ↦ inl same
    | inr (was, is) ↦ inr (starts_at was is)
  ]

  update-Allowed :
      (phase : ManagerPhase) (item : Option ℕ) (step : Option Text)
      → (update_rollout_state now user rid phase item step s).1.wave.status ≡ s.wave.status
  unfolding update_rollout_state get_rollout append_rollout_event
  update-Allowed phase item step = ground arith

  reset-Allowed : (i : ℕ) → (reset_rollout_item user rid i s).1.wave.status ≡ s.wave.status
  unfolding reset_rollout_item reset_found get_rollout append_rollout_event
  reset-Allowed i = ground arith

  cancel-status :
      (reason : Text)
      → let t = (cancel_rollout now user rid reason s).1 in
        (t.wave.status ≡ s.wave.status)
        ⊎ (((is_completed_wave s.wave.status || is_cancelled_wave s.wave.status) ≡ false)
            × (t.wave.status ≡ RolloutStatus.cancelled))
  unfolding cancel_rollout get_rollout append_rollout_event release_rollout_locks
  cancel-status reason = ground arith

  cancel-Allowed :
      (reason : Text) → Allowed (cancel reason) s (cancel_rollout now user rid reason s).1
  cancel-Allowed reason = elim (cancel-status reason) [
    | inl same ↦ inl same
    | inr (was, is) ↦ inr (rw is (cancels was))
  ]

  halt-status :
      (c d : ℕ) (reason : Text) (comment : Option Text) (item : Option ℕ)
      → let t = (halt_rollout now c d user rid reason comment item s).1 in
        (t.wave.status ≡ s.wave.status)
        ⊎ (((is_running s.wave.status || is_pending_wave s.wave.status) ≡ true)
            × (t.wave.status ≡ RolloutStatus.halted))
  unfolding halt_rollout stop_rollout get_rollout append_rollout_event release_rollout_locks
      create_project_comment verify_project_access create_item_comment get_item add_comment
  halt-status c d reason comment item = ground arith

  halt-Allowed :
      (c d : ℕ) (reason : Text) (comment : Option Text) (item : Option ℕ)
      → Allowed
          (halt c d reason comment item)
          s
          (halt_rollout now c d user rid reason comment item s).1
  halt-Allowed c d reason comment item = elim (halt-status c d reason comment item) [
    | inl same ↦ inl same
    | inr (was, is) ↦ inr (rw is (halts was))
  ]

  complete-Allowed :
      (i : ℕ) (o : RolloutItemOutcome) (actor : Option MergeActor) (rule note : Text)
      → Allowed
          (complete i o actor rule note)
          s
          (complete_item_in_rollout now user rid i o actor rule note s).1
  complete-Allowed i o actor rule note =
      elim (complete_item_in_rollout-keeps (Near-steps s.wave.status) now user rid i o actor rule
        note s (record { near = inl refl })).near [
          | inl same ↦ inl same
          | inr done ↦ inr (rw done completes)
        ]

link-Allowed : (run_id i : ℕ) (s : Db) → (link_build_run run_id i s).1.wave.status ≡ s.wave.status
unfolding link_build_run append_rollout_event
link-Allowed run_id i s = refl

-- Of the requests of a history, a start moves the status of the rollout from pending to running
-- or not at all, a halt from pending or running to halted or not at all, a cancellation from any
-- status but completed and cancelled to cancelled or not at all, a completion of an item to
-- completed or not at all; a state report, a dispatch link and a reset never move it. The
-- resumption of a halted rollout, and the update of an item that closes a halted one, are not
-- among these requests.
pub handle-Allowed : (m : Message) (s : Db) → Allowed m.request s (handle m s)
unfolding handle
handle-Allowed m s = go m.request
  where
    go : (r : Request) → Allowed r s (handle_request m.now m.user_id m.rollout_id r s)
    go (start actor details) = start-Allowed m.now m.user_id m.rollout_id s actor details
    go (update_state phase item step) =
        inl (update-Allowed m.now m.user_id m.rollout_id s phase item step)
    go (link run_id item) = inl (link-Allowed run_id item s)
    go (reset item) = inl (reset-Allowed m.now m.user_id m.rollout_id s item)
    go (complete item outcome actor rule note) =
        complete-Allowed m.now m.user_id m.rollout_id s item outcome actor rule note
    go (halt c d reason comment item) =
        halt-Allowed m.now m.user_id m.rollout_id s c d reason comment item
    go (cancel reason) = cancel-Allowed m.now m.user_id m.rollout_id s reason

no_way_back :
    {r : Request} {a b : RolloutStatus}
    → Moves r a b
    → a ≡ RolloutStatus.completed
    → b ≡ RolloutStatus.completed
no_way_back starts h = ground arith
no_way_back completes h = refl
no_way_back (halts g) h = ground arith
no_way_back (cancels g) h = ground arith

abbrev IsCompleted : Db → Type 0
IsCompleted s = s.wave.status ≡ RolloutStatus.completed

handle-IsCompleted : (m : Message) (s : Db) → IsCompleted s → IsCompleted (handle m s)
handle-IsCompleted m s h = elim (handle-Allowed m s) [
  | inl same ↦ same ∙ h
  | inr move ↦ no_way_back move h
]

-- A completed rollout stays completed along every history of starts, state reports, dispatch
-- links, resets, completions, halts and cancellations.
pub run-completed :
    (ms : List Message) (s : Db)
    → s.wave.status ≡ RolloutStatus.completed
    → (run ms s).wave.status ≡ RolloutStatus.completed
run-completed ms s h = run-keeps IsCompleted handle-IsCompleted ms s h
