-- ===== src/Rollout/Refusals.antt =====
-- Calls that raise: what they have written by then, and when they raise at all.
use agent_gtd.Prelude.{ℕ, ◌≡◌, ◌⊎◌, Bool, ◌&&◌, Option, none, some, arith, ◌==◌, if◌then◌else◌}
use agent_gtd.Text.{Text}
use agent_gtd.Exceptions.{
  AgentGtdError, Result, ok, err, not_found, EntityType, validation_error, not_pending, not_running,
  not_cancellable, not_dispatched,
}
use agent_gtd.Rollout.Types.{RolloutItemStatus, RolloutEventActor, ManagerPhase, is_dispatched}
use agent_gtd.Rollout.Db.{Db, Payload, get_rollout}
use agent_gtd.Rollout.Events.{append_rollout_event}
use agent_gtd.Rollout.Graph.{is_running}
use agent_gtd.Rollout.Complete.{find_row, is_completed_wave}
use agent_gtd.Rollout.Lifecycle.{
  start_rollout, update_rollout_state, reset_found, reset_rollout_item, cancel_rollout,
  is_pending_wave,
}

-- The rollout exists and the caller leads it.
abbrev pub leads : ℕ → ℕ → Db → Bool
leads user rid s = rid == s.wave.id && s.wave.lead_user_id == user

-- The error, if the call raised one.
abbrev pub error_of : {A : Type 0} → Result A → Option AgentGtdError
error_of (ok a) = none
error_of (err e) = some e

abbrev pub no_such : ℕ → AgentGtdError
no_such rid = not_found EntityType.rollout rid

-- The call raises exactly the given error, if any, and a call that raises has written nothing.
abbrev pub Refuses : {A : Type 0} → Option AgentGtdError → Db → Result A × Db → Type 0
Refuses e s r = (error_of r.0 ≡ e) × ((error_of r.0 ≡ none) ⊎ (r.1 ≡ s))

abbrev pub status_at : ℕ → Db → Option RolloutItemStatus
status_at a s = elim (find_row a s.rows) [ none ↦ none | some r ↦ some r.status ]

abbrev pub reset_refusal : ℕ → Option RolloutItemStatus → Option AgentGtdError
reset_refusal a none = some (not_found EntityType.rollout_item a)
reset_refusal a (some t) = if is_dispatched t then none else some (validation_error not_dispatched)

module _ (now user rid : ℕ) (s : Db) where
  start_rollout-Refuses :
      (actor : RolloutEventActor) (details : Payload)
      → Refuses
          (if leads user rid s
            then (if is_pending_wave s.wave.status
                then none
                else some (validation_error not_pending))
            else some (no_such rid))
          s
          (start_rollout now user rid actor details s)
  unfolding start_rollout get_rollout append_rollout_event
  start_rollout-Refuses actor details = ground arith

  update_rollout_state-Refuses :
      (phase : ManagerPhase) (item : Option ℕ) (step : Option Text)
      → Refuses
          (if leads user rid s
            then (if is_running s.wave.status then none else some (validation_error not_running))
            else some (no_such rid))
          s
          (update_rollout_state now user rid phase item step s)
  unfolding update_rollout_state get_rollout append_rollout_event
  update_rollout_state-Refuses phase item step = ground arith

  reset_rollout_item-Refuses :
      (a : ℕ)
      → Refuses
          (if leads user rid s
            then (if is_running s.wave.status
                then reset_refusal a (status_at a s)
                else some (validation_error not_running))
            else some (no_such rid))
          s
          (reset_rollout_item user rid a s)
  unfolding reset_rollout_item reset_found get_rollout append_rollout_event
  reset_rollout_item-Refuses a = ground arith

  cancel_rollout-Refuses :
      (reason : Text)
      → Refuses
          (if leads user rid s
            then (if is_completed_wave s.wave.status
                then some (validation_error not_cancellable)
                else none)
            else some (no_such rid))
          s
          (cancel_rollout now user rid reason s)
  unfolding cancel_rollout get_rollout append_rollout_event
  cancel_rollout-Refuses reason = ground arith

  -- Starting, cancelling, resetting an item and reporting the manager's state raise exactly when
  -- the caller does not lead the rollout, or the rollout is not pending, is completed, is not
  -- running (or the item is missing or not dispatched), or is not running; with the error for
  -- that case; and whenever they raise they have written nothing.
  pub lifecycle-Refuses :
      (actor : RolloutEventActor) (details : Payload) (phase : ManagerPhase) (item : Option ℕ)
      (step : Option Text) (a : ℕ) (reason : Text)
      → Refuses
          (if leads user rid s
            then (if is_pending_wave s.wave.status
                then none
                else some (validation_error not_pending))
            else some (no_such rid))
          s
          (start_rollout now user rid actor details s)
        × Refuses
            (if leads user rid s
              then (if is_completed_wave s.wave.status
                  then some (validation_error not_cancellable)
                  else none)
              else some (no_such rid))
            s
            (cancel_rollout now user rid reason s)
        × Refuses
            (if leads user rid s
              then (if is_running s.wave.status
                  then reset_refusal a (status_at a s)
                  else some (validation_error not_running))
              else some (no_such rid))
            s
            (reset_rollout_item user rid a s)
        × Refuses
            (if leads user rid s
              then (if is_running s.wave.status then none else some (validation_error not_running))
              else some (no_such rid))
            s
            (update_rollout_state now user rid phase item step s)
  lifecycle-Refuses actor details phase item step a reason = (
    start_rollout-Refuses actor details,
    cancel_rollout-Refuses reason,
    reset_rollout_item-Refuses a,
    update_rollout_state-Refuses phase item step,
  )
