-- ===== src/Rollout/Lifecycle.antt =====
-- The operations of rollout_service.py that start, stop and steer a rollout: `start_rollout`,
-- `update_rollout_state`, `reset_rollout_item`, `cancel_rollout`, `halt_rollout`; and the linkage of
-- a build run to its item in `create_run` of dispatch_service.py.
use agent_gtd.Prelude.{
  ℕ, Bool, true, false, not, ◌||◌, Option, none, some, List, [], ◌∷◌, ◌++◌, map, if◌then◌else◌,
  filter,
}
use agent_gtd.Prelude.Members.{mem}
use agent_gtd.Text.{Text, text}
use agent_gtd.Exceptions.{
  ok, not_found, EntityType, validation_error, not_running, not_pending, not_cancellable,
  not_dispatched,
}
use agent_gtd.Rollout.Types.{
  RolloutStatus, RolloutItemStatus, ManagerPhase, RolloutEventKind, RolloutEventActor, is_terminal,
  is_finished, is_dispatched, is_ready, is_pending_run,
}
use agent_gtd.Rollout.Db.{
  Db, Call, Wave, Run, RolloutItem, Payload, get_rollout, execute, fetch, raise, return, refuse_if,
  ◌>>=◌, ◌>>◌,
}
use agent_gtd.Rollout.Events.{append_rollout_event}
use agent_gtd.Rollout.Locks.{release_rollout_locks}
use agent_gtd.Rollout.Access.{create_project_comment, create_item_comment}
use agent_gtd.Rollout.Graph.{is_running}
use agent_gtd.Rollout.Complete.{find_row, write_row}
use agent_gtd.Rollout.Runs.{fetch_active_child_runs, cancel_child_runs, run_ids}

abbrev pub is_pending_wave : RolloutStatus → Bool
is_pending_wave RolloutStatus.pending = true
is_pending_wave _ = false

abbrev pub is_cancelled_wave : RolloutStatus → Bool
is_cancelled_wave RolloutStatus.cancelled = true
is_cancelled_wave _ = false

-- `cancellable_statuses`
abbrev pub is_cancellable : RolloutStatus → Bool
is_cancellable RolloutStatus.completed = false
is_cancellable RolloutStatus.cancelled = false
is_cancellable _ = true

abbrev pub set_wave : (Wave → Wave) → Db → Db
set_wave f s = record s { wave = f (s.wave) }

abbrev pub set_rows : (RolloutItem → RolloutItem) → Db → Db
set_rows f s = record s { rows = map f s.rows }

unfoldable pub start_rollout : ℕ → ℕ → ℕ → RolloutEventActor → Payload → Call Wave
start_rollout now user_id rollout_id actor payload = do
  wave ← get_rollout user_id rollout_id
  refuse_if (not (is_pending_wave wave.status)) (validation_error not_pending)
  execute (
      set_wave
        (λ w. record w { status = RolloutStatus.running; started_at = some now; updated_at = now }))
  append_rollout_event RolloutEventKind.wave_started actor payload []
  fetch (λ s. s.wave)

unfoldable pub update_rollout_state :
    ℕ → ℕ → ℕ → ManagerPhase → Option ℕ → Option Text → Call (Unit {0})
update_rollout_state now user_id rollout_id phase current_item_id current_step = do
  wave ← get_rollout user_id rollout_id
  refuse_if (not (is_running wave.status)) (validation_error not_running)
  execute (
      set_wave (λ w. record w {
        manager_phase = some phase;
        manager_current_item_id = current_item_id;
        manager_current_step = current_step;
        manager_state_updated_at = some now;
        updated_at = now;
      }))
  append_rollout_event RolloutEventKind.manager_state_update RolloutEventActor.manager
      (Payload.state_of phase current_item_id current_step) []

abbrev pub make_reset : RolloutItem → RolloutItem
make_reset r =
    if is_dispatched r.status
    then record r { status = RolloutItemStatus.ready; claude_run_id = none }
    else r

-- From the SELECT of the row on.
unfoldable pub reset_found : ℕ → Option RolloutItem → Call (Option ℕ)
reset_found item_id none = raise (not_found EntityType.rollout_item item_id)
reset_found item_id (some row) = do
  refuse_if (not (is_dispatched row.status)) (validation_error not_dispatched)
  execute (write_row item_id make_reset)
  append_rollout_event RolloutEventKind.item_reset RolloutEventActor.dispatch
      (Payload.reset_of item_id row.claude_run_id) []
  return row.claude_run_id

-- Returns the id of the run that was unlinked.
unfoldable pub reset_rollout_item : ℕ → ℕ → ℕ → Call (Option ℕ)
reset_rollout_item user_id rollout_id item_id = do
  wave ← get_rollout user_id rollout_id
  refuse_if (not (is_running wave.status)) (validation_error not_running)
  found ← fetch (λ s. find_row item_id s.rows)
  reset_found item_id found

-- UPDATE ... SET status = 'skipped' WHERE status IN ('pending', 'ready', 'dispatched', 'halted')
abbrev pub skip_unfinished : RolloutItem → RolloutItem
skip_unfinished r =
    if is_finished r.status then r else record r { status = RolloutItemStatus.skipped }

-- Returns the row and `cancelled_run_ids`.
unfoldable pub cancel_rollout : ℕ → ℕ → ℕ → Text → Call (Wave × List ℕ)
cancel_rollout now user_id rollout_id reason = do
  wave ← get_rollout user_id rollout_id
  if is_cancelled_wave wave.status then return (wave, []) else do
    refuse_if (not (is_cancellable wave.status)) (validation_error not_cancellable)
    execute (
        set_wave (λ w. record w {
          status = RolloutStatus.cancelled;
          halt_reason = some reason;
          ended_at = some now;
          updated_at = now;
        }))
    execute (set_rows skip_unfinished)
    children ← fetch (λ s. fetch_active_child_runs rollout_id s.runs)
    execute (λ s. record s {
      runs = cancel_child_runs now (text "rollout cancelled: " ++ reason) children s.runs;
    })
    execute (release_rollout_locks rollout_id)
    append_rollout_event RolloutEventKind.wave_cancelled RolloutEventActor.human
        (Payload.cancel_of reason (run_ids children)) []
    updated ← fetch (λ s. s.wave)
    return (updated, run_ids children)

-- UPDATE ... SET status = 'halted' WHERE status IN ('pending', 'ready', 'dispatched')
abbrev pub halt_open : RolloutItem → RolloutItem
halt_open r = if is_terminal r.status then r else record r { status = RolloutItemStatus.halted }

-- `status == "pending" and not remote_run_id`
abbrev pub is_unrouted : Run → Bool
is_unrouted r = elim r.remote_run_id [ none ↦ is_pending_run r.status | some x ↦ false ]

-- `"\n\n".join(content_parts)`
abbrev halt_comment : Text → Option Text → Text
halt_comment reason none = text "Rollout halted: " ++ reason
halt_comment reason (some comment) = (text "Rollout halted: " ++ reason) ++ 10 ∷ 10 ∷ comment

-- `try: ... except Exception`, after which the call goes on.
abbrev pub attempt : Call (Unit {0}) → Call (Unit {0})
attempt m s = (ok tt, (m s).1)

-- The comment on the offending item, without the printed id of the project's comment.
abbrev pub item_halt_comment : ℕ → ℕ → Option ℕ → Text → Call (Unit {0})
item_halt_comment comment_id user_id none reason s = (ok tt, s)
item_halt_comment comment_id user_id (some item_id) reason s =
    attempt
      (create_item_comment comment_id user_id item_id (
        (text "Rollout halted (" ++ reason)
        ++ text "). See project-level halt comment for full context."))
      s

pub record Halted : Type 0 where
  pub wave : Wave
  pub cancelled_run_ids : List ℕ
  pub in_flight_run_ids : List ℕ

-- Everything up to the first comment, which is written unconditionally.
unfoldable pub stop_rollout : ℕ → ℕ → Text → Db → Db
stop_rollout now rollout_id reason s =
    let children = fetch_active_child_runs rollout_id s.runs in
    release_rollout_locks rollout_id (record s {
      wave = record (s.wave) {
        status = RolloutStatus.halted;
        halt_reason = some reason;
        ended_at = some now;
        updated_at = now;
      };
      rows = map halt_open s.rows;
      runs =
          cancel_child_runs now (text "rollout halted: " ++ reason) (filter is_unrouted children)
            s.runs;
    })

unfoldable pub halt_rollout : ℕ → ℕ → ℕ → ℕ → ℕ → Text → Option Text → Option ℕ → Call Halted
halt_rollout now comment_id item_comment_id user_id rollout_id reason comment item_id = do
  wave ← get_rollout user_id rollout_id
  refuse_if (not (is_running wave.status || is_pending_wave wave.status))
      (validation_error not_running)
  children ← fetch (λ s. fetch_active_child_runs rollout_id s.runs)
  let cancelled = run_ids (filter is_unrouted children)
  execute (stop_rollout now rollout_id reason)
  create_project_comment comment_id user_id wave.project_id (halt_comment reason comment)
  item_halt_comment item_comment_id user_id item_id reason
  append_rollout_event RolloutEventKind.comment_posted RolloutEventActor.manager
      (Payload.comment_of comment_id) []
  append_rollout_event RolloutEventKind.wave_halted RolloutEventActor.manager
      (Payload.halt_of reason item_id comment_id) []
  updated ← fetch (λ s. s.wave)
  return (record {
    wave = updated;
    cancelled_run_ids = cancelled;
    in_flight_run_ids = filter (λ a. not (mem a cancelled)) (run_ids children);
  })

abbrev pub link_run : ℕ → RolloutItem → RolloutItem
link_run run_id r =
    if is_ready r.status
    then record r { status = RolloutItemStatus.dispatched; claude_run_id = some run_id }
    else r

-- In `create_run`, for a build run of a rollout: ready → dispatched, and the event.
unfoldable pub link_build_run : ℕ → ℕ → Call (Unit {0})
link_build_run run_id item_id = do
  execute (write_row item_id (link_run run_id))
  append_rollout_event RolloutEventKind.item_dispatched RolloutEventActor.manager
      (Payload.dispatched_of item_id run_id) []
