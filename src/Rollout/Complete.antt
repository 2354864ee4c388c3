-- ===== src/Rollout/Complete.antt =====
-- `complete_item_in_rollout` of rollout_service.py, with the helpers that it calls.
pub mod Order
pub mod Table
pub mod Outcome
pub mod Keeps
use agent_gtd.Prelude.{
  ℕ, suc, ◌+◌, Bool, true, false, not, ◌&&◌, ◌||◌, Option, none, some, List, [], ◌∷◌, ◌++◌, map,
  ◌==◌, if◌then◌else◌, all, any, find?, length,
}
use agent_gtd.Text.{Text, strip, take, is_empty}
use agent_gtd.Exceptions.{
  Result, ok, err, AgentGtdError, not_found, EntityType, validation_error, terminal_outcome,
  wrong_item_status,
}
use agent_gtd.Rollout.Types.{
  RolloutStatus, RolloutItemStatus, RolloutItemOutcome, MergeActor, RolloutEventKind,
  RolloutEventActor, is_terminal, is_finished, is_halted, is_ready, is_dispatched, is_done,
  outcome_status,
}
use agent_gtd.Rollout.Db.{
  Db, Call, Wave, RolloutItem, RolloutEvent, Payload, Item, get_rollout, execute, fetch, raise,
  return, when, ◌>>=◌, ◌>>◌,
}
use agent_gtd.Rollout.Events.{append_event, append_rollout_event}
use agent_gtd.Rollout.Locks.{release_rollout_item}
use agent_gtd.Rollout.Items.{complete_item, is_halted_wave}
use agent_gtd.Rollout.Graph.{
  Statuses, load_item_statuses, set_status, unblock_successors, is_running,
}

-- MERGE_NOTE_MAX_CHARS
abbrev pub merge_note_max_chars : ℕ
merge_note_max_chars = 2000

pub record Completion : Type 0 where
  pub newly_ready : List ℕ
  pub graph_complete : Bool
  pub already_recorded : Bool

abbrev pub all_finished : Statuses → Bool
all_finished view = all (λ (a, t). is_finished t) view

-- `_close_rollout`
abbrev pub close_rollout : ℕ → Db → Db
close_rollout now s = record s {
  wave = record (s.wave) {
    status = RolloutStatus.completed;
    ended_at = some now;
    updated_at = now;
  };
}

-- `_emit_wave_completed`
abbrev pub emit_wave_completed : ℕ → Db → Db
emit_wave_completed total =
    append_event RolloutEventKind.wave_completed RolloutEventActor.manager
      (Payload.total_items total) []

-- `_append_merge_note`
unfoldable pub append_merge_note : ℕ → RolloutItemOutcome → Text → Db → Db
append_merge_note item_id outcome note s =
    let trimmed = take merge_note_max_chars (strip note) in
    if is_empty trimmed
    then s
    else append_event RolloutEventKind.merge_note RolloutEventActor.manager
        (Payload.note_on item_id outcome trimmed) [] s

abbrev is_note_on : ℕ → Payload → Bool
is_note_on item_id (Payload.note_on a outcome note) = a == item_id
is_note_on item_id _ = false

abbrev is_merge_note : RolloutEventKind → Bool
is_merge_note RolloutEventKind.merge_note = true
is_merge_note _ = false

-- `_has_merge_note_for_item`
pub has_merge_note_for_item : ℕ → Db → Bool
has_merge_note_for_item item_id s =
    any (λ e. is_merge_note e.kind && is_note_on item_id e.payload) s.events

abbrev pub is_completed_outcome : RolloutItemOutcome → Bool
is_completed_outcome RolloutItemOutcome.completed = true
is_completed_outcome _ = false

-- `gtd_row is not None and status != "done"`
abbrev pub open_item : ℕ → List Item → Bool
open_item a items = elim (find? (λ i. i.id == a) items) [
  | none ↦ false
  | some i ↦ not (is_done i.status)
]

abbrev pub is_completed_wave : RolloutStatus → Bool
is_completed_wave RolloutStatus.completed = true
is_completed_wave _ = false

abbrev pub is_empty_view : Statuses → Bool
is_empty_view [] = true
is_empty_view (x ∷ xs) = false

-- Steps 3 and 4 of `_heal_repeat_completion`: close an open rollout all of whose items are
-- finished, and append a missing merge note. Returns whether the rollout is completed.
unfoldable pub heal_close : ℕ → ℕ → RolloutItemOutcome → Text → Statuses → Call Bool
heal_close now item_id outcome merge_note view = do
  was_completed ← fetch (λ s. is_completed_wave s.wave.status)
  let close = not was_completed && (not (is_empty_view view) && all_finished view)
  when close (execute (λ s. emit_wave_completed (length view) (close_rollout now s)))
  noted ← fetch (has_merge_note_for_item item_id)
  when (not (is_empty (strip merge_note)) && not noted)
      (execute (append_merge_note item_id outcome merge_note))
  return (was_completed || close)

-- Steps 2 to 4.
pub heal_graph : ℕ → ℕ → RolloutItemOutcome → Text → Call Completion
heal_graph now item_id outcome merge_note = do
  loaded ← fetch (λ s. load_item_statuses s.rows)
  (view, newly) ← unblock_successors item_id loaded
  completed ← heal_close now item_id outcome merge_note view
  return (record { newly_ready = newly; graph_complete = completed; already_recorded = true })

-- `_heal_repeat_completion`
pub heal_repeat_completion : ℕ → ℕ → ℕ → RolloutItemOutcome → Text → Call Completion
heal_repeat_completion now user_id item_id outcome merge_note = do
  gtd_open ← fetch (λ s. open_item item_id s.items)
  when (is_completed_outcome outcome && gtd_open) (complete_item now user_id item_id)
  heal_graph now item_id outcome merge_note

-- What the status of the row, the outcome asked for and the status of the rollout lead to.
pub data Branch : Type 0 where
  repeat : Branch
  override : Branch
  proceed : Branch
  refuse : AgentGtdError → Branch

abbrev pub same_outcome : RolloutItemStatus → RolloutItemOutcome → Bool
same_outcome RolloutItemStatus.completed RolloutItemOutcome.completed = true
same_outcome RolloutItemStatus.halted RolloutItemOutcome.halted = true
same_outcome RolloutItemStatus.skipped RolloutItemOutcome.skipped = true
same_outcome _ _ = false

unfoldable pub branch_of : RolloutStatus → RolloutItemStatus → RolloutItemOutcome → Branch
branch_of wave_status current outcome =
    if is_terminal current
    then (if same_outcome current outcome
        then repeat
        else if is_halted current
            && (is_finished (outcome_status outcome)
                && (is_halted_wave wave_status || is_running wave_status))
        then override
        else refuse (validation_error terminal_outcome))
    else if is_ready current || is_dispatched current
    then proceed
    else refuse (validation_error wrong_item_status)

-- The UPDATE of the row, with `merge_actor` only if there is one.
abbrev pub write_outcome : ℕ → RolloutItemOutcome → Option MergeActor → RolloutItem → RolloutItem
write_outcome now outcome none r = record r {
  status = outcome_status outcome;
  completed_at = some now;
}
write_outcome now outcome (some actor) r = record r {
  status = outcome_status outcome;
  completed_at = some now;
  merge_actor = some actor;
}

abbrev pub write_row : ℕ → (RolloutItem → RolloutItem) → Db → Db
write_row item_id f s = record s {
  rows = map (λ r. if r.item_id == item_id then f r else r) s.rows;
}

-- From the unblocking on: closing the rollout, and the events.
unfoldable pub close_out : ℕ → ℕ → RolloutItemOutcome → Text → Text → Statuses → Call Bool
close_out now item_id outcome decision_rule merge_note view = do
  let graph_complete = all_finished view
  when graph_complete (execute (close_rollout now))
  append_rollout_event RolloutEventKind.item_outcome RolloutEventActor.manager
      (Payload.outcome_of item_id outcome decision_rule) decision_rule
  execute (append_merge_note item_id outcome merge_note)
  when graph_complete (execute (emit_wave_completed (length view)))
  return graph_complete

-- From the reload of the statuses on.
unfoldable pub finish_completion : ℕ → ℕ → RolloutItemOutcome → Text → Text → Call Completion
finish_completion now item_id outcome decision_rule merge_note = do
  loaded ← fetch (λ s. load_item_statuses s.rows)
  (view, newly) ← unblock_successors item_id (set_status loaded item_id (outcome_status outcome))
  graph_complete ← close_out now item_id outcome decision_rule merge_note view
  return (record { newly_ready = newly; graph_complete = graph_complete; already_recorded = false })

-- From the UPDATE on.
unfoldable pub record_outcome :
    ℕ → ℕ → ℕ → ℕ → RolloutItemOutcome → Option MergeActor → Text → Text → Call Completion
record_outcome now user_id rollout_id item_id outcome merge_actor decision_rule merge_note = do
  execute (write_row item_id (write_outcome now outcome merge_actor))
  execute (release_rollout_item rollout_id item_id)
  when (is_completed_outcome outcome) (complete_item now user_id item_id)
  finish_completion now item_id outcome decision_rule merge_note

abbrev pub or_lead : Option MergeActor → Option MergeActor
or_lead none = some MergeActor.lead
or_lead (some actor) = some actor

abbrev pub find_row : ℕ → List RolloutItem → Option RolloutItem
find_row item_id rows = find? (λ r. r.item_id == item_id) rows

module _ (now user_id rollout_id item_id : ℕ) (outcome : RolloutItemOutcome)
    (merge_actor : Option MergeActor) (decision_rule merge_note : Text) where
  unfoldable pub take_branch : Branch → Call Completion
  take_branch repeat = heal_repeat_completion now user_id item_id outcome merge_note
  take_branch override =
      record_outcome now user_id rollout_id item_id outcome (or_lead merge_actor) decision_rule
        merge_note
  take_branch proceed =
      record_outcome now user_id rollout_id item_id outcome merge_actor decision_rule merge_note
  take_branch (refuse e) = raise e

  unfoldable pub complete_found : Wave → Option RolloutItem → Call Completion
  complete_found wave none = raise (not_found EntityType.rollout_item item_id)
  complete_found wave (some row) = take_branch (branch_of wave.status row.status outcome)

  -- `merge_actor` is `none` where the code passes the empty text.
  unfoldable pub complete_item_in_rollout : Call Completion
  complete_item_in_rollout = do
    wave ← get_rollout user_id rollout_id
    found ← fetch (λ s. find_row item_id s.rows)
    complete_found wave found
