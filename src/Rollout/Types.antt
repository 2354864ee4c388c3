-- ===== src/Rollout/Types.antt =====
-- The enumerations of src/agent_gtd/models.py that a rollout uses, and the sets of statuses that
-- rollout_service.py and dispatch_service.py test.
use agent_gtd.Prelude.{Bool, true, false}

pub data RolloutStatus : Type 0 where
  pending planning running completed halted failed cancelled : RolloutStatus

pub data RolloutItemStatus : Type 0 where
  pending ready dispatched completed halted skipped : RolloutItemStatus

pub data RolloutItemOutcome : Type 0 where
  completed halted skipped : RolloutItemOutcome

pub data ItemStatus : Type 0 where
  inbox new ready next_action waiting_for scheduled someday_maybe : ItemStatus
  active review done cancelled : ItemStatus

pub data LocalRunStatus : Type 0 where
  pending cloning running success failed timeout cancelled : LocalRunStatus

pub data DispatchMode : Type 0 where
  build plan manage review : DispatchMode

pub data RolloutEventKind : Type 0 where
  wave_planned item_outcome wave_completed comment_posted wave_halted : RolloutEventKind
  manage_relaunched wave_cancelled wave_started manager_state_update : RolloutEventKind
  wave_resumed item_dispatched item_reset merge_note : RolloutEventKind

pub data RolloutEventActor : Type 0 where
  manager human lead dispatch : RolloutEventActor

pub data MergeActor : Type 0 where
  human manager_allowlist manager_autonomous manager_human_fixup : MergeActor
  reviewer_autonomous lead external : MergeActor

pub data ManagerPhase : Type 0 where
  warm_up dispatching polling reviewing merging reconciling_ac parked halted : ManagerPhase

-- `_TERMINAL_STATUSES`
abbrev pub is_terminal : RolloutItemStatus → Bool
is_terminal RolloutItemStatus.completed = true
is_terminal RolloutItemStatus.halted = true
is_terminal RolloutItemStatus.skipped = true
is_terminal _ = false

-- `_FINISHED_STATUSES`
abbrev pub is_finished : RolloutItemStatus → Bool
is_finished RolloutItemStatus.completed = true
is_finished RolloutItemStatus.skipped = true
is_finished _ = false

-- `RolloutItemOutcome.value`, which is a status too.
abbrev pub outcome_status : RolloutItemOutcome → RolloutItemStatus
outcome_status RolloutItemOutcome.completed = RolloutItemStatus.completed
outcome_status RolloutItemOutcome.halted = RolloutItemStatus.halted
outcome_status RolloutItemOutcome.skipped = RolloutItemStatus.skipped

abbrev pub is_pending : RolloutItemStatus → Bool
is_pending RolloutItemStatus.pending = true
is_pending _ = false

abbrev pub is_ready : RolloutItemStatus → Bool
is_ready RolloutItemStatus.ready = true
is_ready _ = false

abbrev pub is_dispatched : RolloutItemStatus → Bool
is_dispatched RolloutItemStatus.dispatched = true
is_dispatched _ = false

abbrev pub is_halted : RolloutItemStatus → Bool
is_halted RolloutItemStatus.halted = true
is_halted _ = false

-- `_ACTIVE_STATUSES` of dispatch_service.py
abbrev pub is_active_run : LocalRunStatus → Bool
is_active_run LocalRunStatus.pending = true
is_active_run LocalRunStatus.cloning = true
is_active_run LocalRunStatus.running = true
is_active_run _ = false

-- `_TERMINAL_ITEM_STATUSES`
abbrev pub is_closed_item : ItemStatus → Bool
is_closed_item ItemStatus.done = true
is_closed_item ItemStatus.cancelled = true
is_closed_item _ = false

abbrev pub is_done : ItemStatus → Bool
is_done ItemStatus.done = true
is_done _ = false

abbrev pub is_manage : DispatchMode → Bool
is_manage DispatchMode.manage = true
is_manage _ = false

abbrev pub is_build : DispatchMode → Bool
is_build DispatchMode.build = true
is_build _ = false

abbrev pub is_pending_run : LocalRunStatus → Bool
is_pending_run LocalRunStatus.pending = true
is_pending_run _ = false

abbrev pub is_success : LocalRunStatus → Bool
is_success LocalRunStatus.success = true
is_success _ = false
