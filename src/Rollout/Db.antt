-- ===== src/Rollout/Db.antt =====
-- The part of the database that a rollout touches (the tables of src/agent_gtd/database.py), as
-- seen from one rollout: its own row, plan and events, and the shared tables of items, runs,
-- projects and comments. Ids and times are numbers.
use agent_gtd.Prelude.{
  ◌≡◌, refl, Bool-cases, inl, inr, ℕ, Bool, true, false, ◌&&◌, Option, List, ◌==◌, if◌then◌else◌,
}
use agent_gtd.Text.{Text}
use agent_gtd.Exceptions.{AgentGtdError, Result, ok, err, not_found}
use agent_gtd.Exceptions.{EntityType}
use agent_gtd.Graph.{Edge}
use agent_gtd.Dag.{Dependency}
use agent_gtd.Settings.Types.{Registry}
use agent_gtd.Rollout.Types.{
  RolloutStatus, RolloutItemStatus, RolloutItemOutcome, ItemStatus, LocalRunStatus, DispatchMode,
  RolloutEventKind, RolloutEventActor, MergeActor, ManagerPhase,
}

-- autonomous_rollouts
pub record Wave : Type 0 where
  pub id : ℕ
  pub project_id : ℕ
  pub lead_user_id : ℕ
  pub status : RolloutStatus
  pub halt_reason : Option Text
  pub started_at : Option ℕ
  pub ended_at : Option ℕ
  pub updated_at : ℕ
  pub dispatch_host_id : Option ℕ
  pub manager_phase : Option ManagerPhase
  pub manager_current_item_id : Option ℕ
  pub manager_current_step : Option Text
  pub manager_state_updated_at : Option ℕ

-- rollout_items
pub record RolloutItem : Type 0 where
  pub item_id : ℕ
  pub status : RolloutItemStatus
  pub claude_run_id : Option ℕ
  pub completed_at : Option ℕ
  pub merge_actor : Option MergeActor

-- The JSON payload of an event.
pub data Payload : Type 0 where
  outcome_of : ℕ → RolloutItemOutcome → Text → Payload
  note_on : ℕ → RolloutItemOutcome → Text → Payload
  total_items : ℕ → Payload
  auto_closed : ℕ → Payload
  halt_of : Text → Option ℕ → ℕ → Payload
  cancel_of : Text → List ℕ → Payload
  comment_of : ℕ → Payload
  reset_of : ℕ → Option ℕ → Payload
  resumed_of : List ℕ → List ℕ → List ℕ → Payload
  relaunched_of : ℕ → ℕ → ℕ → Payload
  state_of : ManagerPhase → Option ℕ → Option Text → Payload
  dispatched_of : ℕ → ℕ → Payload
  planned_of : ℕ → Payload
  no_payload : Payload

-- rollout_events
pub record RolloutEvent : Type 0 where
  pub seq : ℕ
  pub kind : RolloutEventKind
  pub actor : RolloutEventActor
  pub decision_rule : Text
  pub payload : Payload

-- items
pub record Item : Type 0 where
  pub id : ℕ
  pub user_id : ℕ
  pub project_id : Option ℕ
  pub status : ItemStatus
  pub completed_at : Option ℕ
  pub version : ℕ
  pub locked_by_rollout_id : Option ℕ
  pub assigned_to : Text
  pub acceptance_criteria : List Text
  -- the `path` of each entry
  pub files_to_modify : List Text
  pub build_engine : Text
  pub commit_type : Text

-- claude_runs, oldest first
pub record Run : Type 0 where
  pub id : ℕ
  pub item_id : Option ℕ
  pub rollout_id : Option ℕ
  pub mode : DispatchMode
  pub status : LocalRunStatus
  pub remote_run_id : Option ℕ
  pub finished_at : Option ℕ
  pub error_msg : Text
  pub user_id : ℕ
  pub project_id : ℕ
  -- as parsed; `none` where the text is no time
  pub created_at : Option ℕ
  pub started_at : Option ℕ
  pub dispatch_host_url : Text
  pub dispatch_host_id : Option ℕ
  pub allow_drained_host : Bool
  pub max_turns : ℕ
  pub engine_actual : Option Text

-- projects
pub record Project : Type 0 where
  pub id : ℕ
  pub user_id : ℕ
  -- `repo_mode == "workspace"`
  pub is_workspace : Bool
  pub workspace_repos : List Text
  pub git_origin : Text
  pub dispatch_timeout_minutes : Option ℕ
  pub dispatch_max_turns : Option ℕ

-- project_members
pub record Member : Type 0 where
  pub project_id : ℕ
  pub user_id : ℕ

-- comments
pub record Comment : Type 0 where
  pub id : ℕ
  pub project_id : Option ℕ
  pub item_id : Option ℕ
  pub user_id : ℕ
  pub content_markdown : Text

pub record Db : Type 0 where
  pub wave : Wave
  pub rows : List RolloutItem
  -- the edges of the latest row of rollout_plans
  pub plan : Option (List Edge)
  pub events : List RolloutEvent
  pub items : List Item
  pub dependencies : List Dependency
  pub runs : List Run
  pub projects : List Project
  pub members : List Member
  pub comments : List Comment
  -- the tables of the settings
  pub registry : Registry

-- A call that reads and writes the database and may raise. What was written before it raised
-- stays written: each statement commits by itself.
abbrev pub Call : Type 0 → Type 0
Call A = Db → Result A × Db

abbrev pub continue : {A B : Type 0} → Result A → (A → Call B) → Call B
continue (ok a) f s = f a s
continue (err e) f s = (err e, s)

infixl 5 ◌>>=◌ ◌>>◌
abbrev pub ◌>>=◌ : {A B : Type 0} → Call A → (A → Call B) → Call B
◌>>=◌ m f s = continue (m s).0 f (m s).1

abbrev pub ◌>>◌ : {A B : Type 0} → Call A → Call B → Call B
m >> k = m >>= λ _. k

abbrev pub return : {A : Type 0} → A → Call A
return a s = (ok a, s)

abbrev pub raise : {A : Type 0} → AgentGtdError → Call A
raise e s = (err e, s)

-- A query.
abbrev pub fetch : {A : Type 0} → (Db → A) → Call A
fetch f s = (ok (f s), s)

-- A statement.
abbrev pub execute : (Db → Db) → Call (Unit {0})
execute f s = (ok tt, f s)

-- `if b: raise e`
abbrev pub refuse_if : Bool → AgentGtdError → Call (Unit {0})
refuse_if true e s = (err e, s)
refuse_if false e s = (ok tt, s)

abbrev pub when : Bool → Call (Unit {0}) → Call (Unit {0})
when b m s = if b then m s else (ok tt, s)

-- `_get_rollout`: any id but the one of the row is of no rollout.
unfoldable pub get_rollout : ℕ → ℕ → Call Wave
get_rollout user_id rollout_id s =
    if rollout_id == s.wave.id && s.wave.lead_user_id == user_id
    then (ok s.wave, s)
    else (err (not_found EntityType.rollout rollout_id), s)

continue-case :
    {A B : Type 0} (P : Db → Type 0) (r : Result A) (f : A → Call B) (t : Db)
    → P t
    → ((a : A) → r ≡ ok a → P (f a t).1)
    → P (continue r f t).1
continue-case P (ok a) f t h k = k a refl
continue-case P (err e) f t h k = h

-- What holds after `m`, and after the rest where `m` returns, holds after both.
pub bind-after :
    {A B : Type 0} (P : Db → Type 0) (m : Call A) (f : A → Call B) (s : Db)
    → P (m s).1
    → ((a : A) → (m s).0 ≡ ok a → P (f a (m s).1).1)
    → P ((m >>= f) s).1
bind-after P m f s h k = continue-case P (m s).0 f (m s).1 h k

-- `_get_rollout` reads.
pub get_rollout-after :
    {B : Type 0} (P : Db → Type 0) (user rid : ℕ) (f : Wave → Call B) (s : Db)
    → P s
    → (get_rollout user rid s ≡ (ok s.wave, s) → P (f s.wave s).1)
    → P ((get_rollout user rid >>= f) s).1
unfolding get_rollout
get_rollout-after P user rid f s h k =
    elim (Bool-cases (rid == s.wave.id && s.wave.lead_user_id == user)) [
      | inl found ↦ rw found (k (rw found refl))
      | inr missing ↦ rw missing h
    ]
