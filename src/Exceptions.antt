-- ===== src/Exceptions.antt =====
-- src/agent_gtd/exceptions.py: the errors that the services raise, with the values they carry. The
-- texts of the messages are left out. `value_error` is Python's `ValueError` of a cyclic plan.
use agent_gtd.Prelude.{ℕ, Option, List}
use agent_gtd.Text.{Text}

-- What a `NotFoundError` names.
pub data EntityType : Type 0 where
  item project rollout rollout_item dispatch_host dispatch_run : EntityType

-- Why a `ValidationError` was raised, one for each place that the model covers.
pub data Detail : Type 0 where
  not_running not_pending not_cancellable not_dispatched : Detail
  terminal_outcome wrong_item_status : Detail
  already_locked answer_required nothing_to_do no_loop : Detail
  self_block cross_project would_create_cycle : Detail
  relaunch_refused no_items no_dispatch_config no_project : Detail
  bad_build_engine bad_commit_type : Detail
  use_dispatch_rollout already_done host_draining owned_by_rollout : Detail
  pending_loop unresolved_host : Detail

-- What `validate_legality_contract` finds wrong with an item.
pub data ContractFailure : Type 0 where
  not_accessible not_ready no_acceptance_criteria no_files : ContractFailure
  no_build_engine no_commit_type : ContractFailure
  external_blockers : List ℕ → ContractFailure
  project_mismatch : Option ℕ → ContractFailure

pub record FailureEntry : Type 0 where
  pub item_id : ℕ
  pub failures : List ContractFailure

pub data AgentGtdError : Type 0 where
  not_found : EntityType → ℕ → AgentGtdError
  validation_error : Detail → AgentGtdError
  value_error : ℕ → AgentGtdError
  version_conflict : (item_id expected actual : ℕ) → AgentGtdError
  already_claimed : ℕ → Text → AgentGtdError
  rollout_item_locked : (item_id rollout_id : ℕ) → AgentGtdError
  plan_engine_override : ℕ → Text → Option Text → AgentGtdError
  blockers_unresolved : List ℕ → AgentGtdError
  legality_contract_error : List FailureEntry → AgentGtdError
  run_active : (item_id run_id : ℕ) → AgentGtdError
  -- a `NotFoundError` of what a project should have: a project, its repos, its git_origin
  no_item_project no_repos no_git_origin : AgentGtdError
  -- Python's `ValueError` of `int`
  bad_number : AgentGtdError
  -- raised by the database, at a second row with one primary key
  integrity_error : AgentGtdError

-- A call returns, or raises.
pub data Result {ℓ} (A : Type ℓ) : Type ℓ where
  ok : A → Result A
  err : AgentGtdError → Result A

infixl 5 ◌>>=◌ ◌>>◌
abbrev pub ◌>>=◌ {ℓ κ} : {A : Type ℓ} {B : Type κ} → Result A → (A → Result B) → Result B
ok a >>= f = f a
err e >>= f = err e

abbrev pub ◌>>◌ {ℓ κ} : {A : Type ℓ} {B : Type κ} → Result A → Result B → Result B
m >> k = m >>= λ _. k
