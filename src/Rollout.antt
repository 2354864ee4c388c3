-- ===== src/Rollout.antt =====
-- src/agent_gtd/services/rollout_service.py: the life of a rollout.
pub mod Types
pub mod Db
pub mod Events
pub mod Locks
pub mod Access
pub mod Items
pub mod Graph
pub mod Plan
pub mod Resume
pub mod Complete
pub mod Runs
pub mod Lifecycle
pub mod Frame
pub mod Keeps
pub mod Ensures
pub mod Sequence
pub mod History
pub mod Precedence
pub mod Statuses
pub mod Stop
pub mod Refusals
