-- ===== src/Examples.antt =====
-- Runs of the theorems on small plans and rollouts.
mod Data
mod Dag
mod Paths
mod Rollout
mod Blockers
mod Router
mod Items
mod Resume
mod EventBus
mod Plan
mod Settings
mod Reaper
mod Dispatch
