-- ===== src/Controller.antt =====
-- internal/controller: the reconcilers of shims and jobs.
pub mod Objects
pub mod Log
pub mod Artifact
pub mod Selection
pub mod Names
pub mod Manifest
pub mod Deploy
pub mod Reconcile
pub mod Job
pub mod Setup
pub mod Contract
pub mod Following
pub mod Rollout
pub mod Sending
pub mod Updating
pub mod Branches
pub mod Removing
pub mod Finalizer
pub mod Marking
pub mod Lifecycle
pub mod Labels
pub mod Counts
pub mod Order
pub mod Frame
pub mod Isolation
pub mod Surviving
mod Tests
mod BranchTests
mod SharedCluster
mod SurvivingTests
