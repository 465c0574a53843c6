-- ===== src/Request.antt =====
-- internal/controller/databaserequest_controller.go: the reconciler of database requests. Each
-- method is an action over the request that it holds in memory and the history of its calls.
pub mod Faults
pub mod Info
pub mod Providers
pub mod Operation
pub mod Resources
pub mod Deletion
pub mod Reconcile
pub mod Locks
pub mod LockLaws
pub mod Exclusion
pub mod Parallel
pub mod Calls
pub mod LiveCalls
pub mod DeletionCalls
pub mod Choice
pub mod Lowest
pub mod Frame
pub mod Safety
pub mod Named
pub mod Cleared
pub mod DeletionOrder
pub mod Failing
pub mod SeedData
pub mod Seeding
pub mod SeedFaults
pub mod Settled
pub mod Observed
pub mod Serving
pub mod Asked
pub mod Search
pub mod Reference
pub mod Served
pub mod Written
pub mod Succeeds
pub mod Content
pub mod Obtained
pub mod Present
pub mod Provision
pub mod Skips
pub mod DeletionDone
pub mod SecretData
