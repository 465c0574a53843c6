-- ===== src/Provider.antt =====
-- internal/controller/relationaldatabaseprovider_controller.go: the reconciler of the providers.
pub mod Faults
pub mod Connections
pub mod Reconcile
pub mod Checked
pub mod Names
pub mod Ready
pub mod Statuses
